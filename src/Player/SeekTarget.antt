-- ===== src/Player/SeekTarget.antt =====
-- source/player/seek_target.c: texts such as 01:02:03.5 read as milliseconds, and printed.
-- A range of characters from `start` to `end` is the list of them. `long long` values stay below
-- `llong_max`, which the code tests before it computes. A text without a colon is a number of
-- seconds in floating point: that reading is the parameter `numeric`.
mod Decimal
mod RoundTrip
mod Tests
use nx_cast.Base.{
  ℕ, zero, suc, ◌+◌, ◌-◌, ◌*◌, ◌/◌, ◌%◌, Bool, true, false, not, ◌&&◌, ◌||◌, Option, some, none,
  List, [], ◌∷◌, ◌++◌, if◌then◌else◌, leb, ltb, ◌==◌,
}
use nx_cast.Base.Text.{Bytes}

abbrev pub llong_max : ℕ
llong_max = 9223372036854775807

abbrev pub int_max : ℕ
int_max = 2147483647

-- `isspace` and `isdigit` in the C locale.
abbrev pub is_space : ℕ → Bool
is_space c = c == 32 || (leb 9 c && leb c 13)

abbrev pub is_digit : ℕ → Bool
is_digit c = leb b'0' c && leb c b'9'

unfoldable pub skip_spaces : Bytes → Bytes
skip_spaces [] = []
skip_spaces (c ∷ text) = if is_space c then skip_spaces text else c ∷ text

-- A character and what is kept after it: it goes too if nothing is.
abbrev pub keep_before : ℕ → Bytes → Bytes
keep_before c [] = if is_space c then [] else c ∷ []
keep_before c (d ∷ text) = c ∷ d ∷ text

unfoldable pub trim_end : Bytes → Bytes
trim_end [] = []
trim_end (c ∷ text) = keep_before c (trim_end text)

-- The loop of `parse_unsigned_ll`.
unfoldable pub scan_digits : Bytes → ℕ → Option ℕ
scan_digits [] value = some value
scan_digits (c ∷ text) value =
    let digit = c - b'0' in
    let rest = scan_digits text (value * 10 + digit) in
    if not (is_digit c) then none else if ltb ((llong_max - digit) / 10) value then none else rest

unfoldable pub parse_unsigned_ll : Bytes → Option ℕ
parse_unsigned_ll [] = none
parse_unsigned_ll (c ∷ text) = scan_digits (c ∷ text) 0

-- The loop of `parse_fraction_ms`: the digits read, their value and whether the next one rounds up.
unfoldable pub scan_fraction : Bytes → ℕ → ℕ → Option (ℕ × ℕ × Bool)
scan_fraction [] millis digits = some (millis, digits, false)
scan_fraction (c ∷ text) millis digits =
    let rest = scan_fraction text (millis * 10 + (c - b'0')) (digits + 1) in
    if not (is_digit c)
    then none
    else if ltb digits 3
    then rest
    else some (millis, digits, leb b'5' c)

-- `while (digits > 0 && digits < 3)`
unfoldable pub scale : ℕ → ℕ → ℕ
scale millis digits =
    if digits == 1 then millis * 10 * 10 else if digits == 2 then millis * 10 else millis

abbrev pub rounded : ℕ × ℕ × Bool → ℕ
rounded (millis, digits, up) = if up then scale millis digits + 1 else scale millis digits

infixl 5 ◌>>=◌
abbrev pub ◌>>=◌ {ℓ κ} : {A : Type ℓ} {B : Type κ} → Option A → (A → Option B) → Option B
none >>= f = none
some a >>= f = f a

unfoldable pub parse_fraction_ms : Bytes → Option ℕ
parse_fraction_ms text = scan_fraction text 0 0 >>= λ r. some (rounded r)

-- `memchr`: what stands before the first `c` and after it.
unfoldable pub split_at : ℕ → Bytes → Option (Bytes × Bytes)
split_at c [] = none
split_at c (d ∷ text) =
    if d == c
    then some ([], text)
    else split_at c text >>= λ (before, after). some (d ∷ before, after)

-- The seconds and the fraction after a dot, if there is one.
unfoldable pub split_seconds : Bytes → Bytes × Option Bytes
split_seconds text = elim (split_at b'.' text) [
  | none ↦ (text, none)
  | some (seconds, fraction) ↦ (seconds, some fraction)
]

unfoldable pub fraction_of : Option Bytes → Option ℕ
fraction_of none = some 0
fraction_of (some text) = parse_fraction_ms text

-- The sum, with the tests for overflow.
unfoldable pub total_ms : (hour minute second fraction : ℕ) → Option ℕ
total_ms hour minute second fraction =
    let hours = hour * 3600000 in
    let minutes = hours + minute * 60000 in
    let seconds = minutes + second * 1000 in
    if ltb (int_max / 3600000) hour
    then none
    else if ltb ((int_max - hours) / 60000) minute
    then none
    else if ltb ((int_max - minutes) / 1000) second
    then none
    else if ltb (int_max - seconds) fraction
    then none
    else some (seconds + fraction)

unfoldable pub no_colon : Bytes → Bool
no_colon text = elim (split_at b':' text) [ none ↦ true | some _ ↦ false ]

abbrev pub require : Bool → Option (Unit {0})
require true = some tt
require false = none

unfoldable pub parse_hhmmss_ms : Bytes → Option ℕ
parse_hhmmss_ms text = do
  (hours, rest) ← split_at b':' text
  (minutes, last) ← split_at b':' rest
  _ ← require (no_colon last)
  hour ← parse_unsigned_ll hours
  minute ← parse_unsigned_ll minutes
  second ← parse_unsigned_ll (split_seconds last).0
  fraction ← fraction_of (split_seconds last).1
  total_ms hour minute second fraction

unfoldable pub parse_ms : (numeric : Bytes → Option ℕ) → Bytes → Option ℕ
parse_ms numeric target =
    let text = trim_end (skip_spaces target) in
    if no_colon text
    then (elim text [ [] ↦ none | c ∷ more ↦ numeric (c ∷ more) ])
    else parse_hhmmss_ms text

-- `%d` of a number below 10 ^ fuel.
unfoldable pub decimal : (fuel : ℕ) → ℕ → Bytes
decimal zero n = []
decimal (suc fuel) n =
    let longer = decimal fuel (n / 10) ++ ((b'0' + n % 10) ∷ []) in
    if ltb n 10 then (b'0' + n) ∷ [] else longer

-- `%02d` of an `int` that is not negative: ten digits at most.
unfoldable pub two_digits : ℕ → Bytes
two_digits n = if ltb n 10 then b'0' ∷ (b'0' + n) ∷ [] else decimal 10 n

-- `player_seek_target_format_hhmmss_alloc`, if memory is found; `position_ms` is not negative after its test.
unfoldable pub format_hhmmss : ℕ → Bytes
format_hhmmss position_ms =
    let total_seconds = position_ms / 1000 in
    two_digits (total_seconds / 3600)
    ++ b':' ∷ (two_digits (total_seconds % 3600 / 60) ++ b':' ∷ two_digits (total_seconds % 60))
