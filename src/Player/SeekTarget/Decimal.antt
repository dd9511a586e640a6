-- ===== src/Player/SeekTarget/Decimal.antt =====
-- source/player/seek_target.c: the number that a row of digits is read as.
use nx_cast.Base.{
  ℕ, ◌+◌, ◌-◌, ◌*◌, ◌≤◌, ◌≡◌, refl, Bool, true, ◌&&◌, Option, some, none, [], ◌∷◌, arith,
  if◌then◌else◌, leb,
}
use nx_cast.Base.Text.{Bytes}
use nx_cast.Player.SeekTarget.{
  llong_max, is_digit, scan_digits, parse_unsigned_ll, parse_fraction_ms, scan_fraction, scale,
  rounded,
}

-- The number that digits spell behind `value`, with no bound.
unfoldable pub value_of : Bytes → ℕ → ℕ
value_of [] value = value
value_of (c ∷ text) value = value_of text (value * 10 + (c - b'0'))

unfoldable pub all_digits : Bytes → Bool
all_digits [] = true
all_digits (c ∷ text) = is_digit c && all_digits text

-- What a row of digits is to be read as.
unfoldable pub spelled : Bytes → Option ℕ
spelled [] = none
spelled (c ∷ text) =
    if all_digits (c ∷ text) && leb (value_of (c ∷ text) 0) llong_max
    then some (value_of (c ∷ text) 0)
    else none

le-value_of : (text : Bytes) (value : ℕ) → value ≤ value_of text value
unfolding value_of
le-value_of [] value = omega arith
le-value_of (c ∷ text) value = omega (arith, le-value_of text (value * 10 + (c - b'0')))

scan_digits-eq :
    (text : Bytes) (value : ℕ)
    → value ≤ llong_max
    → scan_digits text value ≡ (
        if all_digits text && leb (value_of text value) llong_max
        then some (value_of text value)
        else none)
unfolding scan_digits value_of all_digits
scan_digits-eq [] value h = ground arith
scan_digits-eq (c ∷ text) value h =
    let next = value * 10 + (c - b'0') in
    ground (arith, scan_digits-eq text next, le-value_of text next)

-- The reader with its test before each step accepts exactly the rows of digits whose value, computed
-- without bound, is at most LLONG_MAX, and gives that value.
pub parse_unsigned_ll-spelled : (text : Bytes) → parse_unsigned_ll text ≡ spelled text
unfolding parse_unsigned_ll spelled
parse_unsigned_ll-spelled [] = refl
parse_unsigned_ll-spelled (c ∷ text) = scan_digits-eq (c ∷ text) 0 (omega arith)

-- Whatever follows the fourth digit of a fraction is accepted and ignored, be it no digit at all.
pub fraction_tail_ignored :
    (a b c d : ℕ) (tail : Bytes)
    → is_digit a ≡ true
    → is_digit b ≡ true
    → is_digit c ≡ true
    → is_digit d ≡ true
    → (ms : ℕ) × (parse_fraction_ms (a ∷ b ∷ c ∷ d ∷ tail) ≡ some ms)
      × (parse_fraction_ms (a ∷ b ∷ c ∷ d ∷ []) ≡ some ms)
      × (ms ≤ 1000)
unfolding parse_fraction_ms scan_fraction scale
fraction_tail_ignored a b c d tail ha hb hc hd = (
  rounded (((0 + (a - b'0')) * 10 + (b - b'0')) * 10 + (c - b'0'), 3, leb b'5' d),
  rw (ha, hb, hc, hd) refl,
  rw (ha, hb, hc, hd) refl,
  ground arith,
)
