-- ===== src/Player/SeekTarget/RoundTrip.antt =====
-- source/player/seek_target.c: a printed position reads back.
use nx_cast.Base.{
  ℕ, zero, suc, ◌+◌, ◌-◌, ◌*◌, ◌/◌, ◌%◌, ◌≤◌, ◌<◌, ◌≡◌, refl, ap, ◌∙◌, true, false, Option, some,
  none, [], ◌∷◌, ◌++◌, arith, ltb, Bool-cases, inl, inr, length, length-append,
}
use nx_cast.Base.Text.{Bytes}
use nx_cast.Player.SeekTarget.{
  int_max, is_space, is_digit, skip_spaces, trim_end, keep_before, scan_digits, parse_unsigned_ll,
  split_at, split_seconds, fraction_of, total_ms, no_colon, parse_hhmmss_ms, parse_ms, decimal,
  two_digits, format_hhmmss, ◌>>=◌,
}

abbrev IsDigits : Bytes → Type 0
IsDigits [] = Unit
IsDigits (c ∷ text) = (is_digit c ≡ true) × IsDigits text

append-IsDigits : (xs ys : Bytes) → IsDigits xs → IsDigits ys → IsDigits (xs ++ ys)
append-IsDigits [] ys h k = k
append-IsDigits (x ∷ xs) ys h k = (h.0, append-IsDigits xs ys h.1 k)

scan_digits-append :
    (xs ys : Bytes) (value : ℕ)
    → scan_digits (xs ++ ys) value ≡ (scan_digits xs value >>= scan_digits ys)
unfolding scan_digits
scan_digits-append [] ys value = refl
scan_digits-append (x ∷ xs) ys value =
    ground (arith, scan_digits-append xs ys (value * 10 + (x - b'0')))

decimal-IsDigits : (fuel n : ℕ) → IsDigits (decimal fuel n)
unfolding decimal
decimal-IsDigits zero n = tt
decimal-IsDigits (suc fuel) n = elim (Bool-cases (ltb n 10)) [
  | inl e ↦ rw e (ground arith, tt)
  | inr e ↦ rw e (
      append-IsDigits (decimal fuel (n / 10)) _ (decimal-IsDigits fuel (n / 10)) (ground arith, tt))
]

scan_digits-one :
    (n value : ℕ)
    → n < 10
    → value ≤ 922337203685477579
    → scan_digits ((b'0' + n) ∷ []) value ≡ some (value * 10 + n)
unfolding scan_digits
scan_digits-one n value h k = ground arith

-- One more digit of a printed number reads back.
scan_digits-decimal-suc :
    (fuel n : ℕ)
    → n ≤ int_max
    → (10 ≤ n → scan_digits (decimal fuel (n / 10)) 0 ≡ some (n / 10))
    → scan_digits (decimal (suc fuel) n) 0 ≡ some n
unfolding decimal
scan_digits-decimal-suc fuel n k before = elim (Bool-cases (ltb n 10)) [
  | inl e ↦ rw e (scan_digits-one n 0 (ground arith) (omega arith) ∙ ap some (omega arith))
  | inr e ↦ rw e (
      scan_digits-append (decimal fuel (n / 10)) ((b'0' + n % 10) ∷ []) 0
      ∙ ap (λ (o : Option ℕ). o >>= scan_digits ((b'0' + n % 10) ∷ [])) (before (ground arith))
      ∙ scan_digits-one (n % 10) (n / 10) (omega arith) (omega arith)
      ∙ ap some (omega arith))
]

-- A printed number of three digits at most reads back.
scan_digits-decimal :
    (fuel n : ℕ) → n < 1000 → scan_digits (decimal (suc (suc (suc fuel))) n) 0 ≡ some n
scan_digits-decimal fuel n h = scan_digits-decimal-suc (suc (suc fuel)) n (omega arith) λ _.
    scan_digits-decimal-suc (suc fuel) (n / 10) (omega arith)
      λ _. scan_digits-decimal-suc fuel (n / 10 / 10) (omega arith) λ more. absurd (omega arith)

two_digits-IsDigits : (n : ℕ) → IsDigits (two_digits n)
unfolding two_digits
two_digits-IsDigits n = elim (Bool-cases (ltb n 10)) [
  | inl e ↦ rw e (refl, (ground arith, tt))
  | inr e ↦ rw e (decimal-IsDigits 10 n)
]

scan_digits-two_digits : (n : ℕ) → n < 1000 → scan_digits (two_digits n) 0 ≡ some n
unfolding two_digits scan_digits
scan_digits-two_digits n h = elim (Bool-cases (ltb n 10)) [
  | inl e ↦ rw e (
      scan_digits-append (b'0' ∷ []) ((b'0' + n) ∷ []) 0
      ∙ scan_digits-one n 0 (ground arith) (omega arith)
      ∙ ap some (omega arith))
  | inr e ↦ rw e (scan_digits-decimal 7 n h)
]

-- A printed number is not empty.
length-two_digits_pos : (n : ℕ) → 0 < length (two_digits n)
unfolding two_digits decimal
length-two_digits_pos n = ground (arith, length-append (decimal 9 (n / 10)) ((b'0' + n % 10) ∷ []))

parse_unsigned_ll-scan_digits :
    (text : Bytes) → 0 < length text → parse_unsigned_ll text ≡ scan_digits text 0
unfolding parse_unsigned_ll
parse_unsigned_ll-scan_digits [] h = absurd (omega arith)
parse_unsigned_ll-scan_digits (c ∷ text) h = refl

parse_unsigned_ll-two_digits : (n : ℕ) → n < 1000 → parse_unsigned_ll (two_digits n) ≡ some n
parse_unsigned_ll-two_digits n h =
    parse_unsigned_ll-scan_digits (two_digits n) (length-two_digits_pos n)
    ∙ scan_digits-two_digits n h

-- A mark that is no digit is not found among digits, and found right after them.
split_at-none : (c : ℕ) (text : Bytes) → is_digit c ≡ false → IsDigits text → split_at c text ≡ none
unfolding split_at
split_at-none c [] h k = refl
split_at-none c (d ∷ text) h k = ground (arith, split_at-none c text h k.1)

split_at-digits :
    (c : ℕ) (text rest : Bytes)
    → is_digit c ≡ false
    → IsDigits text
    → split_at c (text ++ c ∷ rest) ≡ some (text, rest)
unfolding split_at
split_at-digits c [] rest h k = ground arith
split_at-digits c (d ∷ text) rest h k = ground (arith, split_at-digits c text rest h k.1)

-- A text without spaces is not trimmed.
abbrev HasNoSpace : Bytes → Type 0
HasNoSpace [] = Unit
HasNoSpace (c ∷ text) = (is_space c ≡ false) × HasNoSpace text

append-HasNoSpace : (xs ys : Bytes) → IsDigits xs → HasNoSpace ys → HasNoSpace (xs ++ ys)
append-HasNoSpace [] ys h k = k
append-HasNoSpace (x ∷ xs) ys h k = (ground arith, append-HasNoSpace xs ys h.1 k)

trim_end-HasNoSpace : (text : Bytes) → HasNoSpace text → trim_end text ≡ text
unfolding trim_end
trim_end-HasNoSpace [] h = refl
trim_end-HasNoSpace (c ∷ []) h = rw (h.0) refl
trim_end-HasNoSpace (c ∷ d ∷ text) h = ap (keep_before c) (trim_end-HasNoSpace (d ∷ text) h.1)

skip_spaces-HasNoSpace : (text : Bytes) → HasNoSpace text → skip_spaces text ≡ text
unfolding skip_spaces
skip_spaces-HasNoSpace [] h = refl
skip_spaces-HasNoSpace (c ∷ text) h = rw (h.0) refl

total_ms-fits :
    (t : ℕ) → t * 1000 ≤ int_max → total_ms (t / 3600) (t % 3600 / 60) (t % 60) 0 ≡ some (t * 1000)
unfolding total_ms
total_ms-fits t h = ground arith

IsDigits-HasNoSpace : (text : Bytes) → IsDigits text → HasNoSpace text
IsDigits-HasNoSpace [] h = tt
IsDigits-HasNoSpace (c ∷ text) h = (ground arith, IsDigits-HasNoSpace text h.1)

split_seconds-digits : (text : Bytes) → IsDigits text → split_seconds text ≡ (text, none)
unfolding split_seconds
split_seconds-digits text h = rw (split_at-none b'.' text refl h, split_seconds) refl

no_colon-digits : (text : Bytes) → IsDigits text → no_colon text ≡ true
unfolding no_colon
no_colon-digits text h = rw (split_at-none b':' text refl h, no_colon) refl

no_colon-colon : (text rest : Bytes) → IsDigits text → no_colon (text ++ b':' ∷ rest) ≡ false
unfolding no_colon
no_colon-colon text rest h = rw (split_at-digits b':' text rest refl h, no_colon) refl

-- Three rows of digits with colons between them.
parse_hhmmss_ms-digits :
    (hours minutes seconds : Bytes) (h m s : ℕ)
    → IsDigits hours
    → IsDigits minutes
    → IsDigits seconds
    → parse_unsigned_ll hours ≡ some h
    → parse_unsigned_ll minutes ≡ some m
    → parse_unsigned_ll seconds ≡ some s
    → parse_hhmmss_ms (hours ++ b':' ∷ (minutes ++ b':' ∷ seconds)) ≡ total_ms h m s 0
unfolding parse_hhmmss_ms fraction_of
parse_hhmmss_ms-digits hours minutes seconds h m s dh dm ds ph pm ps =
    rw
      (
        split_at-digits b':' hours (minutes ++ b':' ∷ seconds) refl dh,
        split_at-digits b':' minutes seconds refl dm,
        no_colon-digits seconds ds,
        ph,
        pm,
        split_seconds-digits seconds ds,
        ps,
      )
      refl

-- What `player_seek_target_format_hhmmss_alloc` prints for an `int` of milliseconds that is not negative,
-- `player_seek_target_parse_ms` reads as that number cut to whole seconds.
pub parse_ms-format_hhmmss :
    (numeric : Bytes → Option ℕ) (position_ms : ℕ)
    → position_ms ≤ int_max
    → parse_ms numeric (format_hhmmss position_ms) ≡ some (position_ms / 1000 * 1000)
unfolding parse_ms format_hhmmss
parse_ms-format_hhmmss numeric position_ms h =
    let t = position_ms / 1000 in
    let hours = two_digits (t / 3600) in
    let minutes = two_digits (t % 3600 / 60) in
    let seconds = two_digits (t % 60) in
    let text = hours ++ b':' ∷ (minutes ++ b':' ∷ seconds) in
    let dh = two_digits-IsDigits (t / 3600) in
    let dm = two_digits-IsDigits (t % 3600 / 60) in
    let ds = two_digits-IsDigits (t % 60) in
    let spaceless : HasNoSpace text =
      append-HasNoSpace hours _ dh
        (refl, append-HasNoSpace minutes _ dm (refl, IsDigits-HasNoSpace seconds ds)) in
    let colon : no_colon text ≡ false = no_colon-colon hours (minutes ++ b':' ∷ seconds) dh in
    rw (skip_spaces-HasNoSpace text spaceless, trim_end-HasNoSpace text spaceless, colon)
      (parse_hhmmss_ms-digits hours minutes seconds (t / 3600) (t % 3600 / 60) (t % 60) dh dm ds
          (parse_unsigned_ll-two_digits (t / 3600) (omega arith))
          (parse_unsigned_ll-two_digits (t % 3600 / 60) (omega arith))
          (parse_unsigned_ll-two_digits (t % 60) (omega arith))
        ∙ total_ms-fits t (omega arith))
