-- ===== src/Player/SeekTarget/Tests.antt =====
-- Seek targets read and printed at concrete inputs.
use nx_cast.Base.{ℕ, ◌≡◌, ◌≤◌, ◌*◌, ◌/◌, refl, Option, some, none, arith}
use nx_cast.Base.Text.{Bytes, codes}
use nx_cast.Player.SeekTarget.{
  skip_spaces, trim_end, scan_digits, parse_unsigned_ll, scan_fraction, scale, parse_fraction_ms,
  split_at, split_seconds, fraction_of, total_ms, no_colon, parse_hhmmss_ms, parse_ms, decimal,
  two_digits, format_hhmmss,
}
use nx_cast.Player.SeekTarget.Decimal.{spelled, parse_unsigned_ll-spelled, fraction_tail_ignored}
use nx_cast.Player.SeekTarget.RoundTrip.{parse_ms-format_hhmmss}

-- Where no number of seconds is read.
abbrev no_seconds : Bytes → Option ℕ
no_seconds text = none

parse_ms-format_hhmmss_example :
    parse_ms no_seconds (format_hhmmss 3723500) ≡ some (3723500 / 1000 * 1000)
parse_ms-format_hhmmss_example = parse_ms-format_hhmmss no_seconds 3723500 (omega arith)

prints : format_hhmmss 3723500 ≡ codes "01:02:03"
unfolding format_hhmmss two_digits decimal
prints = refl

reads_fraction : parse_ms no_seconds (codes " 1:2:3.4567 ") ≡ some 3723457
unfolding parse_ms skip_spaces trim_end parse_hhmmss_ms parse_unsigned_ll scan_digits
    parse_fraction_ms scan_fraction scale split_at split_seconds fraction_of total_ms no_colon
reads_fraction = refl

parse_unsigned_ll-spelled_example :
    parse_unsigned_ll (codes "9223372036854775808") ≡ spelled (codes "9223372036854775808")
parse_unsigned_ll-spelled_example = parse_unsigned_ll-spelled (codes "9223372036854775808")

fraction_tail_ignored_example :
    (ms : ℕ) × (parse_fraction_ms (codes "1234abc") ≡ some ms)
    × (parse_fraction_ms (codes "1234") ≡ some ms)
    × (ms ≤ 1000)
fraction_tail_ignored_example =
    fraction_tail_ignored b'1' b'2' b'3' b'4' (codes "abc") refl refl refl refl
