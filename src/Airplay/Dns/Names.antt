-- ===== src/Airplay/Dns/Names.antt =====
-- source/protocol/airplay/discovery/dns.c: `read_name`, which follows compression pointers.
use Prim.Native.Nat.{bit_and}
use nx_cast.Base.{
  ℕ, zero, suc, ◌+◌, ◌-◌, ◌*◌, ◌≤◌, ◌<◌, ◌≡◌, refl, ap, Bool, true, not, ◌&&◌, ◌||◌, Option, some,
  none, [], ◌∷◌, ◌++◌, arith, if◌then◌else◌, leb, ltb, ◌==◌, length, take, drop, length-append,
  leb→le, length-take-le,
}
use nx_cast.Base.Text.{Bytes}
use nx_cast.Airplay.Dns.Reads.{
  Reads, ok, refused, fault, ◌>>=◌, ◌>>◌, require, byte_at, slice, Ensures, holds, declined,
  Ensures-require, Ensures-bind, Ensures-if, slice-Ensures, byte_at-Ensures,
}
use nx_cast.Airplay.Dns.Writer.{name_max}

abbrev pub max_jumps : ℕ
max_jumps = 16

-- `DNS_MAX_COMPRESSION_JUMPS + 1` rounds of the packet, and one more, are enough.
abbrev pub name_fuel : ℕ → ℕ
name_fuel size = suc (17 * (size + 1))

-- The offset after the name: after the first pointer, if one was followed.
abbrev pub after_name : Option ℕ → ℕ → ℕ
after_name none cursor = cursor
after_name (some next) cursor = next

-- The dot between labels, then the label of `size` bytes at `cursor`.
unfoldable pub add_label : Bytes → ℕ → ℕ → Bytes → Reads Bytes
add_label packet cursor size output = do
  require (not (ltb 0 (length output)) || ltb (length output) name_max)
  let dotted = if ltb 0 (length output) then output ++ (b'.' ∷ []) else output
  require (leb size (name_max - length dotted))
  label ← slice packet cursor size
  ok (dotted ++ label)

-- The target of the compression pointer at `cursor`, whose first byte is `size`: it lies before.
unfoldable pub pointer_at : Bytes → ℕ → ℕ → ℕ → Reads ℕ
pointer_at packet cursor size jumps = do
  require (ltb (cursor + 1) (length packet) && leb (jumps + 1) max_jumps)
  low ← byte_at packet (cursor + 1)
  let pointer = bit_and size 0x3f * 256 + low
  require (ltb pointer (length packet) && ltb pointer cursor)
  ok pointer

abbrev pub is_pointer : ℕ → Bool
is_pointer size = bit_and size 0xc0 == 0xc0

-- A round of the loop; `next` is `next_offset` where `jumped`.
unfoldable pub name_loop : (fuel : ℕ) → Bytes → ℕ → Bytes → ℕ → Option ℕ → Reads (Bytes × ℕ)
name_loop zero packet cursor output jumps next = fault
name_loop (suc fuel) packet cursor output jumps next =
    let follow = λ (size : ℕ). pointer_at packet cursor size jumps >>= λ pointer.
    name_loop fuel packet pointer output (jumps + 1) (some (after_name next (cursor + 2))) in
    let more = λ (size : ℕ). add_label packet (cursor + 1) size output >>= λ output'.
    name_loop fuel packet (cursor + 1 + size) output' jumps next in
    let label = λ (size : ℕ).
      require (bit_and size 0xc0 == 0 && leb size 63 && leb size (length packet - (cursor + 1)))
      >> (if size == 0 then ok (output, after_name next (cursor + 1)) else more size) in
    if ltb cursor (length packet)
    then (byte_at packet cursor >>= λ size. if is_pointer size then follow size else label size)
    else refused

unfoldable pub read_name : Bytes → ℕ → Reads (Bytes × ℕ)
read_name packet offset =
    if ltb offset (length packet)
    then name_loop (name_fuel (length packet)) packet offset [] 0 none
    else refused

fits_name :
    (dotted label : Bytes) (size : ℕ)
    → length label ≤ size
    → length dotted ≤ name_max
    → leb size (name_max - length dotted) ≡ true
    → length (dotted ++ label) ≤ name_max
fits_name dotted label size l d e =
    omega (arith, length-append dotted label, leb→le size (name_max - length dotted) e)

length-dotted :
    (output : Bytes)
    → not (ltb 0 (length output)) || ltb (length output) name_max ≡ true
    → length (if ltb 0 (length output) then output ++ (b'.' ∷ []) else output) ≤ name_max
length-dotted output h = ground (arith, length-append output (b'.' ∷ []))

mul_step : (k s : ℕ) → suc k * (s + 1) ≡ k * (s + 1) + (s + 1)
mul_step k s = grind arith

pred_step : (k s : ℕ) → (suc k - 1) * (s + 1) ≡ k * (s + 1)
pred_step k s = ap (λ (n : ℕ). n * (s + 1)) (omega arith)

-- A jump spends a round of the packet.
jump_fuel :
    (k s c p fuel : ℕ)
    → 1 ≤ k
    → k * (s + 1) + (s - c) + 1 ≤ suc fuel
    → (k - 1) * (s + 1) + (s - p) + 1 ≤ fuel
jump_fuel zero s c p fuel h e = absurd (omega arith)
jump_fuel (suc k) s c p fuel h e = omega (arith, mul_step k s, pred_step k s)

-- A label fits in what is left of the name.
add_label-Ensures :
    (packet : Bytes) (cursor size : ℕ) (output : Bytes)
    → cursor + size ≤ length packet
    → Ensures (λ o. length o ≤ name_max) (add_label packet cursor size output)
unfolding add_label
add_label-Ensures packet cursor size output h =
    Ensures-require (not (ltb 0 (length output)) || ltb (length output) name_max) λ short.
      let dotted = if ltb 0 (length output) then output ++ (b'.' ∷ []) else output in
      Ensures-require (leb size (name_max - length dotted)) λ fits.
        Ensures-bind (slice-Ensures packet cursor size h) λ label e. holds (
          rw e (
            fits_name dotted (take size (drop cursor packet)) size
              (length-take-le size (drop cursor packet)) (length-dotted output short) fits))

pointer_at-Ensures :
    (packet : Bytes) (cursor size jumps : ℕ)
    → Ensures
        (λ p. (p < cursor) × (cursor + 1 < length packet) × (jumps < max_jumps))
        (pointer_at packet cursor size jumps)
unfolding pointer_at
pointer_at-Ensures packet cursor size jumps =
    Ensures-require (ltb (cursor + 1) (length packet) && leb (jumps + 1) max_jumps) λ near.
      Ensures-bind (byte_at-Ensures packet (cursor + 1) (ground arith)) λ low _.
        let pointer = bit_and size 0x3f * 256 + low in
        Ensures-require (ltb pointer (length packet) && ltb pointer cursor)
          λ back. holds (ground arith, ground arith, ground arith)

-- What a name is, and where the packet goes on.
abbrev pub IsRead : Bytes → Bytes × ℕ → Type 0
IsRead packet r = (length r.0 ≤ name_max) × (r.1 ≤ length packet)

after_name-le :
    (next : Option ℕ) (size cursor : ℕ)
    → after_name next 0 ≤ size
    → cursor ≤ size
    → after_name next cursor ≤ size
after_name-le next size cursor n h = ground arith

name_loop-Ensures :
    (fuel k : ℕ) (packet : Bytes) (cursor : ℕ) (output : Bytes) (jumps : ℕ) (next : Option ℕ)
    → k + jumps ≡ max_jumps
    → k * (length packet + 1) + (length packet - cursor) + 1 ≤ fuel
    → length output ≤ name_max
    → after_name next 0 ≤ length packet
    → Ensures (IsRead packet) (name_loop fuel packet cursor output jumps next)
unfolding name_loop
name_loop-Ensures zero k packet cursor output jumps next kj f o n = absurd (omega arith)
name_loop-Ensures (suc fuel) k packet cursor output jumps next kj f o n =
    Ensures-if (ltb cursor (length packet))
      (λ inside. Ensures-bind (byte_at-Ensures packet cursor (ground arith)) λ size _.
        Ensures-if (is_pointer size)
          (λ _.
            Ensures-bind (pointer_at-Ensures packet cursor size jumps)
              λ pointer (back, near, again).
                name_loop-Ensures fuel (k - 1) packet pointer output (jumps + 1)
                  (some (after_name next (cursor + 2))) (omega arith)
                  (jump_fuel k (length packet) cursor pointer fuel (omega arith) f) o
                  (after_name-le next (length packet) (cursor + 2) n (omega arith)))
          (λ _.
            Ensures-require
              (bit_and size 0xc0 == 0 && leb size 63 && leb size (length packet - (cursor + 1)))
              λ fits.
                Ensures-if (size == 0)
                  (λ _. holds (o, after_name-le next (length packet) (cursor + 1) n (ground arith)))
                  (λ _.
                    Ensures-bind (add_label-Ensures packet (cursor + 1) size output (ground arith))
                      λ output' o'.
                        name_loop-Ensures fuel k packet (cursor + 1 + size) output' jumps next kj
                          (ground arith) o' n)))
      (λ _. declined)

-- `read_name` ends and reads no byte beyond the packet; a name that it gives has 255 bytes at most,
-- and the offset after it is within the packet.
pub read_name-Ensures :
    (packet : Bytes) (offset : ℕ) → Ensures (IsRead packet) (read_name packet offset)
unfolding read_name
read_name-Ensures packet offset =
    Ensures-if (ltb offset (length packet))
      (λ _.
        name_loop-Ensures (name_fuel (length packet)) max_jumps packet offset [] 0 none refl
          (omega arith) (omega arith) (omega arith))
      (λ _. declined)
