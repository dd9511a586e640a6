-- ===== src/Airplay/Dns/Writer.antt =====
-- source/protocol/airplay/discovery/dns.c: the bounded writer. `written` is what stands before
-- the writer's offset; each operation fails, and changes nothing further, where the bytes do not fit.
use nx_cast.Base.{
  ℕ, ◌+◌, ◌-◌, ◌/◌, ◌%◌, ◌≡◌, refl, ◌&&◌, ◌||◌, Option, some, none, [], ◌∷◌, ◌++◌, if◌then◌else◌,
  leb, ltb, ◌==◌, length, set,
}
use Prim.Native.Nat.{bit_or}
use nx_cast.Base.Text.{Bytes}

abbrev pub name_max : ℕ
name_max = 255

abbrev pub packet_max : ℕ
packet_max = 1500

pub record Writer : Type 0 where
  pub capacity : ℕ
  pub written : Bytes

infixl 5 ◌>>=◌
abbrev pub ◌>>=◌ {ℓ κ} : {A : Type ℓ} {B : Type κ} → Option A → (A → Option B) → Option B
none >>= f = none
some a >>= f = f a

-- The steps of a chain that succeeded.
pub >>=-eq-some {ℓ κ} :
    {A : Type ℓ} {B : Type κ} (m : Option A) (f : A → Option B) {b : B}
    → (m >>= f) ≡ some b
    → (a : A) × (m ≡ some a) × (f a ≡ some b)
>>=-eq-some none f h = cc
>>=-eq-some (some a) f h = (a, refl, h)

unfoldable pub write_bytes : Writer → Bytes → Option Writer
write_bytes w bytes =
    if ltb w.capacity (length w.written) || ltb (w.capacity - length w.written) (length bytes)
    then none
    else some (record w { written = w.written ++ bytes })

unfoldable pub write_u8 : Writer → ℕ → Option Writer
write_u8 w value = write_bytes w ((value % 256) ∷ [])

-- `(uint8_t)(value >> 8), (uint8_t)value`
abbrev pub be16 : ℕ → Bytes
be16 value = (value / 256 % 256) ∷ (value % 256) ∷ []

unfoldable pub write_u16 : Writer → ℕ → Option Writer
write_u16 w value = write_bytes w (be16 value)

unfoldable pub write_u32 : Writer → ℕ → Option Writer
write_u32 w value =
    write_bytes w
      ((value / 16777216 % 256) ∷ (value / 65536 % 256) ∷ (value / 256 % 256) ∷ (value % 256) ∷ [])

unfoldable pub patch_u16 : Writer → ℕ → ℕ → Option Writer
patch_u16 w offset value =
    if ltb w.capacity offset
      || ltb (length w.written) offset
      || ltb (w.capacity - offset) 2
      || ltb (length w.written - offset) 2
    then none
    else some (record w {
      written = set (set w.written offset (value / 256 % 256)) (offset + 1) (value % 256);
    })

unfoldable pub write_label : Writer → Bytes → Option Writer
write_label w label =
    if ltb 0 (length label) && leb (length label) 63
    then (do w' ← write_u8 w (length label); write_bytes w' label)
    else none

-- The end of a label in the loop of `write_name`: `total` counts it already.
unfoldable pub end_label : Writer → Bytes → ℕ → Option Writer
end_label w label total = do w' ← write_label w label; if ltb name_max total then none else some w'

-- The loop of `write_name`: `label` is what the cursor has passed of the label, and the end of the list
-- is the NUL.
unfoldable pub write_labels : Writer → Bytes → Bytes → ℕ → Option Writer
write_labels w label [] total = end_label w label (total + length label + 1) >>= λ w'. write_u8 w' 0
write_labels w label (c ∷ name) total =
    let ended = end_label w label (total + length label + 1) >>= λ w'.
    write_labels w' [] name (total + length label + 1) in
    let longer = write_labels w (label ++ (c ∷ [])) name total in
    if c == b'.' then ended else longer

unfoldable pub write_name : Writer → Bytes → Option Writer
write_name w [] = none
write_name w (c ∷ name) = write_labels w [] (c ∷ name) 1

-- `DNS_POINTER_VALUE | offset`, whose bits do not overlap below `DNS_POINTER_MASK` = 0xc000 only where
-- the offset is below 0x4000, as a packet's are.
unfoldable pub write_pointer : Writer → ℕ → Option Writer
write_pointer w offset = if ltb offset 0xc000 then write_u16 w (bit_or 0xc000 offset) else none
