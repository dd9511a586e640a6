-- ===== src/Airplay/Dns/Reads.antt =====
-- source/protocol/airplay/discovery/dns.c: reads of a received packet. A read beyond the packet's bytes
-- would be undefined in C: here it is a `fault`, as is a loop that runs out of fuel.
use mathlib.Core.Path.{subst}
use nx_cast.Base.{
  ℕ, zero, suc, ◌+◌, ◌*◌, ◌≤◌, ◌<◌, ◌≡◌, ◌≢◌, refl, Bool, true, false, some, none, List, [], ◌∷◌,
  arith, if◌then◌else◌, leb, length, get_elem?, take, drop,
}
use nx_cast.Base.Text.{Bytes}

-- `refused` is a return of false.
pub data Reads {ℓ} (A : Type ℓ) : Type ℓ where
  ok : A → Reads A
  refused fault : Reads A

infixl 5 ◌>>=◌ ◌>>◌
abbrev pub ◌>>=◌ {ℓ κ} : {A : Type ℓ} {B : Type κ} → Reads A → (A → Reads B) → Reads B
ok a >>= f = f a
refused >>= f = refused
fault >>= f = fault

abbrev pub ◌>>◌ {ℓ} : {B : Type ℓ} → Reads (Unit {0}) → Reads B → Reads B
m >> k = m >>= λ _. k

-- A guard of the code that returns false where the test fails.
abbrev pub require : Bool → Reads (Unit {0})
require true = ok tt
require false = refused

-- `packet[i]`
unfoldable pub byte_at : Bytes → ℕ → Reads ℕ
byte_at packet i = elim (get_elem? packet i) [ none ↦ fault | some b ↦ ok b ]

-- The `size` bytes from `packet + i`, for `memcpy` and `memcmp`.
unfoldable pub slice : Bytes → ℕ → ℕ → Reads Bytes
slice packet i size =
    if leb (i + size) (length packet) then ok (take size (drop i packet)) else fault

-- `(uint16_t)(((uint16_t)data[0] << 8) | data[1])`: the bytes do not overlap.
unfoldable pub read_u16 : Bytes → ℕ → Reads ℕ
read_u16 packet i = do high ← byte_at packet i; low ← byte_at packet (i + 1); ok (256 * high + low)

-- The code made no fault, and `P` holds of its value if it has one.
pub data Ensures {ℓ κ} {A : Type ℓ} (P : A → Type κ) : Reads A → Type (ℓ ⊔ κ) where
  holds : {a : A} → P a → Ensures P (ok a)
  declined : Ensures P refused

module _ {ℓ κ} {A : Type ℓ} {P : A → Type κ} where
  pub Ensures-ok : {r : Reads A} {a : A} → Ensures P r → r ≡ ok a → P a
  Ensures-ok (holds h) e = subst P (cc) h
  Ensures-ok declined e = cc

  pub Ensures-fault : {r : Reads A} → Ensures P r → r ≢ fault
  Ensures-fault (holds h) = cc
  Ensures-fault declined = cc

  pub Ensures-if :
      (b : Bool) {x y : Reads A}
      → (b ≡ true → Ensures P x)
      → (b ≡ false → Ensures P y)
      → Ensures P (if b then x else y)
  Ensures-if true hx hy = hx refl
  Ensures-if false hx hy = hy refl

  pub Ensures-bind {ℓ' κ'} :
      {B : Type ℓ'} {Q : B → Type κ'} {r : Reads A} {f : A → Reads B}
      → Ensures P r
      → ((a : A) → P a → Ensures Q (f a))
      → Ensures Q (r >>= f)
  Ensures-bind (holds {a} h) k = k a h
  Ensures-bind declined k = declined

  pub Ensures-require :
      (b : Bool) {r : Reads A} → (b ≡ true → Ensures P r) → Ensures P (require b >> r)
  Ensures-require true h = h refl
  Ensures-require false h = declined

get_elem?-some {ℓ} :
    {A : Type ℓ} (xs : List A) (i : ℕ) → i < length xs → (x : A) × (get_elem? xs i ≡ some x)
get_elem?-some [] i h = absurd (omega arith)
get_elem?-some (x ∷ xs) zero h = (x, refl)
get_elem?-some (x ∷ xs) (suc i) h = get_elem?-some xs i (omega arith)

pub byte_at-Ensures :
    (packet : Bytes) (i : ℕ) → i < length packet → Ensures (λ b. Unit {0}) (byte_at packet i)
unfolding byte_at
byte_at-Ensures packet i h = let (b, e) = get_elem?-some packet i h in rw (e, byte_at) (holds tt)

pub slice-Ensures :
    (packet : Bytes) (i size : ℕ)
    → i + size ≤ length packet
    → Ensures (λ bs. bs ≡ take size (drop i packet)) (slice packet i size)
unfolding slice
slice-Ensures packet i size h =
    Ensures-if (leb (i + size) (length packet)) (λ _. holds refl) (λ e. absurd (ground arith))

pub read_u16-Ensures :
    (packet : Bytes) (i : ℕ) → i + 2 ≤ length packet → Ensures (λ v. Unit {0}) (read_u16 packet i)
unfolding read_u16
read_u16-Ensures packet i h =
    Ensures-bind (byte_at-Ensures packet i (omega arith))
      λ high _. Ensures-bind (byte_at-Ensures packet (i + 1) (omega arith)) λ low _. holds tt
