-- ===== src/Base/Slots.antt =====
-- Arrays of entries that are searched from the front, as the fixed tables of the program are, and
-- sums over them.
use Prim.Native.Nat.{ℕ, zero, suc, ◌+◌, ◌≤◌}
use mathlib.Core.Path.{◌≡◌, refl, subst}
use mathlib.Core.Logic.{inl, inr}
use mathlib.Core.Bool.{Bool, true, false}
use mathlib.Core.Option.{Option, none, some}
use mathlib.Core.List.{List, [], ◌∷◌}
use native.Mathlib.Omega.{arith}
use nx_cast.Base.Tests.{if◌then◌else◌, Bool-cases, Option-cases}
use nx_cast.Base.Lists.{length, get_elem?, set}

abbrev pub one_if : Bool → ℕ
one_if true = 1
one_if false = 0

module _ {ℓ} {A : Type ℓ} where
  abbrev next_slot : Option (ℕ × A) → Option (ℕ × A)
  next_slot none = none
  next_slot (some (i, x)) = some (suc i, x)

  -- The first entry that passes the test: its index and what it holds.
  unfoldable pub find_slot : (A → Bool) → List A → Option (ℕ × A)
  find_slot p [] = none
  find_slot p (x ∷ xs) = if p x then some (0, x) else next_slot (find_slot p xs)

  pub find_slot-some :
      (p : A → Bool) (xs : List A) {i : ℕ} {x : A}
      → find_slot p xs ≡ some (i, x)
      → (get_elem? xs i ≡ some x) × (p x ≡ true)
  unfolding find_slot
  find_slot-some p [] h = ground arith
  find_slot-some p (y ∷ xs) {i} {x} h = elim (Option-cases (find_slot p xs)) [
    | inl e ↦ ground arith
    | inr ((j, z), e) ↦ ground (arith, find_slot-some p xs e)
  ]

  -- The sum of a weight over the entries.
  unfoldable pub weigh : (A → ℕ) → List A → ℕ
  weigh w [] = 0
  weigh w (x ∷ xs) = w x + weigh w xs

  pub weigh-set :
      (w : A → ℕ) (xs : List A) (i : ℕ) (new : A) {old : A}
      → get_elem? xs i ≡ some old
      → weigh w (set xs i new) + w old ≡ weigh w xs + w new
  unfolding weigh
  weigh-set w [] i new h = ground arith
  weigh-set w (x ∷ xs) zero new h = ground arith
  weigh-set w (x ∷ xs) (suc i) new {old} h = omega (arith, weigh-set w xs i new h)

  pub weigh_le :
      (w : A → ℕ) (xs : List A) (i : ℕ) {x : A} → get_elem? xs i ≡ some x → w x ≤ weigh w xs
  unfolding weigh
  weigh_le w [] i h = ground arith
  weigh_le w (y ∷ xs) zero h = ground arith
  weigh_le w (y ∷ xs) (suc i) h = omega (arith, weigh_le w xs i h)

  -- A bound on each entry bounds the sum.
  pub weigh_bound : (w : A → ℕ) → ((x : A) → w x ≤ 1) → (xs : List A) → weigh w xs ≤ length xs
  unfolding weigh
  weigh_bound w b [] = omega arith
  weigh_bound w b (x ∷ xs) = omega (arith, b x, weigh_bound w b xs)

  -- Two weights that stay below a third on each entry do so in the sum.
  pub weigh_add_le :
      (u v w : A → ℕ) (xs : List A)
      → ((x : A) → u x + v x ≤ w x)
      → weigh u xs + weigh v xs ≤ weigh w xs
  unfolding weigh
  weigh_add_le u v w [] h = omega arith
  weigh_add_le u v w (x ∷ xs) h = omega (arith, h x, weigh_add_le u v w xs h)

  -- What the search misses weighs nothing, if an entry that fails the test does.
  pub weigh_of_none :
      (p : A → Bool) (w : A → ℕ) (xs : List A)
      → ((x : A) → p x ≡ false → w x ≡ 0)
      → find_slot p xs ≡ none
      → weigh w xs ≡ 0
  unfolding weigh find_slot
  weigh_of_none p w [] z h = refl
  weigh_of_none p w (x ∷ xs) z h =
      ground (arith, z x, weigh_of_none p w xs z, Option-cases (find_slot p xs))

  -- The first entry stays the first if what replaces it passes too.
  pub find_slot-set :
      (p : A → Bool) (xs : List A) {i : ℕ} {x : A} (y : A)
      → find_slot p xs ≡ some (i, x)
      → p y ≡ true
      → find_slot p (set xs i y) ≡ some (i, y)
  unfolding find_slot
  find_slot-set p [] y h t = absurd (ground arith)
  find_slot-set p (z ∷ xs) {i} {x} y h t = elim (Bool-cases (p z)) [
    | inl e ↦ let first : i ≡ 0 = ground arith in rw first (rw t)
    | inr e ↦ elim (Option-cases (find_slot p xs)) [
      | inl f ↦ absurd (ground arith)
      | inr ((j, u), f) ↦
          let later : i ≡ suc j = ground arith in rw later (rw e (rw (find_slot-set p xs y f t)))
    ]
  ]

  -- Where no entry that passes weighs anything, none is found.
  pub find_slot-none :
      (p : A → Bool) (xs : List A) → weigh (λ x. one_if (p x)) xs ≡ 0 → find_slot p xs ≡ none
  unfolding weigh find_slot
  find_slot-none p [] h = refl
  find_slot-none p (x ∷ xs) h = ground (arith, find_slot-none p xs)

  weigh_zero :
      (v w : A → ℕ) (xs : List A) → ((y : A) → v y ≡ 0 → w y ≡ 0) → weigh v xs ≡ 0 → weigh w xs ≡ 0
  unfolding weigh
  weigh_zero v w [] z h = refl
  weigh_zero v w (x ∷ xs) z h = omega (arith, z x, weigh_zero v w xs z)

  -- Where at most one entry counts, the sum of what only counted entries have is that entry's.
  pub weigh_single :
      (v w : A → ℕ) (xs : List A) (i : ℕ) {x : A}
      → ((y : A) → v y ≡ 0 → w y ≡ 0)
      → weigh v xs ≤ 1
      → get_elem? xs i ≡ some x
      → v x ≡ 1
      → weigh w xs ≡ w x
  unfolding weigh
  weigh_single v w [] i z b h e = ground arith
  weigh_single v w (y ∷ xs) zero z b h e = ground (arith, weigh_zero v w xs z)
  weigh_single v w (y ∷ xs) (suc i) z b h e =
      omega (arith, weigh_le v xs i h, z y, weigh_single v w xs i z (omega arith) h e)

  abbrev pub All {κ} : (A → Type κ) → List A → Type κ
  All P [] = Unit
  All P (x ∷ xs) = P x × All P xs

  pub All-set {κ} :
      (P : A → Type κ) (xs : List A) (i : ℕ) {new : A} → All P xs → P new → All P (set xs i new)
  All-set P [] i a n = a
  All-set P (x ∷ xs) zero a n = (n, a.1)
  All-set P (x ∷ xs) (suc i) a n = (a.0, All-set P xs i a.1 n)

  pub All-get {κ} :
      (P : A → Type κ) (xs : List A) (i : ℕ) {x : A} → All P xs → get_elem? xs i ≡ some x → P x
  All-get P [] i a h = absurd (ground arith)
  All-get P (y ∷ xs) zero a h = subst P (ground arith) a.0
  All-get P (y ∷ xs) (suc i) a h = All-get P xs i a.1 h
