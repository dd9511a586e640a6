-- ===== src/Player/MediaActor/Window.antt =====
-- The ring of source/player/core/media_actor.c as the list of the entries between its ends.
use mathlib.Core.Path.{ap₂}
use native.Mathlib.Nat.{mod-lt, add-zero, mod-add-mod, mod-eq-sub-mod, mod-eq_of_lt}
use native.Mathlib.Decide.{dec_lt}
use nx_cast.Base.{
  ℕ, zero, suc, ◌+◌, ◌-◌, ◌%◌, ◌≤◌, ◌<◌, ◌≡◌, ◌≢◌, refl, sym, ◌⊎◌, inl, inr, ap, ◌∙◌, arith, Option,
  some, List, [], ◌∷◌, ◌++◌, length, get_elem?, get_elem?-set_ne, get_elem?-set_self, set,
}
use nx_cast.Player.MediaActor.Ring.{slot}

module _ {ℓ} {A : Type ℓ} where
  -- The `n` entries from index `h` on, going round at `cap`.
  abbrev pub window : List (Option A) → ℕ → ℕ → ℕ → List (Option A)
  window slots cap h zero = []
  window slots cap h (suc n) = slot (get_elem? slots h) ∷ window slots cap ((h + 1) % cap) n

-- A step round the ring and `n` more.
pub next_index : (cap h n : ℕ) → h < cap → (h + suc n) % cap ≡ ((h + 1) % cap + n) % cap
next_index cap h n p = rw mod-add-mod (ap (λ (k : ℕ). k % cap) (omega arith))

-- An index past the head, within one turn.
index_cases :
    (cap h k : ℕ)
    → h < cap
    → k < cap
    → ((h + k < cap) × ((h + k) % cap ≡ h + k)) ⊎ ((cap ≤ h + k) × ((h + k) % cap + cap ≡ h + k))
index_cases cap h k p q = elim (dec_lt (h + k) cap) [
  | yes lt ↦ inl (lt, mod-eq_of_lt lt)
  | no ge ↦ inr (
    omega arith,
    omega (
      arith,
      mod-eq-sub-mod {n = h + k} {m = cap} (omega arith),
      mod-eq_of_lt {n = h + k - cap} {m = cap} (omega arith),
    ),
  )
]

-- Indices less than a turn apart are not the same.
pub index_ne : (cap h j n : ℕ) → h < cap → n < cap → j < n → (h + j) % cap ≢ (h + n) % cap
index_ne cap h j n p q lt =
    ground (arith, index_cases cap h j p (omega arith), index_cases cap h n p q)

module _ {ℓ} {A : Type ℓ} where
  -- A write to an index that the window does not reach.
  pub window-set_ne :
      (slots : List (Option A)) (cap i : ℕ) (v : Option A) (n h : ℕ)
      → h < cap
      → ((j : ℕ) → j < n → (h + j) % cap ≢ i)
      → window (set slots i v) cap h n ≡ window slots cap h n
  window-set_ne slots cap i v zero h p ne = refl
  window-set_ne slots cap i v (suc n) h p ne = λ k.
      slot (
        get_elem?-set_ne slots v (λ e. ne 0 (omega arith) (rw (add-zero, mod-eq_of_lt p) (sym e)))
          k)
      ∷ window-set_ne slots cap i v n ((h + 1) % cap) (omega arith)
          (λ j q e. ne (suc j) (omega arith) (next_index cap h j p ∙ e)) k

  -- The last entry of a window.
  pub window_snoc :
      (slots : List (Option A)) (cap n h : ℕ)
      → h < cap
      → window slots cap h (suc n)
        ≡ window slots cap h n ++ (slot (get_elem? slots ((h + n) % cap)) ∷ [])
  window_snoc slots cap zero h p = rw (add-zero, mod-eq_of_lt p)
  window_snoc slots cap (suc n) h p =
      ap (◌∷◌ (slot (get_elem? slots h)))
        (rw (next_index cap h n p) (window_snoc slots cap n ((h + 1) % cap) (omega arith)))

  -- Writing just past a window extends it.
  pub window-set :
      (slots : List (Option A)) (cap n h : ℕ) (x : A)
      → length slots ≡ cap
      → h < cap
      → n < cap
      → window (set slots ((h + n) % cap) (some x)) cap h (suc n)
        ≡ window slots cap h n ++ (some x ∷ [])
  window-set slots cap n h x size p q =
      window_snoc (set slots ((h + n) % cap) (some x)) cap n h p
      ∙ ap₂ (λ (xs : List (Option A)) (y : Option A). xs ++ (y ∷ []))
          (window-set_ne slots cap ((h + n) % cap) (some x) n h p
            (λ j lt. index_ne cap h j n p q lt))
          (ap slot (
            get_elem?-set_self slots ((h + n) % cap) (some x)
              (omega (arith, mod-lt (h + n) {m = cap} (omega arith)))))
