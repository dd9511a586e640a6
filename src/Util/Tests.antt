-- ===== src/Util/Tests.antt =====
-- The arithmetic on sizes at concrete inputs.
use nx_cast.Base.{ℕ, ◌≡◌, ◌⊎◌, refl, arith, true, false, some, none, ◌+◌, ◌≤◌, ◌<◌, u64_mod}
use nx_cast.Util.Size.{size_add, size_grow, grow_loop, grown, size_grow-some, size_add-exact}

-- From 48 bytes to at least 100, by doubling, with a limit of 150.
size_grow-some_example :
    (r : ℕ) × (size_grow true 48 100 64 150 ≡ some r) × (100 ≤ r) × (48 ≤ r) × (r ≤ 150)
size_grow-some_example =
    size_grow-some 48 100 64 150 (omega arith) (omega arith) (omega arith) (omega arith)
      (omega arith)

doubles_to_the_limit : size_grow true 2 5 4 6 ≡ some 6
unfolding size_grow grow_loop grown
doubles_to_the_limit = refl

size_add-exact_example :
    ((size_add true 18446744073709551615 1 ≡ some (18446744073709551615 + 1))
      × (18446744073709551615 + 1 < u64_mod))
    ⊎ ((size_add true 18446744073709551615 1 ≡ none)
        × ((true ≡ false) ⊎ (u64_mod ≤ 18446744073709551615 + 1)))
size_add-exact_example = size_add-exact true 18446744073709551615 1 (omega arith) (omega arith)
