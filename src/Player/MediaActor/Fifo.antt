-- ===== src/Player/MediaActor/Fifo.antt =====
-- source/player/core/media_actor.c: the queue as the list of the waiting requests, oldest first.
use native.Mathlib.Nat.{add-zero, mod-eq_of_lt}
use nx_cast.Base.{
  ℕ, zero, suc, ◌+◌, ◌%◌, ◌<◌, ◌≡◌, refl, sym, ap, ◌∙◌, arith, false, Option, some, none, List, [],
  ◌∷◌, ◌++◌, length, get_elem?, set, map, ◌==◌, length-append,
}
use nx_cast.Player.MediaActor.Ring.{
  on_entry, ring_map, slot, ring_push, ring_pop, ring_last, ring_set_last, tail_index,
}
use nx_cast.Player.MediaActor.Window.{
  window, window-set, window-set_ne, window_snoc, index_ne, next_index,
}
use nx_cast.Player.MediaActor.Commands.{
  Request, Actor, queue_push_locked, queue_pop_locked, pop_first,
}
use nx_cast.Player.MediaActor.Queue.{IsValid}

length-window {ℓ} :
    {A : Type ℓ} (slots : List (Option A)) (cap h n : ℕ) → length (window slots cap h n) ≡ n
length-window slots cap h zero = refl
length-window slots cap h (suc n) = ap suc (length-window slots cap ((h + 1) % cap) n)

pub length-map {ℓ κ} :
    {A : Type ℓ} {B : Type κ} (f : A → B) (xs : List A) → length (map f xs) ≡ length xs
length-map f [] = refl
length-map f (x ∷ xs) = ap suc (length-map f xs)

-- The queue holds the list: no entry of its window is NULL.
abbrev pub Holds : Actor → List Request → Type 0
Holds a xs = window a.queue.slots a.config.capacity a.queue.head a.queue.count ≡ map some xs

pub Holds-count : (a : Actor) (xs : List Request) → Holds a xs → a.queue.count ≡ length xs
Holds-count a xs h =
    sym (length-window a.queue.slots a.config.capacity a.queue.head a.queue.count)
    ∙ ap length h
    ∙ length-map some xs

map-snoc {ℓ κ} :
    {A : Type ℓ} {B : Type κ} (f : A → B) (xs : List A) (x : A)
    → map f xs ++ (f x ∷ []) ≡ map f (xs ++ (x ∷ []))
map-snoc f [] x = refl
map-snoc f (y ∷ xs) x = ap (◌∷◌ (f y)) (map-snoc f xs x)

one_more : (n : ℕ) → n + 1 ≡ suc n
one_more n = omega arith

pub push-Holds :
    (a : Actor) (r : Request) (xs : List Request)
    → IsValid a
    → a.queue.count < a.config.capacity
    → Holds a xs
    → Holds (queue_push_locked a r) (xs ++ (r ∷ []))
unfolding queue_push_locked ring_push
push-Holds a r xs v room h =
    rw (one_more a.queue.count) (
      window-set a.queue.slots a.config.capacity a.queue.count a.queue.head r v.size v.head_fits
        room)
    ∙ ap (λ (w : List (Option Request)). w ++ (some r ∷ [])) h
    ∙ map-snoc some xs r

-- The slot that `pop` clears is not among those that stay.
cleared-window :
    (slots : List (Option Request)) (c h n : ℕ)
    → h < c
    → n < c
    → window (set slots h none) c ((h + 1) % c) n ≡ window slots c ((h + 1) % c) n
cleared-window slots c h n p q =
    window-set_ne slots c h none n ((h + 1) % c) (omega arith) (λ j lt e.
      index_ne c h 0 (suc j) p (omega arith) (omega arith)
        (rw (add-zero, mod-eq_of_lt p) (sym e ∙ sym (next_index c h j p))))

cons_inj {ℓ} : {A : Type ℓ} {x y : A} {xs ys : List A} → x ∷ xs ≡ y ∷ ys → (x ≡ y) × (xs ≡ ys)
cons_inj h = (cc, cc)

pop_first-Holds :
    (a : Actor) (x : Request) (xs : List Request) (n : ℕ)
    → IsValid a
    → a.queue.count ≡ suc n
    → Holds a (x ∷ xs)
    → ((pop_first a).0 ≡ some x) × Holds (pop_first a).1 xs
unfolding pop_first ring_pop
pop_first-Holds a x xs n v e h =
    let whole = cons_inj (ap (window a.queue.slots a.config.capacity a.queue.head) (sym e) ∙ h) in
    (
      whole.0,
      ap
            (window (set a.queue.slots a.queue.head none) a.config.capacity
              ((a.queue.head + 1) % a.config.capacity))
            (omega arith)
          ∙ cleared-window a.queue.slots a.config.capacity a.queue.head n v.head_fits
              (omega (arith, v.count_fits))
          ∙ whole.1,
    )

not_empty :
    (a : Actor) (x : Request) (xs : List Request) → Holds a (x ∷ xs) → (a.queue.count == 0) ≡ false
not_empty a x xs h = ground (arith, Holds-count a (x ∷ xs) h)

pub pop-Holds :
    (a : Actor) (x : Request) (xs : List Request)
    → IsValid a
    → Holds a (x ∷ xs)
    → ((queue_pop_locked a).0 ≡ some x) × Holds (queue_pop_locked a).1 xs
unfolding queue_pop_locked
pop-Holds a x xs v h =
    rw (not_empty a x xs h) (pop_first-Holds a x xs (length xs) v (Holds-count a (x ∷ xs) h) h)

pub pop-Holds_empty : (a : Actor) → Holds a [] → queue_pop_locked a ≡ (none, a)
unfolding queue_pop_locked
pop-Holds_empty a h = ground (arith, Holds-count a [] h)

-- The last entry of the list is the one at the tail of the ring.
snoc-split :
    (a : Actor) (xs : List Request) (q : Request)
    → Holds a (xs ++ (q ∷ []))
    → a.queue.count ≡ suc (length xs)
snoc-split a xs q h = omega (arith, Holds-count a (xs ++ (q ∷ [])) h, length-append xs (q ∷ []))

snoc_inj {ℓ} :
    {A : Type ℓ} (xs ys : List A) {x y : A} → xs ++ (x ∷ []) ≡ ys ++ (y ∷ []) → (xs ≡ ys) × (x ≡ y)
snoc_inj [] [] h = (refl, cc)
snoc_inj [] (z ∷ []) h = absurd (ground arith)
snoc_inj [] (z ∷ w ∷ ys) h = absurd (ground arith)
snoc_inj (z ∷ []) [] h = absurd (ground arith)
snoc_inj (z ∷ w ∷ xs) [] h = absurd (ground arith)
snoc_inj (z ∷ xs) (w ∷ ys) h =
    let ih = snoc_inj xs ys (cons_inj h).1 in (λ k. (cons_inj h).0 k ∷ ih.0 k, ih.1)

tail_entry :
    (a : Actor) (xs : List Request) (q : Request)
    → IsValid a
    → Holds a (xs ++ (q ∷ []))
    → (window a.queue.slots a.config.capacity a.queue.head (length xs) ≡ map some xs)
      × (slot (get_elem? a.queue.slots ((a.queue.head + length xs) % a.config.capacity)) ≡ some q)
tail_entry a xs q v h =
    snoc_inj (window a.queue.slots a.config.capacity a.queue.head (length xs)) (map some xs) (
      sym (window_snoc a.queue.slots a.config.capacity (length xs) a.queue.head v.head_fits)
      ∙ ap (window a.queue.slots a.config.capacity a.queue.head) (sym (snoc-split a xs q h))
      ∙ h
      ∙ sym (map-snoc some xs q))

tail_index-count :
    (a : Actor) (xs : List Request) (q : Request)
    → Holds a (xs ++ (q ∷ []))
    → tail_index a.config.capacity a.queue ≡ (a.queue.head + length xs) % a.config.capacity
tail_index-count a xs q h =
    ap (λ (k : ℕ). k % a.config.capacity) (omega (arith, snoc-split a xs q h))

pub last-Holds :
    (a : Actor) (xs : List Request) (q : Request)
    → IsValid a
    → Holds a (xs ++ (q ∷ []))
    → ring_last a.config.capacity a.queue ≡ some q
unfolding ring_last
last-Holds a xs q v h = rw (tail_index-count a xs q h) (tail_entry a xs q v h).1

pub set_last-Holds :
    (a : Actor) (xs : List Request) (q r : Request)
    → IsValid a
    → Holds a (xs ++ (q ∷ []))
    → Holds (record a { queue = ring_set_last a.config.capacity a.queue r }) (xs ++ (r ∷ []))
unfolding ring_set_last
set_last-Holds a xs q r v h = rw (tail_index-count a xs q h) (
    ap
      (window (set a.queue.slots ((a.queue.head + length xs) % a.config.capacity) (some r))
        a.config.capacity a.queue.head)
      (snoc-split a xs q h)
    ∙ window-set a.queue.slots a.config.capacity (length xs) a.queue.head r v.size v.head_fits
        (omega (arith, snoc-split a xs q h, v.count_fits))
    ∙ ap (λ (w : List (Option Request)). w ++ (some r ∷ [])) (tail_entry a xs q v h).0
    ∙ map-snoc some xs r)

slot-map {ℓ} :
    {A : Type ℓ} (f : A → A) (slots : List (Option A)) (i : ℕ)
    → slot (get_elem? (map (on_entry f) slots) i) ≡ on_entry f (slot (get_elem? slots i))
unfolding on_entry
slot-map f [] i = refl
slot-map f (x ∷ xs) zero = refl
slot-map f (x ∷ xs) (suc i) = slot-map f xs i

window-map {ℓ} :
    {A : Type ℓ} (f : A → A) (slots : List (Option A)) (cap h n : ℕ)
    → window (map (on_entry f) slots) cap h n ≡ map (on_entry f) (window slots cap h n)
window-map f slots cap h zero = refl
window-map f slots cap h (suc n) =
    λ k. slot-map f slots h k ∷ window-map f slots cap ((h + 1) % cap) n k

map-on_entry {ℓ} :
    {A : Type ℓ} (f : A → A) (xs : List A) → map (on_entry f) (map some xs) ≡ map some (map f xs)
unfolding on_entry
map-on_entry f [] = refl
map-on_entry f (x ∷ xs) = ap (◌∷◌ (some (f x))) (map-on_entry f xs)

-- A write to the queued requests is one to the list.
pub map-Holds :
    (a : Actor) (f : Request → Request) (xs : List Request)
    → Holds a xs
    → Holds (record a { queue = ring_map f a.queue }) (map f xs)
unfolding ring_map
map-Holds a f xs h =
    window-map f a.queue.slots a.config.capacity a.queue.head a.queue.count
    ∙ ap (map (on_entry f)) h
    ∙ map-on_entry f xs
