-- ===== src/Player/MediaActor/Refine.antt =====
-- source/player/core/media_actor.c: what `actor_submit` does to the list of waiting requests.
use nx_cast.Base.{
  ℕ, ◌<◌, ◌≡◌, ◌≢◌, ◌⊎◌, inl, inr, ◌==◌, not, ◌||◌, refl, sym, ap, subst, ◌∙◌, arith, Bool, true,
  false, Option, some, none, List, [], ◌∷◌, ◌++◌, if◌then◌else◌, Bool-cases,
}
use nx_cast.Player.MediaActor.Ring.{ring_last}
use nx_cast.Player.MediaActor.Commands.{
  SubmitStatus, Command, Request, Actor, bump, command_valid, command_can_replace, created,
  request_create,
}
use nx_cast.Player.MediaActor.Submit.{
  submit, admit, admit_created, reject_stopping, coalesce, replace_or_enqueue, replaced_request,
  check_last, replaceable_with, enqueue, queue_is_full, reject_full, count_submitted, push_request,
}
use nx_cast.Player.MediaActor.Queue.{IsValid, flags-IsValid}
use nx_cast.Player.MediaActor.Fifo.{Holds, Holds-count, push-Holds, last-Holds, set_last-Holds}

-- The entry that a submission makes.
abbrev pub entry : Actor → Bool → Command → Request
entry a wait c = record (created c) {
  command = record c { command_id = bump a.health.last_command_id };
  references = if wait then 2 else 1;
}

-- From the list `xs` a submission makes `ys`: nothing changes, the entry is put last, or it takes the
-- place of the last one, which no caller waits for and which has the same kind, producer and session.
pub data Queued (a : Actor) (wait : Bool) (c : Command) (xs ys : List Request)
    (status : SubmitStatus) : Type 0 where
  kept : status ≢ SubmitStatus.accepted → ys ≡ xs → Queued a wait c xs ys status
  appended :
      status ≡ SubmitStatus.accepted
      → ys ≡ xs ++ (entry a wait c ∷ [])
      → Queued a wait c xs ys status
  replaced :
      (zs : List Request) (q : Request)
      → status ≡ SubmitStatus.accepted
      → wait ≡ false
      → q.references ≡ 1
      → command_can_replace q.command c ≡ true
      → xs ≡ zs ++ (q ∷ [])
      → ys ≡ zs ++ (entry a false c ∷ [])
      → Queued a wait c xs ys status

HasQueued : Actor → Bool → Command → List Request → Actor × SubmitStatus → Type 0
HasQueued a wait c xs (b, status) = (ys : List Request) × Holds b ys × Queued a wait c xs ys status

snoc_view :
    (xs : List Request) → (xs ≡ []) ⊎ ((zs : List Request) × (q : Request) × (xs ≡ zs ++ (q ∷ [])))
snoc_view [] = inl refl
snoc_view (x ∷ xs) = elim (snoc_view xs) [
  | inl e ↦ inr ([], x, ap (◌∷◌ x) e)
  | inr (zs, q, e) ↦ inr (x ∷ zs, q, ap (◌∷◌ x) e)
]

replaced_request_inv :
    (a : Actor) (wait : Bool) (c : Command) (q : Request)
    → replaced_request a wait c ≡ some q
    → (wait ≡ false)
      × ((a.queue.count == 0) ≡ false)
      × (ring_last a.config.capacity a.queue ≡ some q)
      × (q.references ≡ 1)
      × (command_can_replace q.command c ≡ true)
unfolding replaced_request check_last replaceable_with
replaced_request_inv a wait c q h = ground arith

-- The test on the last entry does not read the command's number.
check_last-created :
    (q : Option Request) (c : Command) → check_last q (created c).command ≡ check_last q c
unfolding check_last replaceable_with command_can_replace
check_last-created none c = refl
check_last-created (some q) c = refl

replaced_request-created :
    (a : Actor) (wait : Bool) (c : Command)
    → replaced_request a wait (created c).command ≡ replaced_request a wait c
unfolding replaced_request
replaced_request-created a wait c = rw (check_last-created (ring_last a.config.capacity a.queue) c)

some_inj : {x y : Request} → some x ≡ some y → x ≡ y
some_inj h = cc

not_full_fits :
    (a : Actor) (kind : ℕ) → queue_is_full a kind ≡ false → a.queue.count < a.config.capacity
unfolding queue_is_full
not_full_fits a kind e = ground arith

module _ (a : Actor) (wait : Bool) (c : Command) (xs : List Request) (v : IsValid a)
    (h : Holds a xs) where
  kept-Queued :
      (b : Actor) (status : SubmitStatus)
      → Holds b xs
      → status ≢ SubmitStatus.accepted
      → HasQueued a wait c xs (b, status)
  unfolding HasQueued
  kept-Queued b status k ne = (xs, k, kept ne refl)

  push_request-Queued :
      a.queue.count < a.config.capacity
      → HasQueued a wait c xs (push_request a wait (created c), SubmitStatus.accepted)
  unfolding HasQueued push_request count_submitted
  push_request-Queued room = (
    xs ++ (entry a wait c ∷ []),
    push-Holds (count_submitted a) (entry a wait c) xs
        (flags-IsValid v (count_submitted a) refl refl refl refl v.runs v.accepts) room h,
    appended refl refl,
  )

  enqueue-Queued : HasQueued a wait c xs (enqueue a wait (created c))
  unfolding enqueue reject_full
  enqueue-Queued = elim (Bool-cases (queue_is_full a c.kind)) [
    | inl e ↦
        subst (HasQueued a wait c xs) {x = (reject_full a, SubmitStatus.queue_full)}
          {y = enqueue a wait (created c)} (ground arith)
          (kept-Queued (reject_full a) SubmitStatus.queue_full h (λ q. cc))
    | inr e ↦
        subst (HasQueued a wait c xs) {x = (push_request a wait (created c), SubmitStatus.accepted)}
          {y = enqueue a wait (created c)} (ground arith)
          (push_request-Queued (not_full_fits a c.kind e))
  ]

  coalesce_last-Queued :
      (zs : List Request) (z q : Request)
      → xs ≡ zs ++ (z ∷ [])
      → replaced_request a wait c ≡ some q
      → HasQueued a wait c xs ((coalesce a (created c) q).0, SubmitStatus.accepted)
  unfolding coalesce HasQueued
  coalesce_last-Queued zs z q s e =
      let inv = replaced_request_inv a wait c q e in
      let hs : Holds a (zs ++ (z ∷ [])) = subst (Holds a) s h in
      let same : z ≡ q = some_inj (sym (last-Holds a zs z v hs) ∙ inv.2) in
      (
        zs ++ (entry a false c ∷ []),
        set_last-Holds a zs z (entry a false c) v hs,
        replaced zs q refl inv.0 inv.3 inv.4 (s ∙ ap (λ (x : Request). zs ++ (x ∷ [])) same) refl,
      )

  empty-not-replaced : (q : Request) → replaced_request a wait c ≡ some q → xs ≡ [] → ⊥
  empty-not-replaced q e n = ground (arith, replaced_request_inv a wait c q e, Holds-count a xs h)

  coalesce-Queued :
      (q : Request)
      → replaced_request a wait c ≡ some q
      → HasQueued a wait c xs ((coalesce a (created c) q).0, SubmitStatus.accepted)
  coalesce-Queued q e = elim (snoc_view xs) [
    | inl n ↦ absurd (empty-not-replaced q e n)
    | inr (zs, z, s) ↦ coalesce_last-Queued zs z q s e
  ]

  replace_or_enqueue-Queued :
      (q : Option Request)
      → replaced_request a wait c ≡ q
      → HasQueued a wait c xs (replace_or_enqueue a wait (created c) q)
  unfolding replace_or_enqueue
  replace_or_enqueue-Queued none e = enqueue-Queued
  replace_or_enqueue-Queued (some q) e = coalesce-Queued q e

  admit-Queued : HasQueued a wait c xs (admit a wait (created c))
  unfolding admit reject_stopping
  admit-Queued = elim (Bool-cases a.running) [
    | inr e ↦
        subst (HasQueued a wait c xs) {x = (a, SubmitStatus.not_running)}
          {y = admit a wait (created c)} (ground arith)
          (kept-Queued a SubmitStatus.not_running h (λ q. cc))
    | inl e ↦ elim (Bool-cases (a.stopping || not a.accepting)) [
      | inl f ↦
          subst (HasQueued a wait c xs) {x = (reject_stopping a, SubmitStatus.shutting_down)}
            {y = admit a wait (created c)} (ground arith)
            (kept-Queued (reject_stopping a) SubmitStatus.shutting_down h (λ q. cc))
      | inr f ↦
          subst (HasQueued a wait c xs)
            {x = replace_or_enqueue a wait (created c)
              (replaced_request a wait (created c).command)}
            {y = admit a wait (created c)} (ground arith)
            (replace_or_enqueue-Queued (replaced_request a wait (created c).command)
              (sym (replaced_request-created a wait c)))
    ]
  ]

  admit_created-Queued :
      (memory : Bool) → HasQueued a wait c xs (admit_created a wait (request_create memory c))
  unfolding admit_created request_create
  admit_created-Queued false = kept-Queued a SubmitStatus.no_memory h (λ q. cc)
  admit_created-Queued true = admit-Queued

  submit-HasQueued : (memory : Bool) → HasQueued a wait c xs (submit a wait memory c)
  unfolding submit
  submit-HasQueued memory = elim (Bool-cases (command_valid c)) [
    | inr e ↦
        subst (HasQueued a wait c xs) {x = (a, SubmitStatus.invalid)} {y = submit a wait memory c}
          (ground arith) (kept-Queued a SubmitStatus.invalid h (λ q. cc))
    | inl e ↦
        subst (HasQueued a wait c xs) {x = admit_created a wait (request_create memory c)}
          {y = submit a wait memory c} (ground arith) (admit_created-Queued memory)
  ]

-- When the queue of a valid actor holds the requests `xs`, oldest first, then after any submission it
-- holds some `ys`: a refused submission leaves `ys` equal to `xs`, and an accepted one either puts
-- the numbered request last, or puts it in the place of the last request, which then was one
-- that no caller waits for, of the same kind, producer, session token and generation.
pub submit-Queued :
    (a : Actor) (wait memory : Bool) (c : Command) (xs : List Request)
    → IsValid a
    → Holds a xs
    → (ys : List Request) × Holds (submit a wait memory c).0 ys
      × Queued a wait c xs ys (submit a wait memory c).1
unfolding HasQueued
submit-Queued a wait memory c xs v h = submit-HasQueued a wait c xs v h memory
