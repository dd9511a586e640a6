-- ===== src/Airplay/LogicalSession/ReleaseInvariant.antt =====
-- The operations of logical_session.c (source/protocol/airplay/protocol) other than `observe` keep
-- the tables well formed.
use nx_cast.Base.{
  ℕ, suc, ◌+◌, ◌-◌, ◌<◌, ◌≡◌, ◌⊎◌, inl, inr, refl, sym, ◌∙◌, true, not, ◌&&◌, some, List, [], ◌∷◌,
  arith, ◌==◌, ltb, if◌then◌else◌, get_elem?, Bool-cases, Option-cases, subst,
}
use nx_cast.Base.Slots.{All-get}
use nx_cast.Base.Text.{Bytes}
use nx_cast.Airplay.LogicalSession.Entries.{
  Connection, Logical, Manager, zero_connection, zero_logical, set_connection, set_logical,
  find_connection, find_logical_by_id, release_logical_if_unreferenced,
}
use nx_cast.Airplay.LogicalSession.Release.{
  close_connection, close, bind_client, Match, nothing, several, one, holds_media_of, scan_matching,
  mark_transport_teardown, retain_media, release_media,
}
use nx_cast.Airplay.LogicalSession.Invariant.{
  Inv, IsKept, set_connection-Inv, set_logical-Inv, set_both-Inv,
}
use nx_cast.Airplay.LogicalSession.Lookup.{
  find_connection-some, find_logical_by_id-some, bound-found,
}

module _ (m : Manager) (v : Inv m) where
  -- A write to a session in use that keeps its ids and its count.
  update_logical-Inv :
      (j : ℕ) (old new : Logical)
      → get_elem? m.logical_sessions j ≡ some old
      → new.used ≡ old.used
      → new.logical_session_id ≡ old.logical_session_id
      → new.apple_session_id ≡ old.apple_session_id
      → new.connection_count ≡ old.connection_count
      → (new.used ≡ true → 0 < new.connection_count + new.media_reference_count)
      → Inv (set_logical m j new)
  update_logical-Inv j old new at u i a n k =
      set_logical-Inv m j old new v at (λ id. ground arith) (λ id. ground (arith, v.unique_id id))
        (λ b. ground (arith, v.unique_apple_id b))
        (record {
          needed = k;
          has_id = λ e. rw i ((All-get IsKept m.logical_sessions j v.kept at).has_id (sym u ∙ e));
        })

  -- A session in use whose count is kept, or which is freed with nothing left to serve.
  released-Inv :
      (j : ℕ) (old new : Logical)
      → get_elem? m.logical_sessions j ≡ some old
      → old.used ≡ true
      → new.used ≡ true
      → new.logical_session_id ≡ old.logical_session_id
      → new.apple_session_id ≡ old.apple_session_id
      → new.connection_count ≡ old.connection_count
      → Inv (set_logical m j (release_logical_if_unreferenced new))
  unfolding release_logical_if_unreferenced
  released-Inv j old new at o u i a n =
      set_logical-Inv m j old (release_logical_if_unreferenced new) v at (λ id. ground arith)
        (λ id. ground (arith, v.unique_id id)) (λ b. ground (arith, v.unique_apple_id b))
        (record {
          needed = λ e. ground arith;
          has_id = λ e. ground (arith, (All-get IsKept m.logical_sessions j v.kept at).has_id o);
        })

  pub retain_media-Inv : (id : ℕ) → Inv (retain_media m id).0
  unfolding retain_media
  retain_media-Inv id = elim (Option-cases (find_logical_by_id m id)) [
    | inl e ↦ subst Inv (ground arith) v
    | inr ((j, l), e) ↦
        let at = find_logical_by_id-some m id e in
        let more = record l { media_reference_count = l.media_reference_count + 1 } in
        elim (Bool-cases (not (id == 0) && ltb l.media_reference_count 4294967295)) [
          | inl t ↦
              subst Inv {x = set_logical m j more} (ground arith)
                (update_logical-Inv j l more at.0 refl refl refl refl (λ _. omega arith))
          | inr t ↦ subst Inv (ground arith) v
        ]
  ]

  pub release_media-Inv : (id : ℕ) → Inv (release_media m id).0
  unfolding release_media
  release_media-Inv id = elim (Option-cases (find_logical_by_id m id)) [
    | inl e ↦ subst Inv (ground arith) v
    | inr ((j, l), e) ↦
        let at = find_logical_by_id-some m id e in
        let fewer = record l { media_reference_count = l.media_reference_count - 1 } in
        elim (Bool-cases (not (id == 0) && ltb 0 l.media_reference_count)) [
          | inl t ↦
              subst Inv {x = set_logical m j (release_logical_if_unreferenced fewer)} (ground arith)
                (released-Inv j l fewer at.0 at.1 at.1 refl refl refl)
          | inr t ↦ subst Inv (ground arith) v
        ]
  ]

-- What the loop returns stands in the list, and passes the test.
scan_matching-one :
    (client : Bytes) (so_far : Match) (k : ℕ) (ls : List Logical) {j : ℕ} {l : Logical}
    → scan_matching client so_far k ls ≡ one j l
    → (so_far ≡ one j l)
      ⊎ ((i : ℕ) × (j ≡ k + i) × (get_elem? ls i ≡ some l) × (holds_media_of client l ≡ true))
unfolding scan_matching
scan_matching-one client so_far k [] h = inl h
scan_matching-one client several k (l ∷ ls) h = inl h
scan_matching-one client nothing k (x ∷ ls) {j} {l} h =
    elim (scan_matching-one client (if holds_media_of client x then one k x else nothing) (suc k) ls
      h) [
        | inl e ↦ inr (0, ground arith, ground arith, ground arith)
        | inr (i, e, at, t) ↦ inr (suc i, omega arith, at, t)
      ]
scan_matching-one client (one n first) k (x ∷ ls) {j} {l} h =
    elim (scan_matching-one client (if holds_media_of client x then several else one n first)
      (suc k) ls h) [
        | inl e ↦ inl (ground arith)
        | inr (i, e, at, t) ↦ inr (suc i, omega arith, at, t)
      ]

scan_matching-found :
    (client : Bytes) (ls : List Logical) {j : ℕ} {l : Logical}
    → scan_matching client nothing 0 ls ≡ one j l
    → get_elem? ls j ≡ some l
scan_matching-found client ls {j} h = elim (scan_matching-one client nothing 0 ls h) [
  | inl e ↦ absurd (ground arith)
  | inr (i, e, at, t) ↦ let same : j ≡ i = omega arith in rw same at
]

-- A result that is one of two well-formed tables.
Inv-of_two : (a b : Manager) {r : Manager} → Inv a → Inv b → (r ≡ a) ⊎ (r ≡ b) → Inv r
Inv-of_two a b va vb (inl e) = subst Inv (sym e) va
Inv-of_two a b va vb (inr e) = subst Inv (sym e) vb

Match-cases :
    (r : Match) → ((j : ℕ) × (l : Logical) × (r ≡ one j l)) ⊎ ((r ≡ nothing) ⊎ (r ≡ several))
Match-cases nothing = inr (inl refl)
Match-cases several = inr (inr refl)
Match-cases (one j l) = inl (j, l, refl)

module _ (m : Manager) (v : Inv m) where
  -- A write to a connection in use that keeps its id and its binding.
  pub update_connection-Inv :
      (i : ℕ) (old new : Connection)
      → get_elem? m.connections i ≡ some old
      → old.used ≡ true
      → new.used ≡ true
      → new.connection_id ≡ old.connection_id
      → new.logical_session_id ≡ old.logical_session_id
      → new.logical_session_bound ≡ old.logical_session_bound
      → Inv (set_connection m i new)
  update_connection-Inv i old new at o u n s b =
      set_connection-Inv m i old new v at (λ id. ground arith)
        (λ id. ground (arith, v.unique_connection_id id))
        (record { unbound = λ e. absurd (ground arith); no_client = λ e. absurd (ground arith) })

  pub bind_client-Inv : (id : ℕ) (client : Bytes) → Inv (bind_client m id client).0
  unfolding bind_client
  bind_client-Inv id client = elim (Option-cases (find_connection m id)) [
    | inl e ↦ subst Inv (ground arith) v
    | inr ((i, c), e) ↦
        let at = find_connection-some m id e in
        let c' = record c { client_id = client; client_id_bound = true } in
        let m' = set_connection m i c' in
        let m'-Inv : Inv m' = update_connection-Inv i c c' at.0 at.1 at.1 refl refl refl in
        elim (Option-cases (find_logical_by_id m c.logical_session_id)) [
          | inl none_found ↦ Inv-of_two m m' v m'-Inv (ground arith)
          | inr ((j, l), f) ↦
              let found = find_logical_by_id-some m c.logical_session_id f in
              let l' = record l { client_id = client; client_id_bound = true } in
              let both : Inv (set_logical m' j l') =
                update_logical-Inv m' m'-Inv j l l' found.0 refl refl refl refl
                  (All-get IsKept m.logical_sessions j v.kept found.0).needed in
              elim (Bool-cases (l.client_id_bound)) [
                | inl t ↦ Inv-of_two m m' v m'-Inv (ground arith)
                | inr t ↦ elim (Bool-cases c.logical_session_bound) [
                  | inl b ↦ Inv-of_two m (set_logical m' j l') v both (ground arith)
                  | inr b ↦ Inv-of_two m m' v m'-Inv (ground arith)
                ]
              ]
        ]
  ]

  pub mark_transport_teardown-Inv : (id : ℕ) → Inv (mark_transport_teardown m id).0
  unfolding mark_transport_teardown
  mark_transport_teardown-Inv id = elim (Option-cases (find_connection m id)) [
    | inl e ↦ subst Inv (ground arith) v
    | inr ((i, c), e) ↦
        elim (Match-cases (scan_matching c.client_id nothing 0 m.logical_sessions)) [
          | inr none_found ↦ subst Inv (ground arith) v
          | inl (j, l, f) ↦
              let l' = record l { transport_terminated = true } in
              let at = scan_matching-found c.client_id m.logical_sessions f in
              Inv-of_two m (set_logical m j l') v
                (update_logical-Inv m v j l l' at refl refl refl refl
                  (All-get IsKept m.logical_sessions j v.kept at).needed)
                (ground arith)
        ]
  ]

module _ (m : Manager) (v : Inv m) where
  -- The connection's entry is cleared, and the session that it was bound to counts one fewer.
  unbind-Inv :
      (i j : ℕ) (c : Connection) (l : Logical)
      → get_elem? m.connections i ≡ some c
      → c.used ≡ true
      → c.logical_session_bound ≡ true
      → find_logical_by_id m c.logical_session_id ≡ some (j, l)
      → 0 < l.connection_count
      → (new : Logical)
      → (new ≡ record l { connection_count = l.connection_count - 1 })
        ⊎ ((new ≡ zero_logical) × (l.connection_count ≡ 1))
      → (new.used ≡ true → 0 < new.connection_count + new.media_reference_count)
      → Inv (set_connection (set_logical m j new) i zero_connection)
  unbind-Inv i j c l at used bound f pos new is k =
      let found = find_logical_by_id-some m c.logical_session_id f in
      set_both-Inv m i j c zero_connection l new v at found.0 (λ id. ground arith)
        (λ id. ground (arith, v.unique_connection_id id)) (λ id. ground (arith, v.unique_id id))
        (λ a. ground (arith, v.unique_apple_id a)) (ground arith)
        (record {
          needed = k;
          has_id = λ e. ground (arith, (All-get IsKept m.logical_sessions j v.kept found.0).has_id);
        })

  close_connection-Inv :
      (id i : ℕ) (c : Connection)
      → get_elem? m.connections i ≡ some c
      → c.used ≡ true
      → Inv (close_connection m id i c).0
  unfolding close_connection
  close_connection-Inv id i c at used = elim (Bool-cases c.logical_session_bound) [
    | inr free ↦ subst Inv {x = set_connection m i zero_connection} (ground arith) (
        set_connection-Inv m i c zero_connection v at (λ id. ground arith)
          (λ id. ground (arith, v.unique_connection_id id)) (ground arith))
    | inl bound ↦
        let (j, l, f, pos) = bound-found m i v at used bound in
        let l' = record l { connection_count = l.connection_count - 1 } in
        elim (Bool-cases (l'.connection_count == 0)) [
          | inl last ↦
              let new = release_logical_if_unreferenced l' in
              subst Inv {x = set_connection (set_logical m j new) i zero_connection} (ground arith)
                (unbind-Inv i j c l at used bound f pos new
                  (unfold release_logical_if_unreferenced in ground arith)
                  (unfold release_logical_if_unreferenced in ground arith))
          | inr more ↦
              subst Inv {x = set_connection (set_logical m j l') i zero_connection} (ground arith)
                (unbind-Inv i j c l at used bound f pos l' (inl refl) (λ _. ground arith))
        ]
  ]

  pub close-Inv : (id : ℕ) → Inv (close m id).0
  unfolding close
  close-Inv id = elim (Option-cases (find_connection m id)) [
    | inl e ↦ subst Inv (ground arith) v
    | inr ((i, c), e) ↦
        let at = find_connection-some m id e in
        Inv-of_two m (close_connection m id i c).0 v (close_connection-Inv id i c at.0 at.1)
          (ground arith)
  ]
