-- ===== src/Airplay/LogicalSession/Sharing.antt =====
-- Connections that name one Apple session share one logical session: `observe` of
-- source/protocol/airplay/protocol/logical_session.c.
use nx_cast.Base.{
  ℕ, ◌≡◌, ◌≢◌, inl, inr, refl, sym, ap, ◌∙◌, subst, Bool, true, false, some, none, arith,
  if◌then◌else◌, get_elem?, get_elem?-set_at, set, Bool-cases, Option-cases,
}
use nx_cast.Base.Slots.{weigh_le, All-get}
use nx_cast.Base.Text.{Bytes, bytes_eq_iff}
use nx_cast.Airplay.LogicalSession.Rtsp.{
  ConnectionKind, Request, header_value, apple_session_header, classify_request,
}
use nx_cast.Airplay.LogicalSession.Entries.{
  Connection, Logical, Manager, zero_logical, set_connection, find_logical_by_id,
  find_logical_by_apple_id, bind_connection, allocate_logical_id, has_apple_id,
}
use nx_cast.Airplay.LogicalSession.Observe.{
  ObserveResult, Observed, found, refused, choose_connection, choose_logical, note_connection,
  bind_apple, commit, observe_locked, observe_header, observe,
}
use nx_cast.Airplay.LogicalSession.Invariant.{Inv, IsClean, with_apple_id}
use nx_cast.Airplay.LogicalSession.Lookup.{find_logical_by_id-some, find_logical_by_apple_id-none}
use nx_cast.Airplay.LogicalSession.Allocate.{allocate_logical_id-fresh}
use nx_cast.Airplay.LogicalSession.ObserveInvariant.{
  Chosen, Offered, choose_connection-Chosen, choose_logical-Offered, noted-Inv,
  note_connection-used,
}
use nx_cast.Airplay.LogicalSession.ObserveCommit.{Found-cases, observe-Inv}
use nx_cast.Airplay.LogicalSession.Observe.{ok, fill_snapshot}
use nx_cast.Base.Slots.{weigh_single}

-- A session in use has this Apple id and this logical id.
abbrev pub Names : Manager → Bytes → ℕ → Type 0
Names m a id =
    (j : ℕ) × (l : Logical) × (get_elem? m.logical_sessions j ≡ some l)
    × (l.used ≡ true)
    × (l.apple_session_id ≡ a)
    × (l.logical_session_id ≡ id)

abbrev id_under : Bytes → Logical → ℕ
id_under a l = if has_apple_id a l then l.logical_session_id else 0

-- In well-formed tables the logical id under an Apple id is unique.
Names-unique : (m : Manager) (a : Bytes) {n k : ℕ} → Inv m → Names m a n → Names m a k → n ≡ k
Names-unique m a v (i, l, at_l, used_l, apple_l, id_l) (j, n, at_n, used_n, apple_n, id_n) =
    let single = λ (i : ℕ) (x : Logical) (at : get_elem? m.logical_sessions i ≡ some x).
      weigh_single (with_apple_id a) (id_under a) m.logical_sessions i {x = x} (λ y z. ground arith)
        (v.unique_apple_id a) at in
    ground (
      arith,
      single i l at_l,
      single j n at_n,
      bytes_eq_iff l.apple_session_id a,
      bytes_eq_iff n.apple_session_id a,
    )

Names-found :
    (m : Manager) (a : Bytes) {n : ℕ} → Names m a n → find_logical_by_apple_id m a ≡ none → ⊥
Names-found m a (j, l, at, used, apple, id) absent = absurd (
    ground (
      arith,
      find_logical_by_apple_id-none m a absent,
      weigh_le (with_apple_id a) m.logical_sessions j {x = l} at,
      bytes_eq_iff l.apple_session_id a,
    ))

-- What is bound or found under an Apple id.
choose_logical-bound :
    (m : Manager) (c : Connection) (a : Bytes) {j : ℕ} {l : Logical}
    → c.logical_session_bound ≡ true
    → choose_logical m c (some a) ≡ found (some (j, l))
    → (get_elem? m.logical_sessions j ≡ some l)
      × (l.used ≡ true)
      × (l.apple_session_id ≡ a)
      × (l.logical_session_id ≡ c.logical_session_id)
unfolding choose_logical
choose_logical-bound m c a b h = elim (Option-cases (find_logical_by_id m c.logical_session_id)) [
  | inl e ↦ absurd (ground arith)
  | inr ((n, d), e) ↦
      ground
        (arith, find_logical_by_id-some m c.logical_session_id e, bytes_eq_iff d.apple_session_id a)
]

choose_logical-some :
    (m : Manager) (c : Connection) (a : Bytes) → choose_logical m c (some a) ≡ found none → ⊥
unfolding choose_logical
choose_logical-some m c a h = ground arith

-- A bound connection keeps its session.
noted_bound-id :
    (m : Manager) (id : ℕ) (c : Connection) (is_new : Bool) (k : ConnectionKind)
    → Chosen m id c is_new
    → IsClean c
    → c.logical_session_bound ≡ true
    → (note_connection c is_new id k).logical_session_id ≡ c.logical_session_id
unfolding note_connection
noted_bound-id m id c is_new k ch clean bound = ground (arith, clean.unbound)

-- A successful binding names the session, and the session of the Apple id if there is one.
bind_apple-ok :
    (m : Manager) (i j : ℕ) (c : Connection) (is_new : Bool) (l : Logical) (a : Bytes)
    → Inv m
    → c.logical_session_bound ≡ false
    → get_elem? m.logical_sessions j ≡ some l
    → Offered m a l
    → (bind_apple m i c is_new j l a).result ≡ ok
    → let o = bind_apple m i c is_new j l a in
      (o.snapshot.logical_session_bound ≡ true)
      × Names o.after a o.snapshot.logical_session_id
      × ((l.used ≡ true) → o.snapshot.logical_session_id ≡ l.logical_session_id)
unfolding bind_apple fill_snapshot
bind_apple-ok m i j c is_new l a v free at offer h = elim offer [
  | inl (used_l, same) ↦
      let l' = (bind_connection m i c j l).2 in
      let table : (bind_apple m i c is_new j l a).after.logical_sessions
          ≡ set m.logical_sessions j l' =
        ground arith in
      (
        ground arith,
        (
          j,
          l',
          ap (λ t. get_elem? t j) table ∙ get_elem?-set_at m.logical_sessions j l' at,
          ground arith,
          ground arith,
          ground arith,
        ),
        λ u. ground arith,
      )
  | inr (unused, absent) ↦
      let m' = record m { next_logical_session_id = (allocate_logical_id m).1 } in
      let new = record zero_logical {
        logical_session_id = (allocate_logical_id m).0;
        apple_session_id = a;
        used = true;
      } in
      let l' = (bind_connection m' i c j new).2 in
      let alloc = (allocate_logical_id-fresh m v).0 in
      let table : (bind_apple m i c is_new j l a).after.logical_sessions
          ≡ set m.logical_sessions j l' =
        ground (arith, alloc) in
      (
        ground (arith, alloc),
        (
          j,
          l',
          ap (λ t. get_elem? t j) table ∙ get_elem?-set_at m.logical_sessions j l' at,
          ground arith,
          ground arith,
          ground (arith, alloc),
        ),
        λ u. absurd (ground arith),
      )
]

-- What an accepted request with an Apple id reports: the session of that id, new or old.
abbrev Reports : Manager → Bytes → Observed → Type 0
Reports m a o =
    (o.snapshot.logical_session_bound ≡ true)
    × Names o.after a o.snapshot.logical_session_id
    × ((n : ℕ) → Names m a n → o.snapshot.logical_session_id ≡ n)

commit-ok :
    (m : Manager) (id : ℕ) (r : Request) (a : Bytes) (k : ConnectionKind) (i : ℕ) (c : Connection)
    (is_new : Bool) (j : ℕ) (l : Logical)
    → Inv m
    → get_elem? m.connections i ≡ some c
    → Chosen m id c is_new
    → choose_logical m c (some a) ≡ found (some (j, l))
    → (commit m id r (some a) k (i, c, is_new) (some (j, l))).result ≡ ok
    → Reports m a (commit m id r (some a) k (i, c, is_new) (some (j, l)))
unfolding commit find_logical_by_apple_id fill_snapshot
commit-ok m id r a k i c is_new j l v at ch q h =
    let c' = note_connection c is_new id k in
    let m' = set_connection m i c' in
    let v' : Inv m' = noted-Inv m id i c is_new k v at ch in
    let noted =
      note_connection-used m id c is_new k ch (All-get IsClean m.connections i v.clean at) in
    elim (Bool-cases c'.logical_session_bound) [
      | inl bound ↦
          let was = sym noted.2 ∙ bound in
          let (at_l, used_l, apple, id_l) = choose_logical-bound m c a was q in
          let kept : c'.logical_session_id ≡ l.logical_session_id =
            noted_bound-id m id c is_new k ch (All-get IsClean m.connections i v.clean at) was
            ∙ sym id_l in
          let o = commit m id r (some a) k (i, c, is_new) (some (j, l)) in
          let table : o.after.logical_sessions ≡ m.logical_sessions = ground arith in
          let reported : o.snapshot.logical_session_id ≡ l.logical_session_id =
            ground (arith, kept) in
          (
            ground arith,
            (j, l, ap (λ t. get_elem? t j) table ∙ at_l, used_l, apple, sym reported),
            λ n old_names.
                reported ∙ Names-unique m a v (j, l, at_l, used_l, apple, refl) old_names,
          )
      | inr free ↦
          let offer = choose_logical-Offered m c a (sym noted.2 ∙ free) q in
          let o = bind_apple m' i c' is_new j l a in
          let same : commit m id r (some a) k (i, c, is_new) (some (j, l)) ≡ o = ground arith in
          let (b, names, old) =
            bind_apple-ok m' i j c' is_new l a v' free offer.0 offer.1
              (ap (λ (x : Observed). x.result) (sym same) ∙ h) in
          subst (Reports m a) {x = o} (sym same) (
            b,
            names,
            λ n old_names. elim offer.1 [
              | inl (used_l, apple) ↦
                  old used_l ∙ Names-unique m a v (j, l, offer.0, used_l, apple, refl) old_names
              | inr (unused, absent) ↦ absurd (Names-found m a old_names absent)
            ],
          )
    ]

choose_connection-refused :
    (m : Manager) (id : ℕ) (k : ConnectionKind) {e : ObserveResult}
    → choose_connection m id k ≡ refused e
    → e ≢ ok
unfolding choose_connection
choose_connection-refused m id k h = ground arith

choose_logical-refused :
    (m : Manager) (c : Connection) (a : Bytes) {e : ObserveResult}
    → choose_logical m c (some a) ≡ refused e
    → e ≢ ok
unfolding choose_logical
choose_logical-refused m c a h = ground arith

-- An accepted request with an Apple id, at any well-formed tables.
observe-Reports :
    (m : Manager) (id : ℕ) (r : Request) (a : Bytes)
    → Inv m
    → header_value r.headers apple_session_header ≡ some a
    → (observe m id r).result ≡ ok
    → Reports m a (observe m id r)
unfolding observe observe_header observe_locked
observe-Reports m id r a v header h =
    let k = classify_request r (some a) in
    elim (Found-cases (choose_connection m id k)) [
      | inl (e, p) ↦ absurd (ground (arith, choose_connection-refused m id k p))
      | inr ((i, c, is_new), p) ↦
          let (at, ch) = choose_connection-Chosen m id k p in
          elim (Found-cases (choose_logical m c (some a))) [
            | inl (e, q) ↦ absurd (ground (arith, choose_logical-refused m c a q))
            | inr (none, q) ↦ absurd (choose_logical-some m c a q)
            | inr (some (j, l), q) ↦
                let o = commit m id r (some a) k (i, c, is_new) (some (j, l)) in
                let same : observe m id r ≡ o = ground arith in
                subst (Reports m a) {x = o} (sym same) (
                  commit-ok m id r a k i c is_new j l v at ch q
                    (ap (λ (x : Observed). x.result) (sym same) ∙ h))
          ]
    ]

-- Two accepted requests with the same Apple id, one right after the other and from any connections,
-- report the same logical session, and both connections are bound to it.
pub observe-shares :
    (m : Manager) (first second : ℕ) (r s : Request) (a : Bytes)
    → Inv m
    → header_value r.headers apple_session_header ≡ some a
    → header_value s.headers apple_session_header ≡ some a
    → (observe m first r).result ≡ ok
    → (observe (observe m first r).after second s).result ≡ ok
    → let o = observe m first r in
      let p = observe o.after second s in
      (o.snapshot.logical_session_bound ≡ true)
      × (p.snapshot.logical_session_bound ≡ true)
      × (p.snapshot.logical_session_id ≡ o.snapshot.logical_session_id)
observe-shares m first second r s a v header_r header_s ok_r ok_s =
    let o = observe-Reports m first r a v header_r ok_r in
    let p =
      observe-Reports (observe m first r).after second s a (observe-Inv m first r v) header_s
        ok_s in
    (o.0, p.0, p.2 _ o.1)
