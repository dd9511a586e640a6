-- ===== src/Airplay/MirrorClock/Order.antt =====
-- source/protocol/airplay/mirror/clock.c: timestamps that are given out only grow.
use nx_cast.Base.{
  ℕ, ◌≡◌, ◌∙◌, subst, Bool, true, false, not, ◌||◌, ◌&&◌, Option, some, none, List, [], ◌∷◌, arith,
  if◌then◌else◌, ltb, ◌==◌, Bool-cases, inl, inr,
}
use nx_cast.Base.Int.{
  ℤ, pos, ◌+ℤ◌, ◌-ℤ◌, ◌≤ℤ◌, ◌<ℤ◌, ltb_ℤ, negate, magnitude, lt-add_one, lt-or_next,
}
use nx_cast.Airplay.MirrorClock.{
  Clock, reset_audio_mapping, update_skew, set_audio_only, set_audio_rate, anchor_audio_only,
  correct_audio, measure_drift, note_sync, update_audio_sync, place_video, note_video, map_video,
  map_audio, note_audio, ntp_delta_to_90k, map_video_ntp, rtp_ticks, max_skew_ticks,
  video_backward_ticks, video_forward_ticks,
}

-- The video that the clock has seen.
record Keeps (c c' : Clock) : Type 0 where
  ready : c'.video_ready ≡ c.video_ready
  last : c'.last_video_pts ≡ c.last_video_pts

update_skew-Keeps : (c : Clock) → Keeps c (update_skew c)
unfolding update_skew
update_skew-Keeps c = ground arith

place_video-after :
    (c : Clock) (ntp : ℕ) → c.video_ready ≡ true → c.last_video_pts <ℤ (place_video c ntp).0
unfolding place_video map_video_ntp
place_video-after c ntp r =
    elim (Bool-cases (
      ltb_ℤ (ntp_delta_to_90k ntp c.last_video_ntp) (negate video_backward_ticks)
      || ltb_ℤ (pos video_forward_ticks) (ntp_delta_to_90k ntp c.last_video_ntp))) [
        | inl e ↦ rw (r, e) (lt-add_one c.last_video_pts)
        | inr e ↦ rw (r, e) (lt-or_next c.last_video_pts (map_video_ntp c ntp))
      ]

place_video-ready : (c : Clock) (ntp : ℕ) → (place_video c ntp).1.video_ready ≡ true
unfolding place_video reset_audio_mapping
place_video-ready c ntp = ground arith

anchor_audio_only-Keeps :
    (c : Clock) (ntp : ℕ) → c.video_ready ≡ true → Keeps c (anchor_audio_only c ntp)
unfolding anchor_audio_only
anchor_audio_only-Keeps c ntp r = ground arith

correct_audio-Keeps : (c : Clock) (rtp ntp : ℕ) → Keeps c (correct_audio c rtp ntp).0
unfolding correct_audio
correct_audio-Keeps c rtp ntp = ground arith

measure_drift-Keeps : (c : Clock) (rtp ntp : ℕ) → Keeps c (measure_drift c rtp ntp)
unfolding measure_drift
measure_drift-Keeps c rtp ntp = ground arith

set_audio_rate-Keeps : (c : Clock) (rate : ℕ) → Keeps c (set_audio_rate c rate).1
unfolding set_audio_rate reset_audio_mapping
set_audio_rate-Keeps c rate = ground arith

map_audio-Keeps : (c : Clock) (rtp now : ℕ) → Keeps c (map_audio c rtp now).0
unfolding map_audio update_skew
map_audio-Keeps c rtp now = ground arith

update_audio_sync-Keeps :
    (c : Clock) (rtp ntp : ℕ) → c.video_ready ≡ true → Keeps c (update_audio_sync c rtp ntp).0
unfolding update_audio_sync note_sync
update_audio_sync-Keeps c rtp ntp r =
    let a = anchor_audio_only-Keeps c ntp r in
    let b = correct_audio-Keeps (anchor_audio_only c ntp) rtp ntp in
    let d = measure_drift-Keeps (correct_audio (anchor_audio_only c ntp) rtp ntp).0 rtp ntp in
    ground (arith, a.ready, a.last, b.ready, b.last, d.ready, d.last)

-- A call between two resets, and the video timestamp that it gives out.
pub data Call : Type 0 where
  video : (ntp local_time_us : ℕ) → Call
  audio : (rtp local_time_us : ℕ) → Call
  sync : (rtp ntp : ℕ) → Call
  rate : (sample_rate : ℕ) → Call
  only : Bool → Call

unfoldable pub step : Clock → Call → Clock × Option ℤ
step c (video ntp now) = let r = map_video c ntp now in (r.0, r.2)
step c (audio rtp now) = ((map_audio c rtp now).0, none)
step c (sync rtp ntp) = ((update_audio_sync c rtp ntp).0, none)
step c (rate n) = ((set_audio_rate c n).1, none)
step c (only b) = (set_audio_only c b, none)

abbrev with_frame : Option ℤ → List ℤ → List ℤ
with_frame none rest = rest
with_frame (some pts) rest = pts ∷ rest

-- The video timestamps that a history gives out, in order.
unfoldable pub frames : Clock → List Call → List ℤ
frames c [] = []
frames c (call ∷ calls) = with_frame (step c call).1 (frames (step c call).0 calls)

abbrev pub Increasing : ℤ → List ℤ → Type 0
Increasing last [] = Unit
Increasing last (pts ∷ rest) = (last <ℤ pts) × Increasing pts rest

note_video-Keeps :
    (c : Clock) (ntp now : ℕ) (pts : ℤ) → (note_video c ntp pts now).last_video_pts ≡ pts
unfolding update_skew
note_video-Keeps c ntp now pts = ground arith

note_video-ready :
    (c : Clock) (ntp now : ℕ) (pts : ℤ) → (note_video c ntp pts now).video_ready ≡ c.video_ready
unfolding update_skew
note_video-ready c ntp now pts = ground arith

kept_on :
    (c c' : Clock) (calls : List Call)
    → c.video_ready ≡ true
    → Keeps c c'
    → (c'.video_ready ≡ true → Increasing c'.last_video_pts (frames c' calls))
    → Increasing c.last_video_pts (frames c' calls)
kept_on c c' calls r k h =
    subst (λ (l : ℤ). Increasing l (frames c' calls)) k.last (h (k.ready ∙ r))

-- From a clock that has seen video, or was anchored without it, the video timestamps that any history of
-- frames, audio packets, synchronisations and settings gives out strictly increase, and the first
-- is after the last one before, whatever timestamps and times the sender makes up.
pub frames-Increasing :
    (c : Clock) (calls : List Call)
    → c.video_ready ≡ true
    → Increasing c.last_video_pts (frames c calls)
unfolding frames step map_video set_audio_only
frames-Increasing c [] r = tt
frames-Increasing c (audio rtp now ∷ calls) r =
    kept_on c (map_audio c rtp now).0 calls r (map_audio-Keeps c rtp now)
      (frames-Increasing (map_audio c rtp now).0 calls)
frames-Increasing c (sync rtp ntp ∷ calls) r =
    kept_on c (update_audio_sync c rtp ntp).0 calls r (update_audio_sync-Keeps c rtp ntp r)
      (frames-Increasing (update_audio_sync c rtp ntp).0 calls)
frames-Increasing c (rate n ∷ calls) r =
    kept_on c (set_audio_rate c n).1 calls r (set_audio_rate-Keeps c n)
      (frames-Increasing (set_audio_rate c n).1 calls)
frames-Increasing c (only b ∷ calls) r = frames-Increasing (set_audio_only c b) calls r
frames-Increasing c (video ntp now ∷ calls) r =
    let placed = place_video c ntp in
    let c' = note_video placed.1 ntp placed.0 now in
    let rest =
      frames-Increasing c' calls
        (note_video-ready placed.1 ntp now placed.0 ∙ place_video-ready c ntp) in
    elim (Bool-cases (ntp == 0)) [
      | inl e ↦ rw e (frames-Increasing c calls r)
      | inr e ↦ rw e (
        place_video-after c ntp r,
        subst (λ (l : ℤ). Increasing l (frames c' calls))
            (note_video-Keeps placed.1 ntp now placed.0) rest,
      )
    ]

-- A timestamp that is not negative, pushed behind the last one where there is one.
pushed :
    (ready : Bool) (last candidate : ℤ)
    → ltb_ℤ candidate (pos 0) ≡ false
    → let pts = if ready && not (ltb_ℤ last candidate) then last +ℤ pos 1 else candidate in
      (pos 0 ≤ℤ pts) × (ready ≡ true → last <ℤ pts)
unfolding ◌+ℤ◌
pushed true last candidate h = (ground arith, λ _. ground arith)
pushed false last candidate h = (ground arith, λ e. cc)

note_audio-last : (c : Clock) (now : ℕ) (pts : ℤ) → (note_audio c pts now).last_audio_pts ≡ pts
unfolding update_skew
note_audio-last c now pts = ground arith

some-injective {ℓ} : {A : Type ℓ} {a b : A} → ◌≡◌ {A = Option A} (some a) (some b) → a ≡ b
some-injective h = cc

-- An audio timestamp that is given out is not negative and becomes the last one; and when `audio_ready` is
-- set, so that neither a reset of the mapping nor a jump of the synchronisation came since the last one,
-- it is after that last one.
pub map_audio_lem :
    (c : Clock) (rtp now : ℕ) (pts : ℤ)
    → (map_audio c rtp now).2 ≡ some pts
    → (pos 0 ≤ℤ pts)
      × ((map_audio c rtp now).0.last_audio_pts ≡ pts)
      × (c.audio_ready ≡ true → c.last_audio_pts <ℤ pts)
unfolding map_audio
map_audio_lem c rtp now pts h =
    let candidate =
      map_video_ntp c c.audio_sync_ntp
      +ℤ c.audio_adjust_ticks
      +ℤ rtp_ticks c rtp c.audio_sync_rtp in
    let placed =
      if c.audio_ready && not (ltb_ℤ c.last_audio_pts candidate)
      then c.last_audio_pts +ℤ pos 1
      else candidate in
    let far =
      ltb_ℤ candidate (pos 0)
      || (c.video_ready && ltb max_skew_ticks (magnitude (candidate -ℤ c.last_video_pts))) in
    elim (Bool-cases (c.sample_rate == 0)) [
      | inl e ↦ absurd (cc (rw e at h))
      | inr e ↦ elim (Bool-cases (not c.video_ready || not c.audio_sync_ready)) [
        | inl f ↦ absurd (cc (rw (e, f) at h))
        | inr f ↦ elim (Bool-cases far) [
          | inl g ↦ absurd (cc (rw (e, f, g) at h))
          | inr g ↦
              let same : placed ≡ pts = some-injective (rw (e, f, g) at h) in
              let order = pushed c.audio_ready c.last_audio_pts candidate (ground arith) in
              rw (e, f, g)
                (
                  subst (λ (p : ℤ). pos 0 ≤ℤ p) same order.0,
                  note_audio-last
                        (record c { stats = record c.stats { candidate_audio_pts = candidate } })
                        now placed
                      ∙ same,
                  λ r. subst (λ (p : ℤ). c.last_audio_pts <ℤ p) same (order.1 r),
                )
        ]
      ]
    ]
