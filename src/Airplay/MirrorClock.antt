-- ===== src/Airplay/MirrorClock.antt =====
-- source/protocol/airplay/mirror/clock.c: sender timestamps mapped to 90 kHz ticks. The clock is a
-- pointer that is not NULL here. An `int64_t` is the integer that it stands for: where the C code
-- would overflow it is not defined, and casts from unsigned words are written out. Unsigned words wrap.
mod Order
mod Tests
use nx_cast.Base.{
  ℕ, ◌+◌, ◌-◌, ◌*◌, ◌/◌, ◌%◌, Bool, true, false, not, ◌&&◌, ◌||◌, Option, some, none, if◌then◌else◌,
  ltb, leb, ◌==◌, u32, u64, u32_mod, u64_mod, sub_u32,
}
use nx_cast.Base.Int.{
  ℤ, pos, negsuc, ◌+ℤ◌, ◌-ℤ◌, ltb_ℤ, negate, times, quotient, remainder, signed32, signed64,
  magnitude, pos_part,
}

abbrev pub time_base : ℕ
time_base = 90000

abbrev pub deadband_ticks : ℕ
deadband_ticks = 90

abbrev pub max_correction_ticks : ℕ
max_correction_ticks = 450

abbrev pub sync_jump_ticks : ℕ
sync_jump_ticks = 22500

abbrev pub video_backward_ticks : ℕ
video_backward_ticks = 9000

abbrev pub video_forward_ticks : ℕ
video_forward_ticks = 900000

abbrev pub max_skew_ticks : ℕ
max_skew_ticks = 180000

pub data ClockResult : Type 0 where
  ok waiting_for_sync discontinuity out_of_range : ClockResult

pub record Arrival : Type 0 where
  pub source_pts : ℤ
  pub local_time_us : ℕ
  pub jitter_us : ℕ
  pub ready : Bool

pub record Stats : Type 0 where
  pub generation : ℕ
  pub audio_sync_updates : ℕ
  pub audio_corrections : ℕ
  pub discontinuities : ℕ
  pub unsynced_audio_drops : ℕ
  pub skew_audio_drops : ℕ
  pub video_jitter_us : ℕ
  pub audio_jitter_us : ℕ
  pub av_skew_ticks : ℤ
  pub max_abs_av_skew_ticks : ℤ
  pub drift_ppm : ℤ
  pub candidate_audio_pts : ℤ

-- The fields of the stats that only `get_stats` fills are left to it.
pub record Clock : Type 0 where
  pub sample_rate : ℕ
  pub video_anchor_ntp : ℕ
  pub video_anchor_pts : ℤ
  pub last_video_ntp : ℕ
  pub last_video_pts : ℤ
  pub last_audio_pts : ℤ
  pub audio_sync_rtp : ℕ
  pub audio_sync_ntp : ℕ
  pub audio_adjust_ticks : ℤ
  pub previous_sync_rtp : ℕ
  pub previous_sync_ntp : ℕ
  pub video_arrival : Arrival
  pub audio_arrival : Arrival
  pub stats : Stats
  pub video_ready : Bool
  pub audio_sync_ready : Bool
  pub audio_ready : Bool
  pub previous_sync_ready : Bool
  pub audio_only : Bool

abbrev pub zero_arrival : Arrival
zero_arrival = record { source_pts = pos 0; local_time_us = 0; jitter_us = 0; ready = false }

abbrev pub new_stats : ℕ → Stats
new_stats generation = record {
  generation = generation;
  audio_sync_updates = 0;
  audio_corrections = 0;
  discontinuities = 0;
  unsynced_audio_drops = 0;
  skew_audio_drops = 0;
  video_jitter_us = 0;
  audio_jitter_us = 0;
  av_skew_ticks = pos 0;
  max_abs_av_skew_ticks = pos 0;
  drift_ppm = pos 0;
  candidate_audio_pts = pos 0;
}

-- `calloc`, and what `reset` keeps.
abbrev pub cleared : ℕ → Bool → ℕ → Clock
cleared sample_rate audio_only generation = record {
  sample_rate = sample_rate;
  video_anchor_ntp = 0;
  video_anchor_pts = pos 0;
  last_video_ntp = 0;
  last_video_pts = pos 0;
  last_audio_pts = pos 0;
  audio_sync_rtp = 0;
  audio_sync_ntp = 0;
  audio_adjust_ticks = pos 0;
  previous_sync_rtp = 0;
  previous_sync_ntp = 0;
  video_arrival = zero_arrival;
  audio_arrival = zero_arrival;
  stats = new_stats generation;
  video_ready = false;
  audio_sync_ready = false;
  audio_ready = false;
  previous_sync_ready = false;
  audio_only = audio_only;
}

unfoldable pub create : Clock
create = cleared 0 false 1

unfoldable pub reset : Clock → Clock
reset c =
    let generation = u32 (c.stats.generation + 1) in
    cleared c.sample_rate c.audio_only (if generation == 0 then 1 else generation)

unfoldable pub ntp_delta_to_90k : ℕ → ℕ → ℤ
ntp_delta_to_90k timestamp anchor =
    let delta = signed64 (u64 (timestamp + u64_mod - anchor)) in
    times (quotient delta 4294967296) time_base
    +ℤ quotient (times (remainder delta 4294967296) time_base) 4294967296

unfoldable pub ntp_to_90k : ℕ → ℤ
ntp_to_90k ntp =
    if ltb (9223372036854775807 / time_base) (ntp / u32_mod)
    then pos 9223372036854775807
    else pos (ntp / u32_mod * time_base + ntp % u32_mod * time_base / 4294967296)

unfoldable pub update_jitter : Arrival → ℤ → ℕ → Arrival
update_jitter a source_pts local_time_us =
    let source_us = quotient (times (source_pts -ℤ a.source_pts) 1000000) time_base in
    let variation = signed64 (u64 (local_time_us + u64_mod - a.local_time_us)) -ℤ source_us in
    record {
      source_pts = source_pts;
      local_time_us = local_time_us;
      jitter_us =
          if a.ready && leb a.local_time_us local_time_us
          then u64 (a.jitter_us * 15 + magnitude variation + 8) / 16
          else a.jitter_us;
      ready = true;
    }

unfoldable pub map_video_ntp : Clock → ℕ → ℤ
map_video_ntp c ntp = c.video_anchor_pts +ℤ ntp_delta_to_90k ntp c.video_anchor_ntp

unfoldable pub update_skew : Clock → Clock
update_skew c =
    let skew = c.last_audio_pts -ℤ c.last_video_pts in
    if not c.video_ready || not c.audio_ready then c else record c {
      stats = record c.stats {
        av_skew_ticks = skew;
        max_abs_av_skew_ticks =
            if ltb (pos_part c.stats.max_abs_av_skew_ticks) (magnitude skew)
            then (if ltb 9223372036854775807 (magnitude skew)
                then pos 9223372036854775807
                else pos (magnitude skew))
            else c.stats.max_abs_av_skew_ticks;
      };
    }

unfoldable pub reset_audio_mapping : Clock → Clock
reset_audio_mapping c = record c {
  audio_sync_ready = false;
  audio_ready = false;
  previous_sync_ready = false;
  audio_adjust_ticks = pos 0;
  audio_arrival = zero_arrival;
}

unfoldable pub set_audio_only : Clock → Bool → Clock
set_audio_only c audio_only = record c { audio_only = audio_only }

unfoldable pub set_audio_rate : Clock → ℕ → Bool × Clock
set_audio_rate c sample_rate =
    let c' =
      if not (c.sample_rate == 0) && not (c.sample_rate == sample_rate)
      then reset_audio_mapping c
      else c in
    if ltb sample_rate 8000 || ltb 192000 sample_rate
    then (false, c)
    else (true, record c' { sample_rate = sample_rate })

-- The ticks that an RTP timestamp has moved on since another, at the sample rate.
abbrev pub rtp_ticks : Clock → ℕ → ℕ → ℤ
rtp_ticks c rtp since = quotient (times (signed32 (sub_u32 rtp since)) time_base) c.sample_rate

-- Without video the first synchronisation is the anchor.
unfoldable pub anchor_audio_only : Clock → ℕ → Clock
anchor_audio_only c ntp =
    if c.audio_only && not c.video_ready
    then record c {
      video_anchor_ntp = ntp;
      video_anchor_pts = pos 0;
      last_video_ntp = ntp;
      last_video_pts = pos 0;
      video_ready = true;
    }
    else c

abbrev pub clamp_correction : ℤ → ℤ
clamp_correction correction =
    if ltb_ℤ (pos max_correction_ticks) correction
    then pos max_correction_ticks
    else if ltb_ℤ correction (negate max_correction_ticks)
    then negate max_correction_ticks
    else correction

-- What a new synchronisation does to the audio adjustment.
unfoldable pub correct_audio : Clock → ℕ → ℕ → Clock × ClockResult
correct_audio c rtp ntp =
    let predicted =
      map_video_ntp c c.audio_sync_ntp
      +ℤ c.audio_adjust_ticks
      +ℤ rtp_ticks c rtp c.audio_sync_rtp in
    let observed = map_video_ntp c ntp in
    let correction = observed -ℤ predicted in
    if not (c.audio_sync_ready && c.video_ready)
    then (c, ok)
    else if ltb sync_jump_ticks (magnitude correction)
    then (
      record c {
        audio_adjust_ticks = pos 0;
        audio_ready = false;
        audio_arrival = zero_arrival;
        stats = record c.stats {
          discontinuities = u64 (c.stats.discontinuities + 1);
          generation = u32 (c.stats.generation + 1);
        };
      },
      discontinuity,
    )
    else if ltb deadband_ticks (magnitude correction)
    then (
      record c {
        audio_adjust_ticks = predicted +ℤ clamp_correction correction -ℤ observed;
        stats = record c.stats { audio_corrections = u64 (c.stats.audio_corrections + 1) };
      },
      ok,
    )
    else (record c { audio_adjust_ticks = predicted -ℤ observed }, ok)

-- The drift between the sender's clocks, in parts per million.
unfoldable pub measure_drift : Clock → ℕ → ℕ → Clock
measure_drift c rtp ntp =
    let rtp_delta = signed32 (sub_u32 rtp c.previous_sync_rtp) in
    let ntp_delta = ntp_delta_to_90k ntp c.previous_sync_ntp in
    let expected = quotient (times ntp_delta c.sample_rate) time_base in
    let observed_ppm = quotient (times (rtp_delta -ℤ expected) 1000000) (pos_part expected) in
    if c.previous_sync_ready
      && ltb_ℤ (pos 0) rtp_delta
      && ltb_ℤ (pos 0) ntp_delta
      && ltb_ℤ ntp_delta (pos (60 * time_base))
      && ltb_ℤ (pos 0) expected
    then record c {
      stats = record c.stats { drift_ppm = quotient (times c.stats.drift_ppm 7 +ℤ observed_ppm) 8 };
    }
    else c

unfoldable pub note_sync : Clock → ℕ → ℕ → Clock
note_sync c rtp ntp = record c {
  previous_sync_rtp = rtp;
  previous_sync_ntp = ntp;
  previous_sync_ready = true;
  audio_sync_rtp = rtp;
  audio_sync_ntp = ntp;
  audio_sync_ready = true;
  stats = record c.stats { audio_sync_updates = u64 (c.stats.audio_sync_updates + 1) };
}

unfoldable pub update_audio_sync : Clock → ℕ → ℕ → Clock × ClockResult
update_audio_sync c rtp ntp =
    let (corrected, result) = correct_audio (anchor_audio_only c ntp) rtp ntp in
    if c.sample_rate == 0 || ntp == 0
    then (c, out_of_range)
    else (note_sync (measure_drift corrected rtp ntp) rtp ntp, result)

-- The timestamp of a frame, and the clock before it notes the frame.
unfoldable pub place_video : Clock → ℕ → ℤ × Clock × ClockResult
place_video c ntp =
    let delta = ntp_delta_to_90k ntp c.last_video_ntp in
    let after_last = c.last_video_pts +ℤ pos 1 in
    let mapped = map_video_ntp c ntp in
    let pts = if ltb_ℤ c.last_video_pts mapped then mapped else after_last in
    if not c.video_ready
    then (
      pos 0,
      record c { video_anchor_ntp = ntp; video_anchor_pts = pos 0; video_ready = true },
      ok,
    )
    else if ltb_ℤ delta (negate video_backward_ticks) || ltb_ℤ (pos video_forward_ticks) delta
    then (
      after_last,
      record (reset_audio_mapping c) {
        video_anchor_ntp = ntp;
        video_anchor_pts = after_last;
        stats = record c.stats {
          discontinuities = u64 (c.stats.discontinuities + 1);
          generation = u32 (c.stats.generation + 1);
        };
      },
      discontinuity,
    )
    else (pts, c, ok)

abbrev pub note_video : Clock → ℕ → ℤ → ℕ → Clock
note_video c ntp pts local_time_us =
    let arrival = update_jitter c.video_arrival pts local_time_us in
    update_skew (record c {
      last_video_ntp = ntp;
      last_video_pts = pts;
      video_arrival = arrival;
      stats = record c.stats { video_jitter_us = arrival.jitter_us };
    })

-- The result and, where a timestamp is given out, the timestamp.
unfoldable pub map_video : Clock → ℕ → ℕ → Clock × ClockResult × Option ℤ
map_video c ntp local_time_us =
    let (pts, placed, result) = place_video c ntp in
    if ntp == 0
    then (c, out_of_range, none)
    else (note_video placed ntp pts local_time_us, result, some pts)

abbrev pub note_audio : Clock → ℤ → ℕ → Clock
note_audio c pts local_time_us =
    let arrival = update_jitter c.audio_arrival pts local_time_us in
    update_skew (record c {
      last_audio_pts = pts;
      audio_ready = true;
      audio_arrival = arrival;
      stats = record c.stats { audio_jitter_us = arrival.jitter_us };
    })

unfoldable pub map_audio : Clock → ℕ → ℕ → Clock × ClockResult × Option ℤ
map_audio c rtp local_time_us =
    let candidate =
      map_video_ntp c c.audio_sync_ntp
      +ℤ c.audio_adjust_ticks
      +ℤ rtp_ticks c rtp c.audio_sync_rtp in
    let noted = record c { stats = record c.stats { candidate_audio_pts = candidate } } in
    let pts =
      if c.audio_ready && not (ltb_ℤ c.last_audio_pts candidate)
      then c.last_audio_pts +ℤ pos 1
      else candidate in
    if c.sample_rate == 0
    then (c, out_of_range, none)
    else if not c.video_ready || not c.audio_sync_ready
    then (
      record c {
        stats = record c.stats { unsynced_audio_drops = u64 (c.stats.unsynced_audio_drops + 1) };
      },
      waiting_for_sync,
      none,
    )
    else if ltb_ℤ candidate (pos 0)
        || (c.video_ready && ltb max_skew_ticks (magnitude (candidate -ℤ c.last_video_pts)))
    then (
      record noted {
        stats = record noted.stats { skew_audio_drops = u64 (c.stats.skew_audio_drops + 1) };
      },
      out_of_range,
      none,
    )
    else (note_audio noted pts local_time_us, ok, some pts)

pub record Timeline : Type 0 where
  pub anchor_ntp : ℕ
  pub anchor_pts : ℤ
  pub last_ntp : ℕ
  pub last_pts : ℤ

unfoldable pub get_video_timeline : Clock → Option Timeline
get_video_timeline c =
    if not c.video_ready
    then none
    else some (record {
      anchor_ntp = c.video_anchor_ntp;
      anchor_pts = c.video_anchor_pts;
      last_ntp = c.last_video_ntp;
      last_pts = c.last_video_pts;
    })

abbrev pub ℤ_eq : ℤ → ℤ → Bool
ℤ_eq a b = not (ltb_ℤ a b) && not (ltb_ℤ b a)

unfoldable pub set_video_timeline : Clock → Timeline → Clock
set_video_timeline c t =
    let c' =
      if c.video_ready
        && (not (c.video_anchor_ntp == t.anchor_ntp) || not (ℤ_eq c.video_anchor_pts t.anchor_pts))
      then reset_audio_mapping c
      else c in
    record c' {
      audio_only = false;
      video_ready = true;
      video_anchor_ntp = t.anchor_ntp;
      video_anchor_pts = t.anchor_pts;
      last_video_ntp = t.last_ntp;
      last_video_pts = t.last_pts;
    }
