-- ===== src/Airplay/MirrorClock/Tests.antt =====
-- The mirror clock at concrete inputs.
use nx_cast.Base.{◌≡◌, refl, true, false, some, List, [], ◌∷◌}
use nx_cast.Base.Int.{pos, ◌≤ℤ◌, ◌<ℤ◌, ◌+ℤ◌, ◌-ℤ◌, times, quotient, remainder}
use nx_cast.Airplay.MirrorClock.{
  Clock, cleared, map_audio, map_video_ntp, ntp_delta_to_90k, update_jitter, update_skew,
}
use nx_cast.Airplay.MirrorClock.Order.{
  Call, video, audio, sync, rate, frames, Increasing, frames-Increasing, map_audio_lem,
}

-- Anchored at second 100, with audio at 44.1 kHz synchronised there.
abbrev anchored : Clock
anchored = record (cleared 44100 false 1) {
  video_anchor_ntp = 429496729600;
  last_video_ntp = 429496729600;
  video_ready = true;
  audio_sync_rtp = 1000;
  audio_sync_ntp = 429496729600;
  audio_sync_ready = true;
}

-- A frame a second later, a sender that jumps back, a new rate and a frame without a timestamp.
abbrev stream : List Call
stream =
    video 433791696896 10
    ∷ audio 45100 20
    ∷ video 5 30
    ∷ sync 46000 6
    ∷ rate 48000
    ∷ video 0 40
    ∷ video 7 50
    ∷ []

frames-Increasing_example : Increasing (pos 0) (frames anchored stream)
frames-Increasing_example = frames-Increasing anchored stream refl

-- One second of audio later.
map_audio_second : (map_audio anchored 45100 20).2 ≡ some (pos 90000)
unfolding map_audio map_video_ntp ntp_delta_to_90k times quotient remainder ◌+ℤ◌ ◌-ℤ◌ update_jitter
    update_skew
map_audio_second = refl

map_audio_lem_example :
    (pos 0 ≤ℤ pos 90000)
    × ((map_audio anchored 45100 20).0.last_audio_pts ≡ pos 90000)
    × (anchored.audio_ready ≡ true → anchored.last_audio_pts <ℤ pos 90000)
map_audio_lem_example = map_audio_lem anchored 45100 20 (pos 90000) map_audio_second
