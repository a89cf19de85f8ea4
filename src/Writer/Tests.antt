-- ===== src/Writer/Tests.antt =====
-- Runs of the part writer (tikrec/writer.py).
use tik_rec.Base.{ℕ, ◌≡◌, refl, false, none, List, [], ◌∷◌, ltb}
use tik_rec.Flv.{FlvTag, encoded, is_configuration, is_media, is_avc_configuration}
use tik_rec.Flv.Bytes.{to_bytes}
use tik_rec.Writer.{
  Environment, write_tag, write_media, start_part, media_tag, note_first_media, is_video_keyframe,
  write_audio_configuration, append_encoded, count_and_observe,
}
use tik_rec.Writer.Events.{observe_timestamp}
use tik_rec.Writer.Run.{
  write_parts, run_tags, step, dispatch, note_metadata, other_part, replace_part, close_part,
  close_open, settle_part, report_closed, part_timing, open_part, is_current, finish_all,
}
use tik_rec.Writer.Recordings.{Retained, write_parts-Retained}

abbrev disk : Environment
disk = record {
  taken_at_open = λ i. false;
  taken_at_close = λ i. ltb 7 i;
  metadata_frame_rate = λ b. none;
  avc_configuration_facts = λ b. record { width = none; height = none; rate = none };
}

abbrev video : ℕ → List ℕ → FlvTag
video at payload = record {
  tag_type = 9;
  timestamp = at;
  stream_id = 0 ∷ 0 ∷ 0 ∷ [];
  payload = payload;
}

abbrev config_a : FlvTag
config_a = video 0 (0x17 ∷ 0 ∷ 0 ∷ 0 ∷ 0 ∷ 1 ∷ [])

abbrev config_b : FlvTag
config_b = video 0 (0x17 ∷ 0 ∷ 0 ∷ 0 ∷ 0 ∷ 2 ∷ [])

abbrev key_at : ℕ → FlvTag
key_at t = video t (0x17 ∷ 1 ∷ [])

abbrev inter_at : ℕ → FlvTag
inter_at t = video t (0x27 ∷ 1 ∷ [])

-- Two renditions: the inter frame before the first keyframe is withheld.
abbrev tags : List FlvTag
tags = config_a ∷ inter_at 90 ∷ key_at 100 ∷ inter_at 133 ∷ config_b ∷ key_at 200 ∷ []

write_parts-paths : (write_parts disk 5 tags false).1.paths ≡ 5 ∷ 6 ∷ []
unfolding write_parts run_tags step dispatch note_metadata replace_part other_part open_part
    close_part close_open settle_part report_closed part_timing finish_all is_current media_tag
    start_part write_media write_tag write_audio_configuration append_encoded count_and_observe
    note_first_media is_video_keyframe is_avc_configuration is_configuration is_media encoded
    to_bytes observe_timestamp
write_parts-paths = refl

write_parts-Retained_example : Retained 5 (write_parts disk 5 tags false)
write_parts-Retained_example = write_parts-Retained disk 5 tags false
