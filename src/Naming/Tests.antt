-- ===== src/Naming/Tests.antt =====
-- Runs of the search for a name (tikrec/output_naming.py).
use tik_rec.Base.{◌≡◌, refl, some, ◌++◌, ok, err}
use tik_rec.Text.{codes, text_eq}
use tik_rec.Identity.{validate_creator_handle}
use tik_rec.Naming.{
  bad_creator, PathSystem, digits_of, decimal, padded, Moment, timestamp_text, name_suffix,
  output_at, is_free, search, available_paths, monitored_recording_paths,
}
use tik_rec.Naming.First.{HasSearched, available_paths-HasSearched}

-- A directory in which the first candidate is there.
abbrev one_there : PathSystem
one_there = record {
  join = λ base name. base ++ (codes "/" ++ name);
  parent = λ path. codes "/out";
  parts_path = λ path. path ++ codes ".parts";
  occupied = λ path. some (text_eq path (codes "/out/ann-20260102-030405.mp4"));
}

abbrev moment : Moment
moment = record { year = 2026; month = 1; day = 2; hour = 3; minute = 4; second = 5 }

second_name :
    monitored_recording_paths one_there (codes "/out") (codes "ann") moment
    ≡ ok (codes "/out/ann-20260102-030405-2.mp4", codes "/out/ann-20260102-030405-2.mp4.parts")
unfolding digits_of decimal padded timestamp_text name_suffix output_at is_free search
    available_paths monitored_recording_paths validate_creator_handle
second_name = refl

no_creator :
    monitored_recording_paths one_there (codes "/out") (codes "Ann!") moment ≡ err bad_creator
unfolding monitored_recording_paths validate_creator_handle
no_creator = refl

available_paths-HasSearched_example :
    HasSearched one_there
      (codes "/out")
      (codes "ann-20260102-030405")
      1
      1000
      (available_paths one_there (codes "/out") (codes "ann-20260102-030405"))
available_paths-HasSearched_example =
    available_paths-HasSearched one_there (codes "/out") (codes "ann-20260102-030405")
