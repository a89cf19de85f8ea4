-- ===== src/Gaps/Tests.antt =====
-- A log with two media connections (tikrec/gap_analysis.py), its times in whole seconds.
use tik_rec.Base.{◌≡◌, refl, Option, none, some, List, [], ◌∷◌}
use tik_rec.Base.Int.{ℤ, pos, ◌+ℤ◌, ◌-ℤ◌}
use tik_rec.Text.{codes}
use tik_rec.Gaps.{
  Line, ReconnectGap, Classification, ordinary, network_recovery, event_class, outcome_class,
  classify, count_distinct, difference, connection_record, media_record, event_labels,
  failed_attempts, gap_with, gap_between, media_from, gaps_of, analyze_records,
}

abbrev minus : ℤ → ℤ → ℤ
minus a b = a -ℤ b

abbrev plus : ℤ → ℤ → ℤ
plus a b = a +ℤ b

abbrev first_line : Line ℤ
first_line = record {
  event = none;
  connection = some 1;
  outcome = some (codes "closed");
  reason = none;
  phase = none;
  started_at = some (pos 0);
  resolved_at = some (pos 1);
  http_opened_at = some (pos 2);
  first_media_tag_at = some (pos 3);
  first_retained_media_at = some (pos 4);
  last_retained_media_at = some (pos 10);
  ended_at = some (pos 12);
}

abbrev second_line : Line ℤ
second_line = record {
  event = none;
  connection = some 2;
  outcome = some (codes "closed");
  reason = none;
  phase = none;
  started_at = some (pos 13);
  resolved_at = some (pos 15);
  http_opened_at = some (pos 16);
  first_media_tag_at = some (pos 18);
  first_retained_media_at = some (pos 20);
  last_retained_media_at = some (pos 30);
  ended_at = some (pos 31);
}

abbrev outage_line : Line ℤ
outage_line = record {
  event = some (codes "network_recovery");
  connection = none;
  outcome = none;
  reason = none;
  phase = some (codes "entered");
  started_at = none;
  resolved_at = none;
  http_opened_at = none;
  first_media_tag_at = none;
  first_retained_media_at = none;
  last_retained_media_at = none;
  ended_at = none;
}

abbrev classes_of : Option (List (ReconnectGap ℤ)) → List (Classification × Option ℤ)
classes_of none = []
classes_of (some []) = []
classes_of (some (g ∷ gs)) = (g.classification, g.total_gap_seconds) ∷ []

plain_gap :
    classes_of (analyze_records ℤ minus (first_line ∷ second_line ∷ []))
    ≡ (ordinary, some (pos 10)) ∷ []
unfolding ◌-ℤ◌ event_class outcome_class classify count_distinct difference connection_record
    media_record event_labels failed_attempts gap_with gap_between media_from gaps_of
    analyze_records
plain_gap = refl

outage_gap :
    classes_of (analyze_records ℤ minus (first_line ∷ outage_line ∷ second_line ∷ []))
    ≡ (network_recovery, some (pos 10)) ∷ []
unfolding ◌-ℤ◌ event_class outcome_class classify count_distinct difference connection_record
    media_record event_labels failed_attempts gap_with gap_between media_from gaps_of
    analyze_records
outage_gap = refl
