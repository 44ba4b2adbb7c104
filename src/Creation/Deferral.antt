-- ===== src/Creation/Deferral.antt =====
-- One archive of each group of duplicates: `select_archive_duplicate_deferrals` of
-- backend/app/classification/deterministic_selector.py.
use ai_brain.Prelude.{Bool, true, false, none, some, List, [], ◌∷◌, any, filter, if◌then◌else◌}
use ai_brain.Paths.{Text, text_beq}
use ai_brain.Selection.{order_by_path}
use ai_brain.Selection.Policy.{ClassifiedCandidate, SourceCategory, archive}

abbrev pub is_archive_category : SourceCategory → Bool
is_archive_category archive = true
is_archive_category _ = false

-- The walk over the ordered archives; `chosen` are the groups that have their representative.
unfoldable pub deferrals : List Text → List ClassifiedCandidate → List Text
deferrals chosen [] = []
deferrals chosen (c ∷ cs) = elim c.observation.d1_duplicate_group_id [
  | none ↦ deferrals chosen cs
  | some g ↦
      if any (text_beq g) chosen
      then c.observation.root_t7_path ∷ deferrals chosen cs
      else deferrals (g ∷ chosen) cs
]

unfoldable pub select_archive_duplicate_deferrals : List ClassifiedCandidate → List Text
unfolding deferrals
select_archive_duplicate_deferrals candidates =
    deferrals [] (order_by_path (filter (λ c. is_archive_category c.source_category) candidates))
