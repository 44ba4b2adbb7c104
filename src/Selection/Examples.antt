-- ===== src/Selection/Examples.antt =====
-- Three files, of which the middle one is too large.
use ai_brain.Prelude.{ℕ, ◌≡◌, refl, String, false, none, List, [], ◌∷◌, filter}
use ai_brain.Paths.{codes, text_beq, lower, path_of, suffix, name}
use ai_brain.Selection.{SelectionEnvelope, select, order_by_path}
use ai_brain.Selection.Policy.{
  ClassifiedCandidate, classify, classify_workload_category, normalize_suffix, matches,
  text_document_batch_policy, loose_file, text_document,
}
use ai_brain.Selection.Walk.{Takes, select-Takes}
use ai_brain.Selection.Order.{swap, select-Reordered}

-- A conflict copy of a text.
conflict_test : classify_workload_category (codes "/d/n.TXT_12") none loose_file ≡ text_document
unfolding classify_workload_category normalize_suffix path_of suffix name lower
conflict_test = refl

abbrev candidate : String → ℕ → ClassifiedCandidate
candidate path size = classify (record {
  root_t7_path = codes path;
  member_path = none;
  declared_size_bytes = size;
  d1_duplicate_group_id = none;
})

abbrev envelope : SelectionEnvelope
envelope = record { max_source_instances = 5; max_source_bytes = 100 }

abbrev three : List ClassifiedCandidate
three = candidate "b.txt" 90 ∷ candidate "a.txt" 20 ∷ candidate "c.txt" 1 ∷ []

select-Takes_example :
    Takes envelope 0 0 (order_by_path (filter (matches (text_document_batch_policy "1")) three)) (
      (select three (text_document_batch_policy "1") envelope).selected,
      (select three (text_document_batch_policy "1") envelope).source_bytes_selected,
    )
select-Takes_example = select-Takes three (text_document_batch_policy "1") envelope

different :
    text_beq
      (candidate "b.txt" 90).observation.root_t7_path
      (candidate "a.txt" 20).observation.root_t7_path
    ≡ false
unfolding classify
different = refl

select-Reordered_example :
    select three (text_document_batch_policy "1") envelope
    ≡ select
        (candidate "a.txt" 20 ∷ candidate "b.txt" 90 ∷ candidate "c.txt" 1 ∷ [])
        (text_document_batch_policy "1")
        envelope
select-Reordered_example =
    select-Reordered (text_document_batch_policy "1") envelope
      (swap (candidate "b.txt" 90) (candidate "a.txt" 20) (candidate "c.txt" 1 ∷ []) different)
