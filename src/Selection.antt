-- ===== src/Selection.antt =====
-- Which discovered files a batch takes: backend/app/classification/policy_evaluator.py and
-- deterministic_selector.py. A text is the list of its code points, compared as Python compares them.
pub mod Policy
pub mod Order
pub mod Walk
mod Examples
use ai_brain.Prelude.{
  ℕ, ◌+◌, Bool, true, false, Option, none, some, List, [], ◌∷◌, if◌then◌else◌, ◌==◌, ltb, leb,
  length, filter,
}
use ai_brain.Paths.{Text}
use ai_brain.Selection.Policy.{CandidateObservation, ClassifiedCandidate, BatchClassPolicy, matches}

pub record SelectionEnvelope : Type 0 where
  pub max_source_instances : ℕ
  pub max_source_bytes : ℕ

pub record SelectionResult : Type 0 where
  pub eligible_count : ℕ
  pub policy_filtered_count : ℕ
  pub selectable_count : ℕ
  pub selected : List ClassifiedCandidate
  pub source_bytes_selected : ℕ

abbrev pub path_of_candidate : ClassifiedCandidate → Text
path_of_candidate c = c.observation.root_t7_path

abbrev pub size_of : ClassifiedCandidate → ℕ
size_of c = c.observation.declared_size_bytes

-- The order of two texts by their first different code point, a prefix first.
unfoldable pub text_leq : Text → Text → Bool
text_leq [] t = true
text_leq (a ∷ s) [] = false
text_leq (a ∷ s) (b ∷ t) = let rest = text_leq s t in if a == b then rest else ltb a b

-- `sorted` by path, which is stable.
unfoldable pub insert_by_path :
    ClassifiedCandidate → List ClassifiedCandidate → List ClassifiedCandidate
unfolding text_leq
insert_by_path c [] = c ∷ []
insert_by_path c (d ∷ ds) =
    let rest = insert_by_path c ds in
    if text_leq (path_of_candidate c) (path_of_candidate d) then c ∷ d ∷ ds else d ∷ rest

unfoldable pub order_by_path : List ClassifiedCandidate → List ClassifiedCandidate
unfolding insert_by_path
order_by_path [] = []
order_by_path (c ∷ cs) = insert_by_path c (order_by_path cs)

-- The walk over the ordered candidates, after `count` of them with `running_bytes`: what it selects,
-- and all the bytes at its end.
unfoldable pub walk :
    SelectionEnvelope → ℕ → ℕ → List ClassifiedCandidate → List ClassifiedCandidate × ℕ
walk e count running_bytes [] = ([], running_bytes)
walk e count running_bytes (c ∷ cs) =
    let rest = walk e (count + 1) (running_bytes + size_of c) cs in
    if ltb e.max_source_instances (count + 1)
    then ([], running_bytes)
    else if ltb e.max_source_bytes (running_bytes + size_of c)
    then ([], running_bytes)
    else (c ∷ rest.0, rest.1)

unfoldable pub select :
    List ClassifiedCandidate → BatchClassPolicy → SelectionEnvelope → SelectionResult
unfolding order_by_path walk
select candidates policy e =
    let policy_filtered = filter (matches policy) candidates in
    let walked = walk e 0 0 (order_by_path policy_filtered) in
    record {
      eligible_count = length candidates;
      policy_filtered_count = length policy_filtered;
      selectable_count = length (filter (λ c. leb (size_of c) e.max_source_bytes) policy_filtered);
      selected = walked.0;
      source_bytes_selected = walked.1;
    }
