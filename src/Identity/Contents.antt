-- ===== src/Identity/Contents.antt =====
-- One group for each content, and the content of an instance, written once:
-- backend/app/classification/content_identity_service.py; and which files are eligible:
-- eligibility_service.py, with the first state of their groups from workspace.py.
use ai_brain.Prelude.{
  ℕ, String, Bool, true, false, ◌&&◌, Option, none, some, List, [], ◌∷◌, ◌++◌, is_none,
  if◌then◌else◌, next_id, find, find_by, modify, text_eq, any,
}
use ai_brain.Paths.{FilePath, codes, text_beq, lower, suffix}
use ai_brain.Claims.Rows.{
  ContentIdentityGroup, ContentIdentityKind, source_bytes, extracted_content, normalized_content,
  ContentIdentityAlgorithm, ContentPipelineState, extracted, SourceInstance, group_keyed,
  instance_keyed,
}
use ai_brain.Claims.Groups.{Store}
use ai_brain.Identity.Attempts.{Answer, returned, value_error}

pub data IngestionEligibility : Type 0 where
  eligible excluded unsupported : IngestionEligibility

abbrev excluded_suffixes : List String
excluded_suffixes = ".c9r" ∷ []

abbrev known_unsupported_suffixes : List String
known_unsupported_suffixes =
    ".bin" ∷ ".exe" ∷ ".dll" ∷ ".jpg" ∷ ".jpeg" ∷ ".png" ∷ ".gif" ∷ ".mp3" ∷ ".mp4" ∷ ".mov" ∷ []

unfoldable pub classify_eligibility : FilePath → IngestionEligibility
unfolding lower suffix
classify_eligibility path =
    let s = lower (suffix path) in
    if any (λ t. text_beq (codes t) s) excluded_suffixes
    then excluded
    else if any (λ t. text_beq (codes t) s) known_unsupported_suffixes
    then unsupported
    else eligible

unfoldable pub initial_pipeline_state_for_eligibility : IngestionEligibility → ContentPipelineState
initial_pipeline_state_for_eligibility excluded = ContentPipelineState.excluded
initial_pipeline_state_for_eligibility unsupported = ContentPipelineState.unsupported
initial_pipeline_state_for_eligibility eligible = extracted

-- What identifies a content; there is one algorithm.
pub record Identity : Type 0 where
  pub kind : ContentIdentityKind
  pub algorithm : ContentIdentityAlgorithm
  pub hash : String

abbrev kind_eq : ContentIdentityKind → ContentIdentityKind → Bool
kind_eq source_bytes source_bytes = true
kind_eq extracted_content extracted_content = true
kind_eq normalized_content normalized_content = true
kind_eq _ _ = false

unfoldable pub is_identified : Identity → ContentIdentityGroup → Bool
is_identified i g = kind_eq g.identity_kind i.kind && text_eq g.identity_hash i.hash

-- `_find`
abbrev pub find_identity : Identity → List ContentIdentityGroup → Option ContentIdentityGroup
find_identity i groups = find_by (is_identified i) groups

abbrev pub new_group : ℕ → Identity → ContentPipelineState → ℕ → ContentIdentityGroup
new_group id i state now = record {
  id = id;
  identity_kind = i.kind;
  identity_algorithm = i.algorithm;
  identity_hash = i.hash;
  pipeline_state = state;
  claimed_by = none;
  claimed_at = none;
  claim_generation = 0;
  reserved_embeddings = none;
  reserved_embeddings_batch_id = none;
  created_at = now;
}

-- `between` is what other sessions commit between the search and the insertion; when one of them
-- inserts the same identity, the unique constraint refuses this insertion and that row is returned.
unfoldable pub get_or_create_group :
    Identity → ContentPipelineState → ℕ → (Store → Store) → Store → ContentIdentityGroup × Store
get_or_create_group i state now between s = elim (find_identity i s.groups) [
  | some g ↦ (g, s)
  | none ↦
      let s' = between s in
      elim (find_identity i s'.groups) [
        | some winner ↦ (winner, s')
        | none ↦
            let g = new_group (next_id s'.groups) i state now in
            (g, record s' { groups = s'.groups ++ g ∷ [] })
      ]
]

abbrev pub assigned : ℕ → SourceInstance → SourceInstance
assigned group_id i = record i { content_identity_group_id = some group_id }

unfoldable pub assign_content_identity : ℕ → ℕ → Store → Answer Unit × Store
assign_content_identity instance_id group_id s = elim (find instance_id s.instances) [
  | none ↦ (value_error, s)
  | some i ↦
      if is_none i.content_identity_group_id
      then (
        returned tt,
        record s { instances = modify instance_id (assigned group_id) s.instances },
      )
      else (value_error, s)
]
