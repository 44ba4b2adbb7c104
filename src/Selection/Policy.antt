-- ===== src/Selection/Policy.antt =====
-- The pure classification of a file by its path and declared size, and the policy of a batch class.
-- Letters are lowered and digits read in ASCII.
use ai_brain.Prelude.{
  ℕ, String, Bool, true, false, not, ◌&&◌, ◌||◌, Option, none, some, List, [], ◌∷◌, if◌then◌else◌,
  ◌==◌, ltb, leb, any, all, is_empty,
}
use ai_brain.Paths.{Text, codes, text_beq, lower, path_of, suffix}

pub data SourceCategory : Type 0 where
  loose_file archive special : SourceCategory

pub data WorkloadCategory : Type 0 where
  text_document structured_data media code software encrypted container unknown_workload :
      WorkloadCategory

pub data RiskTierEstimated : Type 0 where
  low medium high extreme : RiskTierEstimated

pub record CandidateObservation : Type 0 where
  pub root_t7_path : Text
  pub member_path : Option Text
  pub declared_size_bytes : ℕ
  pub d1_duplicate_group_id : Option Text

pub record ClassifiedCandidate : Type 0 where
  pub observation : CandidateObservation
  pub source_category : SourceCategory
  pub workload_category : WorkloadCategory
  pub risk_tier_estimated : RiskTierEstimated

abbrev one_of : List String → Text → Bool
one_of names s = any (λ n. text_beq (codes n) s) names

abbrev archive_suffixes : List String
archive_suffixes = ".zip" ∷ ".7z" ∷ ".gz" ∷ ".rar" ∷ []

abbrev extractable_archive_suffixes : List String
extractable_archive_suffixes = ".zip" ∷ ".7z" ∷ []

abbrev encrypted_workload_suffixes : List String
encrypted_workload_suffixes = ".c9r" ∷ []

abbrev text_document_suffixes : List String
text_document_suffixes = ".txt" ∷ ".md" ∷ ".pdf" ∷ ".docx" ∷ ".pptx" ∷ []

abbrev structured_data_suffixes : List String
structured_data_suffixes = ".json" ∷ ".csv" ∷ []

abbrev media_suffixes : List String
media_suffixes =
    ".mp4" ∷ ".jpg" ∷ ".jpeg" ∷ ".png" ∷ ".gif" ∷ ".mp3" ∷ ".mov" ∷ ".wav" ∷ ".m4a" ∷ []

abbrev software_suffixes : List String
software_suffixes = ".exe" ∷ ".dll" ∷ ".msi" ∷ ".apk" ∷ ".bin" ∷ []

abbrev is_digit : ℕ → Bool
is_digit c = leb b'0' c && leb c b'9'

abbrev is_alphanumeric : ℕ → Bool
is_alphanumeric c = is_digit c || (leb b'a' c && leb c b'z') || (leb b'A' c && leb c b'Z')

-- The letters and digits at the front, and the rest.
span_alphanumeric : Text → Text × Text
span_alphanumeric [] = ([], [])
span_alphanumeric (c ∷ s) =
    let rest = span_alphanumeric s in
    if is_alphanumeric c then (c ∷ rest.0, rest.1) else ([], c ∷ s)

-- `_\d+$`
is_counter : Text → Bool
is_counter [] = false
is_counter (c ∷ digits) = c == b'_' && not (is_empty digits) && all is_digit digits

-- `_CONFLICT_SUFFIX_RE`: the group before the counter, if the suffix matches.
conflict_suffix : Text → Option Text
unfolding span_alphanumeric is_counter
conflict_suffix [] = none
conflict_suffix (c ∷ s) =
    let (stem, rest) = span_alphanumeric s in
    if c == b'.' && not (is_empty stem) && is_counter rest then some (c ∷ stem) else none

abbrev or_else : Option Text → Text → Text
or_else none s = s
or_else (some t) s = t

-- `_normalize_suffix`
unfoldable pub normalize_suffix : Text → Text
unfolding conflict_suffix
normalize_suffix path = let s = lower (suffix (path_of path)) in or_else (conflict_suffix s) s

unfoldable pub classify_source_category : Text → Option Text → SourceCategory
unfolding normalize_suffix
classify_source_category root member =
    if one_of archive_suffixes (normalize_suffix (or_else member root)) then archive else loose_file

unfoldable pub is_extractable_archive_suffix : Text → Option Text → Bool
unfolding normalize_suffix
is_extractable_archive_suffix root member =
    one_of extractable_archive_suffixes (normalize_suffix (or_else member root))

abbrev workload_of : Text → WorkloadCategory
workload_of s =
    if one_of encrypted_workload_suffixes s
    then encrypted
    else if one_of text_document_suffixes s
    then text_document
    else if one_of structured_data_suffixes s
    then structured_data
    else if one_of media_suffixes s
    then media
    else if one_of software_suffixes s
    then software
    else unknown_workload

unfoldable pub classify_workload_category : Text → Option Text → SourceCategory → WorkloadCategory
unfolding normalize_suffix
classify_workload_category root member archive = container
classify_workload_category root member _ = workload_of (normalize_suffix (or_else member root))

unfoldable pub classify_risk_tier_estimated : SourceCategory → ℕ → RiskTierEstimated
classify_risk_tier_estimated archive size =
    if ltb size 10000000
    then low
    else if ltb size 1000000000
    then medium
    else if ltb size 5000000000
    then high
    else extreme
classify_risk_tier_estimated _ size =
    if leb 500000000 size
    then extreme
    else if leb 50000000 size
    then high
    else if leb 1000000 size
    then medium
    else low

-- `classify` of deterministic_selector.py
unfoldable pub classify : CandidateObservation → ClassifiedCandidate
unfolding classify_source_category classify_workload_category classify_risk_tier_estimated
classify o =
    let category = classify_source_category o.root_t7_path o.member_path in
    record {
      observation = o;
      source_category = category;
      workload_category = classify_workload_category o.root_t7_path o.member_path category;
      risk_tier_estimated = classify_risk_tier_estimated category o.declared_size_bytes;
    }

-- A set of categories is its membership test.
pub record BatchClassPolicy : Type 0 where
  pub selection_policy_version : String
  pub allowed_source_categories : SourceCategory → Bool
  pub allowed_workload_categories : WorkloadCategory → Bool
  pub allowed_risk_tiers : RiskTierEstimated → Bool
  pub require_extractable_archive : Bool

abbrev is_archive : SourceCategory → Bool
is_archive archive = true
is_archive _ = false

-- `BatchClassPolicy.matches`
unfoldable pub matches : BatchClassPolicy → ClassifiedCandidate → Bool
unfolding is_extractable_archive_suffix
matches p c =
    if is_archive c.source_category
      && p.require_extractable_archive
      && not (is_extractable_archive_suffix c.observation.root_t7_path c.observation.member_path)
    then false
    else p.allowed_source_categories c.source_category
      && p.allowed_workload_categories c.workload_category
      && p.allowed_risk_tiers c.risk_tier_estimated

abbrev is_loose_file : SourceCategory → Bool
is_loose_file loose_file = true
is_loose_file _ = false

abbrev is_text_or_data : WorkloadCategory → Bool
is_text_or_data text_document = true
is_text_or_data structured_data = true
is_text_or_data _ = false

abbrev is_low_or_medium : RiskTierEstimated → Bool
is_low_or_medium low = true
is_low_or_medium medium = true
is_low_or_medium _ = false

abbrev pub text_document_batch_policy : String → BatchClassPolicy
text_document_batch_policy version = record {
  selection_policy_version = version;
  allowed_source_categories = is_loose_file;
  allowed_workload_categories = is_text_or_data;
  allowed_risk_tiers = is_low_or_medium;
  require_extractable_archive = false;
}
