-- ===== src/Dedup/Executor.antt =====
-- The filesystem executor: backend/app/dedup/executor.py.
pub mod Yielding
pub mod Accepting
pub mod Constructing
pub mod Settling
pub mod Loop
pub mod Ordering
pub mod Completion
pub mod Evidence
pub mod Ensuring
pub mod Success
use ai_brain.Prelude.{
  ℕ, ◌+◌, String, Bool, true, false, not, ◌&&◌, ◌||◌, Option, none, some, List, [], ◌∷◌, ◌++◌, map,
  if◌then◌else◌, ◌==◌, ltb, leb, opt_eq, filter, any, is_none, is_some, is_empty, text_eq, find,
  modify, Keyed,
}
use ai_brain.Paths.{Text, FilePath, codes, path_of, name, is_relative_to, decimal}
use ai_brain.Dedup.Records.{
  Database, DedupExecutionPlan, DedupExecutionPlanAction, DedupPlanAuthorization, DedupExecution,
  DedupExecutionActionResult, success, precondition_failed, failed_action, not_attempted, unknown,
  plan_keyed, plan_action_keyed, execution_keyed,
}
use ai_brain.Dedup.Exec.{
  Exec, Sys, Result, ok, err, Error, not_confirmed, not_running, already_claimed, already_audited,
  os_error, pure, raise, gets, required, guard, commit, ◌>>=◌, ◌>>◌, catch, maybe, choose,
}
use ai_brain.Dedup.Os.{Os, Stat, os, attempt, counted}
use ai_brain.Dedup.Plans.{
  FileObservation, opt_text_eq, observe_path, actions_of, ActionValidity, PlanValidity,
}
use ai_brain.Dedup.Authorizations.{is_authorized, check_currency}
use ai_brain.Dedup.Executions.{
  is_running, Report, bare, record_action_result, complete_execution, audits_of, accept_finalized,
  get_execution_or_raise,
}

-- The fields that the constructor leaves.
pub record DedupFilesystemExecutor : Type 0 where
  pub allowed_root : FilePath
  pub quarantine_root : FilePath
  pub quarantine_device : ℕ

pub record PinnedIdentity : Type 0 where
  pub device : ℕ
  pub inode : ℕ
  pub content_hash : String
  pub file_size : ℕ

-- The rows of a plan in ascending order of their ids.
unfoldable pub insert_by_id :
    DedupExecutionPlanAction → List DedupExecutionPlanAction → List DedupExecutionPlanAction
insert_by_id a [] = a ∷ []
insert_by_id a (b ∷ bs) = if leb a.id b.id then a ∷ b ∷ bs else b ∷ insert_by_id a bs

unfoldable pub order_by_id : List DedupExecutionPlanAction → List DedupExecutionPlanAction
unfolding insert_by_id
order_by_id [] = []
order_by_id (a ∷ as') = insert_by_id a (order_by_id as')

unfoldable pub action_validity : ℕ → List ActionValidity → Option ActionValidity
action_validity id [] = none
action_validity id (v ∷ vs) = if v.action_id == id then some v else action_validity id vs

abbrev pub valid_for : Option ActionValidity → Bool
valid_for none = false
valid_for (some v) = v.is_valid

-- `self.quarantine_root / str(execution.id) / f"{plan_action.id}__{source_path.name}"`
unfoldable pub parent_of : FilePath → ℕ → FilePath
parent_of root execution_id = root ++ decimal execution_id ∷ []

unfoldable pub destination_of : FilePath → ℕ → ℕ → FilePath → FilePath
unfolding parent_of
destination_of root execution_id action_id source =
    parent_of root execution_id ++ (decimal action_id ++ codes "__" ++ name source) ∷ []

unfoldable pub claim : ℕ → DedupExecution → DedupExecution
claim now e = record e { claimed_at = some now }

abbrev pub precondition_report : Report
precondition_report = bare precondition_failed (some false)

abbrev pub failure_report : Report
failure_report = bare failed_action (some false)

abbrev pub unknown_report : FileObservation → Report
unknown_report seen = record (bare unknown none) {
  observed_content_hash = seen.content_hash;
  observed_file_size = seen.file_size;
}

abbrev pub success_report : FileObservation → Report
success_report seen = record (bare success (some true)) {
  observed_content_hash = seen.content_hash;
  observed_file_size = seen.file_size;
}

abbrev pub pinned_of : Stat → String → PinnedIdentity
pinned_of st digest = record {
  device = st.st_dev;
  inode = st.st_ino;
  content_hash = digest;
  file_size = st.st_size;
}

-- The pinned file has the hash and the size of the plan.
unfoldable pub matches_plan : PinnedIdentity → DedupExecutionPlanAction → Bool
matches_plan pin p =
    opt_text_eq (some pin.content_hash) p.observed_content_hash
    && opt_eq (some pin.file_size) p.observed_file_size

-- What is looked at after the rename.
pub record PostMove : Type 0 where
  pub destination_is_symlink : Bool
  pub destination_is_regular_file : Bool
  pub source_still_present : Bool
  pub post_observation : FileObservation
  pub destination_stat : Option Stat

unfoldable pub destination_hash_matches : DedupExecutionPlanAction → PostMove → Bool
destination_hash_matches p m =
    m.post_observation.exists
    && opt_text_eq m.post_observation.content_hash p.observed_content_hash
    && opt_eq m.post_observation.file_size p.observed_file_size

unfoldable pub identity_matches : PinnedIdentity → Option Stat → Bool
identity_matches pin none = false
identity_matches pin (some st) = st.st_dev == pin.device && st.st_ino == pin.inode

unfoldable pub verification_passed : DedupExecutionPlanAction → PinnedIdentity → PostMove → Bool
unfolding destination_hash_matches identity_matches
verification_passed p pin m =
    not m.source_still_present
    && m.destination_is_regular_file
    && not m.destination_is_symlink
    && destination_hash_matches p m
    && identity_matches pin m.destination_stat

unfoldable pub is_canonical : Option DedupExecutionPlan → DedupExecutionPlanAction → Bool
is_canonical none p = true
is_canonical (some plan) p = text_eq p.document_id plan.canonical_document_id

module _ {W : Type 0} (sys : Os W) where
  -- `_pin_and_hash`: one descriptor is opened, stated and read; `none` is an `OSError`.
  unfoldable pub pin_and_hash : FilePath → Exec W (Option PinnedIdentity)
  pin_and_hash path = do
    answer ← attempt (sys.open_and_hash path)
    maybe answer (pure none)
        λ (st, digest). if st.is_regular then pure (some (pinned_of st digest)) else pure none

  -- `_is_within`
  unfoldable pub is_within : FilePath → FilePath → Exec W Bool
  is_within path root = do
    p ← attempt (sys.resolve path)
    maybe p (pure false)
        λ p. do r ← attempt (sys.resolve root); maybe r (pure false) λ r. pure (is_relative_to p r)

  -- Every report of an action is one call of this; the answer says whether to go on.
  unfoldable pub settle : DedupExecution → DedupExecutionPlanAction → Report → Bool → Exec W Bool
  settle e p r go_on = do record_action_result e.id p.id r; pure go_on

  -- `_refuse`
  unfoldable pub refuse : DedupExecution → DedupExecutionPlanAction → Exec W Bool
  refuse e p = settle e p precondition_report false

  -- Steps 15 and 16.
  unfoldable pub verify_move :
      DedupExecution → DedupExecutionPlanAction → PinnedIdentity → FilePath → FilePath → Exec W Bool
  verify_move e p pin source destination = do
    is_symlink ← os (sys.is_symlink destination)
    is_file ← os (sys.is_file destination)
    present ← os (sys.exists source)
    seen ← observe_path sys destination
    st ← attempt (sys.lstat destination)
    let passed = verification_passed p pin (record {
      destination_is_symlink = is_symlink;
      destination_is_regular_file = is_file && not is_symlink;
      source_still_present = present;
      post_observation = seen;
      destination_stat = st;
    })
    choose passed (settle e p (success_report seen) true) (settle e p (unknown_report seen) false)

  -- Steps 13 and 14.
  unfoldable pub move_source :
      DedupFilesystemExecutor
      → DedupExecution
      → DedupExecutionPlanAction
      → PinnedIdentity
      → FilePath
      → Exec W Bool
  move_source x e p pin source = do
    let parent = parent_of x.quarantine_root e.id
    let destination = destination_of x.quarantine_root e.id p.id source
    taken ← os (sys.exists destination)
    choose taken (settle e p failure_report false) (do
      os (sys.mkdir parent)
      st ← os (sys.stat parent)
      choose (not (st.st_dev == x.quarantine_device)) (settle e p failure_report false) (do
        moved ← counted (sys.rename source destination)
        maybe moved (settle e p failure_report false) λ _. verify_move e p pin source destination))

  -- Steps 10 to 12.
  unfoldable pub pin_source :
      DedupFilesystemExecutor → DedupExecution → DedupExecutionPlanAction → FilePath → Exec W Bool
  pin_source x e p source = do
    pinned ← pin_and_hash source
    maybe pinned (refuse e p) λ pin. choose (not (matches_plan pin p)) (refuse e p) (
        choose (not (pin.device == x.quarantine_device)) (refuse e p)
          (move_source x e p pin source))

  -- Steps 7 to 9.
  unfoldable pub inspect_source :
      DedupFilesystemExecutor → DedupExecution → DedupExecutionPlanAction → FilePath → Exec W Bool
  inspect_source x e p source = do
    st ← attempt (sys.stat source)
    maybe st (refuse e p) λ st. do
      is_file ← os (sys.is_file source)
      choose (not is_file) (refuse e p)
          (choose (ltb 1 st.st_nlink) (refuse e p) (pin_source x e p source))

  -- Steps 5 and 6: the link is looked for on the path as it is written.
  unfoldable pub locate_source :
      DedupFilesystemExecutor → DedupExecution → DedupExecutionPlanAction → Exec W Bool
  locate_source x e p = do
    let original = path_of (codes p.source_path)
    is_symlink ← os (sys.is_symlink original)
    choose is_symlink (refuse e p) (do
      resolved ← attempt (sys.resolve_strict original)
      maybe resolved (refuse e p) λ source. do
        inside ← is_within source x.allowed_root
        choose (not inside) (refuse e p) (inspect_source x e p source))

  -- Every read is fresh: the database is the state, and nothing of it is kept from earlier.
  unfoldable pub attempt_action :
      DedupFilesystemExecutor → DedupExecution → DedupExecutionPlanAction → Exec W Bool
  attempt_action x e p = do
    plan ← gets (λ db. find e.plan_id db.plans)
    choose (is_canonical plan p) (refuse e p) (do
      (a, validity, _) ← check_currency sys e.authorization_id
      choose (not (is_authorized a.status)) (refuse e p) (
          choose
            (not validity.canonical_valid
              || not (valid_for (action_validity p.id validity.actions)))
            (refuse e p) (locate_source x e p)))

  -- `except Exception` around an attempt: UNKNOWN is recorded, unless a result already is.
  unfoldable pub last_resort : ℕ → DedupExecutionPlanAction → Error → Exec W Bool
  last_resort execution_id p _ = do
    catch (record_action_result execution_id p.id (bare unknown none)) (λ _. pure tt)
    pure false

  -- The loop of `execute`: after the first action that did not succeed nothing is attempted.
  unfoldable pub run_actions :
      DedupFilesystemExecutor
      → DedupExecution
      → Bool
      → List DedupExecutionPlanAction
      → Exec W (Unit {0})
  run_actions x e stop [] = pure tt
  run_actions x e true (p ∷ rest) = do
    record_action_result e.id p.id (bare not_attempted (some false))
    run_actions x e true rest
  run_actions x e false (p ∷ rest) = do
    go_on ← catch (attempt_action x e p) (last_resort e.id p)
    run_actions x e (not go_on) rest

  -- One transaction under the row lock.
  unfoldable pub claim_execution : ℕ → ℕ → Exec W DedupExecution
  claim_execution now execution_id = do
    e ← get_execution_or_raise execution_id
    guard (is_running e.status) not_running
    guard (is_none e.claimed_at) already_claimed
    commit (λ db. record db { executions = modify execution_id (claim now) db.executions })
    get_execution_or_raise execution_id

  -- Two readings of the clock, of the claim and of the end.
  unfoldable pub execute : DedupFilesystemExecutor → ℕ → ℕ → ℕ → Bool → Exec W (Unit {0})
  execute x now later execution_id confirm = do
    guard confirm not_confirmed
    e ← claim_execution now execution_id
    existing ← gets (audits_of execution_id)
    guard (is_empty existing) already_audited
    planned ← gets (λ db. order_by_id (actions_of e.plan_id db))
    run_actions x e false planned
    catch (complete_execution later execution_id) (accept_finalized sys execution_id)
