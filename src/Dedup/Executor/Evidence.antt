-- ===== src/Dedup/Executor/Evidence.antt =====
-- What a reported success stands on: the answers that the operating system gave.
use mathlib.Core.Path.{subst}
use ai_brain.Prelude.{
  ℕ, ◌≤◌, ◌≡◌, refl, ◌∙◌, String, Bool, true, false, not, ◌&&◌, Option, none, some, arith, opt_eq,
  find, inl, inr, Bool-cases, Option-cases,
}
use ai_brain.Paths.{FilePath, path_of, codes, is_relative_to}
use ai_brain.Dedup.Records.{
  Database, DedupExecutionPlanAction, DedupPlanAuthorization, DedupExecution, plan_keyed,
  authorization_keyed,
}
use ai_brain.Dedup.Exec.{Result, ok, err, Sys, pure, continue}
use ai_brain.Dedup.Os.{Os, Stat, Call, os, attempt, actions}
use ai_brain.Dedup.Plans.{
  FileObservation, PlanValidity, opt_text_eq, observe_path, check_plan_validity,
}
use ai_brain.Dedup.Authorizations.{is_authorized, check_currency}
use ai_brain.Dedup.Executor.{
  DedupFilesystemExecutor, PinnedIdentity, verification_passed, destination_hash_matches,
  identity_matches, matches_plan, pinned_of, pin_and_hash, is_within, is_canonical, action_validity,
  valid_for, destination_of,
}

-- At some moment a call answered this.
abbrev pub Saw : {W A : Type 0} → Call W A → A → Type 0
Saw {W} c a = (w : W) × ((c w).0 ≡ some a)

-- After the rename: the source is gone; the destination is a regular file and no link, its hash and
-- size are the plan's, and it is the file that was pinned.
pub record SawMoved {W : Type 0} (sys : Os W) (p : DedupExecutionPlanAction) (pin : PinnedIdentity)
    (source destination : FilePath) : Type 0 where
  pub st : Stat
  pub seen : FileObservation
  pub source_gone : Saw (sys.exists source) false
  pub is_file : Saw (sys.is_file destination) true
  pub no_link : Saw (sys.is_symlink destination) false
  pub identity : Saw (sys.lstat destination) st
  pub same_device : st.st_dev ≡ pin.device
  pub same_inode : st.st_ino ≡ pin.inode
  pub observed : (s t : Sys W) × (observe_path sys destination s ≡ (ok seen, t))
  pub exists : seen.exists ≡ true
  pub same_hash : opt_text_eq seen.content_hash p.observed_content_hash ≡ true
  pub same_size : opt_eq seen.file_size p.observed_file_size ≡ true

-- The path was inside the root, both resolved.
pub record SawInside {W : Type 0} (sys : Os W) (path root : FilePath) : Type 0 where
  pub p : FilePath
  pub r : FilePath
  pub path_resolved : Saw (sys.resolve path) p
  pub root_resolved : Saw (sys.resolve root) r
  pub inside : is_relative_to p r ≡ true

-- What a reported success of one action stands on: the database's rows, and the answers of the
-- operating system.
pub record SafeMove {W : Type 0} (sys : Os W) (db : Database) (x : DedupFilesystemExecutor)
    (e : DedupExecution) (p : DedupExecutionPlanAction) : Type 0 where
  pub authorization : DedupPlanAuthorization
  pub validity : PlanValidity
  pub source : FilePath
  pub source_stat : Stat
  pub pinned_stat : Stat
  pub digest : String
  pub not_canonical : is_canonical (find e.plan_id db.plans) p ≡ false
  pub found : find e.authorization_id db.authorizations ≡ some authorization
  pub stands : is_authorized authorization.status ≡ true
  pub checked :
      (s t : Sys W) × (s.db ≡ db)
      × (check_plan_validity sys authorization.plan_id s ≡ (ok validity, t))
  pub canonical_valid : validity.canonical_valid ≡ true
  pub action_valid : valid_for (action_validity p.id validity.actions) ≡ true
  pub no_link : Saw (sys.is_symlink (path_of (codes p.source_path))) false
  pub resolved : Saw (sys.resolve_strict (path_of (codes p.source_path))) source
  pub inside : SawInside sys source x.allowed_root
  pub stated : Saw (sys.stat source) source_stat
  pub one_link : source_stat.st_nlink ≤ 1
  pub pinned : Saw (sys.open_and_hash source) (pinned_stat, digest)
  pub regular : pinned_stat.is_regular ≡ true
  pub as_planned : matches_plan (pinned_of pinned_stat digest) p ≡ true
  pub same_device : pinned_stat.st_dev ≡ x.quarantine_device
  pub free : Saw (sys.exists (destination_of x.quarantine_root e.id p.id source)) false
  pub renamed : Saw (sys.rename source (destination_of x.quarantine_root e.id p.id source)) tt
  pub moved :
      SawMoved sys p
        (pinned_of pinned_stat digest)
        source
        (destination_of x.quarantine_root e.id p.id source)

module _ {W A : Type 0} where
  pub os-Saw : (c : Call W A) (s t : Sys W) (a : A) → os c s ≡ (ok a, t) → Saw c a
  unfolding actions
  os-Saw c s t a q = (s.world, ground arith)

  pub attempt-Saw : (c : Call W A) (s t : Sys W) (a : A) → attempt c s ≡ (ok (some a), t) → Saw c a
  unfolding actions
  attempt-Saw c s t a q = (s.world, ground arith)

-- The verdict on what was seen after the rename, taken apart.
pub passed-SawMoved :
    {W : Type 0} (sys : Os W) (p : DedupExecutionPlanAction) (pin : PinnedIdentity)
    (source destination : FilePath) (link file present : Bool) (seen : FileObservation)
    (o : Option Stat)
    → Saw (sys.is_symlink destination) link
    → Saw (sys.is_file destination) file
    → Saw (sys.exists source) present
    → ((s t : Sys W) × (observe_path sys destination s ≡ (ok seen, t)))
    → ((st : Stat) → o ≡ some st → Saw (sys.lstat destination) st)
    → verification_passed p pin (record {
      destination_is_symlink = link;
      destination_is_regular_file = file && not link;
      source_still_present = present;
      post_observation = seen;
      destination_stat = o;
    })
      ≡ true
    → SawMoved sys p pin source destination
unfolding verification_passed destination_hash_matches identity_matches
passed-SawMoved sys p pin source destination false true false seen (some st) l f g v k h = record {
  st = st;
  seen = seen;
  source_gone = g;
  is_file = f;
  no_link = l;
  identity = k st refl;
  same_device = ground arith;
  same_inode = ground arith;
  observed = v;
  exists = ground arith;
  same_hash = ground arith;
  same_size = ground arith;
}
passed-SawMoved sys p pin source destination link file present seen none l f g v k h =
    absurd (ground arith)
passed-SawMoved sys p pin source destination true file present seen (some st) l f g v k h =
    absurd (ground arith)
passed-SawMoved sys p pin source destination false false present seen (some st) l f g v k h =
    absurd (ground arith)
passed-SawMoved sys p pin source destination false true true seen (some st) l f g v k h =
    absurd (ground arith)

-- What the actions that only read answer, taken apart.
module _ {W : Type 0} (sys : Os W) where
  pub pin_and_hash-Saw :
      (path : FilePath) (pin : PinnedIdentity) (s t : Sys W)
      → pin_and_hash sys path s ≡ (ok (some pin), t)
      → (st : Stat) × (digest : String) × Saw (sys.open_and_hash path) (st, digest)
        × (st.is_regular ≡ true)
        × (pin ≡ pinned_of st digest)
  unfolding pin_and_hash actions
  pin_and_hash-Saw path pin s t h = elim (Option-cases (sys.open_and_hash path s.world).0) [
    | inl e ↦ absurd (ground arith)
    | inr ((st, digest), e) ↦ elim (Bool-cases st.is_regular) [
      | inl r ↦ (st, digest, (s.world, e), r, ground arith)
      | inr r ↦ absurd (ground arith)
    ]
  ]

  pub is_within-SawInside :
      (path root : FilePath) (b : Bool) (s t : Sys W)
      → is_within sys path root s ≡ (ok b, t)
      → b ≡ true
      → SawInside sys path root
  unfolding is_within actions
  is_within-SawInside path root b s t h k = elim (Option-cases (sys.resolve path s.world).0) [
    | inl e ↦ absurd (ground arith)
    | inr (p, e) ↦ elim (Option-cases (sys.resolve root (sys.resolve path s.world).1).0) [
      | inl f ↦ absurd (ground arith)
      | inr (r, f) ↦ record {
        p = p;
        r = r;
        path_resolved = (s.world, e);
        root_resolved = ((sys.resolve path s.world).1, f);
        inside = ground arith;
      }
    ]
  ]

  pub check_currency_checked :
      (id : ℕ) (a : DedupPlanAuthorization) (v : PlanValidity) (c : Bool) (s t : Sys W)
      → check_currency sys id s ≡ (ok (a, v, c), t)
      → (find id s.db.authorizations ≡ some a) × (check_plan_validity sys a.plan_id s ≡ (ok v, t))
  unfolding check_currency actions
  check_currency_checked id a v c s t h = elim (Option-cases (find id s.db.authorizations)) [
    | inl e ↦ absurd (ground arith)
    | inr (b, e) ↦ go b e (check_plan_validity sys b.plan_id s) refl (rw e at h)
  ]
    where
      go :
          (b : DedupPlanAuthorization)
          → find id s.db.authorizations ≡ some b
          → (out : Result PlanValidity × Sys W) → check_plan_validity sys b.plan_id s ≡ out
          → continue {B = DedupPlanAuthorization × PlanValidity × Bool} out.0
              (λ validity. pure (b, validity, is_authorized b.status && validity.is_valid))
              out.1
            ≡ (ok (a, v, c), t)
          → (find id s.db.authorizations ≡ some a)
            × (check_plan_validity sys a.plan_id s ≡ (ok v, t))
      go b e (err x, u) q h = absurd (ground arith)
      go b e (ok v', u) q h =
          let same : b ≡ a = ground arith in
          subst
            (λ a.
              (find id s.db.authorizations ≡ some a)
              × (check_plan_validity sys a.plan_id s ≡ (ok v, t)))
            same (e, q ∙ ground arith)
