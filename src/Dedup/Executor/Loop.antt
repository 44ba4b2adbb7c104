-- ===== src/Dedup/Executor/Loop.antt =====
-- The loop of `execute`: one audit for each action, in order, and nothing after the first failure.
use ai_brain.Prelude.{
  ℕ, suc, ◌+◌, ◌≤◌, ◌≡◌, ◌≢◌, refl, ◌∙◌, ap, Bool, true, false, not, none, some, List, [], ◌∷◌,
  arith, ◌==◌, length, sum_by, All, any-append,
}
use ai_brain.Dedup.Records.{
  Database, DedupExecutionPlanAction, DedupExecution, DedupExecutionActionResult, success,
  precondition_failed, failed_action, not_attempted, unknown,
}
use ai_brain.Dedup.Exec.{Result, ok, Sys, continue, handled, catch}
use ai_brain.Dedup.Os.{Os, actions}
use ai_brain.Dedup.Executions.{Report, bare, is_success, is_consistent, audited, add_audit}
use ai_brain.Dedup.Executions.Audits.{add_audits, results}
use ai_brain.Dedup.Executions.Recording.{Ready, record_of_Ready}
use ai_brain.Dedup.Executor.{DedupFilesystemExecutor, attempt_action, last_resort, run_actions}
use ai_brain.Dedup.Executor.Settling.{Counts, Settled, recorded, raised, attempt_action-Settled}

-- From a flag that says whether the loop has stopped: attempts go on through successes, and
-- everything after the first other result was not attempted.
abbrev pub StopsAtFailure : Bool → List DedupExecutionActionResult → Type 0
StopsAtFailure stop [] = Unit
StopsAtFailure true (r ∷ rs) = (r ≡ not_attempted) × StopsAtFailure true rs
StopsAtFailure false (r ∷ rs) = (r ≢ not_attempted) × StopsAtFailure (not (is_success r)) rs

-- The least and the most renames that an action with a result can have called.
abbrev pub least_renames : DedupExecutionActionResult → ℕ
least_renames success = 1
least_renames _ = 0

abbrev pub most_renames : DedupExecutionActionResult → ℕ
most_renames success = 1
most_renames failed_action = 1
most_renames unknown = 1
most_renames _ = 0

abbrev pub consistent : Report → Bool
consistent r = is_consistent r.result r.filesystem_mutation_occurred r.ended_at

abbrev pub Distinct : List DedupExecutionPlanAction → Type 0
Distinct [] = Unit
Distinct (p ∷ ps) = All (λ q. (p.id == q.id) ≡ false) ps × Distinct ps

abbrev at : {W : Type 0} → Database → W → ℕ → Sys W
at db w n = record { db = db; world = w; renames = n }

-- An audit of one action leaves the others ready.
Ready-add_audit :
    (id : ℕ) (p q : DedupExecutionPlanAction) (r : Report) (db : Database)
    → (p.id == q.id) ≡ false
    → Ready db id q.id q
    → Ready (add_audit id p r db) id q.id q
unfolding add_audit audited
Ready-add_audit id p q r db d h = record {
  execution = h.execution;
  found = h.found;
  runs = h.runs;
  planned = h.planned;
  same_plan = h.same_plan;
  fresh = any-append _ db.audits _ ∙ ground (arith, h.fresh);
}

Ready-add_audit_others :
    (id : ℕ) (p : DedupExecutionPlanAction) (r : Report) (db : Database)
    (ps : List DedupExecutionPlanAction)
    → All (λ q. (p.id == q.id) ≡ false) ps
    → All (λ q. Ready db id q.id q) ps
    → All (λ q. Ready (add_audit id p r db) id q.id q) ps
Ready-add_audit_others id p r db [] d h = tt
Ready-add_audit_others id p r db (q ∷ qs) d h =
    (Ready-add_audit id p q r db d.0 h.0, Ready-add_audit_others id p r db qs d.1 h.1)

-- What comes of the first attempt at an action, whatever it raises.
record Attempted {W : Type 0} (e : DedupExecution) (p : DedupExecutionPlanAction) (db : Database)
    (k : ℕ) (out : Result Bool × Sys W) : Type 0 where
  report : Report
  world : W
  n : ℕ
  is_taken : consistent report ≡ true
  tried : report.result ≢ not_attempted
  lo : k + least_renames report.result ≤ n
  hi : n ≤ k + most_renames report.result
  final : out ≡ (ok (is_success report.result), at (add_audit e.id p report db) world n)

report_tried : (r : DedupExecutionActionResult) (k n : ℕ) → Counts r k n → r ≢ not_attempted
report_tried success k n c q = cc
report_tried precondition_failed k n c q = cc
report_tried failed_action k n c q = cc
report_tried not_attempted k n c q = absurd c
report_tried unknown k n c q = cc

report_least : (r : DedupExecutionActionResult) (k n : ℕ) → Counts r k n → k + least_renames r ≤ n
report_least success k n c = omega arith
report_least precondition_failed k n c = omega arith
report_least failed_action k n c = omega (arith, c.0)
report_least not_attempted k n c = absurd c
report_least unknown k n c = omega (arith, c.0)

report_most : (r : DedupExecutionActionResult) (k n : ℕ) → Counts r k n → n ≤ k + most_renames r
report_most success k n c = omega arith
report_most precondition_failed k n c = omega arith
report_most failed_action k n c = omega (arith, c.1)
report_most not_attempted k n c = absurd c
report_most unknown k n c = omega (arith, c.1)

module _ {W : Type 0} (sys : Os W) (x : DedupFilesystemExecutor) (e : DedupExecution) where
  guarded-Attempted :
      (p : DedupExecutionPlanAction) (db : Database) (k : ℕ) (w : W)
      → Ready db e.id p.id p
      → Attempted e p db k (catch (attempt_action sys x e p) (last_resort sys e.id p) (at db w k))
  unfolding actions
  guarded-Attempted p db k w h = go (attempt_action-Settled sys e p db h k x w)
    where
      go :
          {out : Result Bool × Sys W}
          → Settled e p db k out
          → Attempted e p db k (handled out.0 (last_resort sys e.id p) out.1)
      go (recorded r v n c m q) = rw q (record {
        report = r;
        world = v;
        n = n;
        is_taken = c;
        tried = report_tried r.result k n m;
        lo = report_least r.result k n m;
        hi = report_most r.result k n m;
        final = refl;
      })
      go (raised y v n lo hi q) = rw q (record {
        report = bare unknown none;
        world = v;
        n = n;
        is_taken = unfold is_consistent in refl;
        tried = λ q. cc;
        lo = omega arith;
        hi = omega arith;
        final =
            unfold last_resort in
            rw
              (record_of_Ready e.id p.id p (bare unknown none) (at db v n) h
                (unfold is_consistent in refl))
              refl;
      })

-- What comes of the loop from a state, with the audits and the renames before it.
pub record Ran {W : Type 0} (e : DedupExecution) (stop : Bool) (ps : List DedupExecutionPlanAction)
    (db : Database) (k : ℕ) (out : Result (Unit {0}) × Sys W) : Type 0 where
  pub reports : List Report
  pub world : W
  pub n : ℕ
  pub count : length reports ≡ length ps
  pub are_taken : All (λ r. consistent r ≡ true) reports
  pub stops : StopsAtFailure stop (results reports)
  pub lo : k + sum_by least_renames (results reports) ≤ n
  pub hi : n ≤ k + sum_by most_renames (results reports)
  pub final : out ≡ (ok tt, at (add_audits e.id ps reports db) world n)

module _ {W : Type 0} (sys : Os W) (x : DedupFilesystemExecutor) (e : DedupExecution) where
  -- The loop reaches its end in every world: from a state in which every action is to be audited, it
  -- records one consistent report for each, in order, stops attempting at the first that is no success,
  -- and renames once for each success and at most once for each failed or unknown result.
  pub run_actions-Ran :
      (stop : Bool) (ps : List DedupExecutionPlanAction) (db : Database) (w : W) (k : ℕ)
      → Distinct ps
      → All (λ p. Ready db e.id p.id p) ps
      → Ran e stop ps db k (run_actions sys x e stop ps (at db w k))
  unfolding run_actions actions
  run_actions-Ran stop [] db w k d h = record {
    reports = [];
    world = w;
    n = k;
    count = refl;
    are_taken = tt;
    stops = tt;
    lo = omega arith;
    hi = omega arith;
    final = refl;
  }
  run_actions-Ran true (p ∷ ps) db w k d h =
      let r = bare not_attempted (some false) in
      let c : consistent r ≡ true = unfold is_consistent in refl in
      let rest =
        run_actions-Ran true ps (add_audit e.id p r db) w k d.1
          (Ready-add_audit_others e.id p r db ps d.0 h.1) in
      record {
        reports = r ∷ rest.reports;
        world = rest.world;
        n = rest.n;
        count = ap suc rest.count;
        are_taken = (c, rest.are_taken);
        stops = (refl, rest.stops);
        lo = omega (arith, rest.lo);
        hi = omega (arith, rest.hi);
        final = rw (record_of_Ready e.id p.id p r (at db w k) h.0 c) rest.final;
      }
  run_actions-Ran false (p ∷ ps) db w k d h =
      let a = guarded-Attempted sys x e p db k w h.0 in
      let db' = add_audit e.id p a.report db in
      let rest =
        run_actions-Ran (not (is_success a.report.result)) ps db' a.world a.n d.1
          (Ready-add_audit_others e.id p a.report db ps d.0 h.1) in
      record {
        reports = a.report ∷ rest.reports;
        world = rest.world;
        n = rest.n;
        count = ap suc rest.count;
        are_taken = (a.is_taken, rest.are_taken);
        stops = (a.tried, rest.stops);
        lo = omega (arith, a.lo, rest.lo);
        hi = omega (arith, a.hi, rest.hi);
        final =
            ap (λ t. continue t.0 (λ go_on. run_actions sys x e (not go_on) ps) t.1) a.final
            ∙ rest.final;
      }
