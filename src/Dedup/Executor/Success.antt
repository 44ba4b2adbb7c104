-- ===== src/Dedup/Executor/Success.antt =====
-- What an attempt has seen when it reports a success.
use mathlib.Core.Path.{subst}
use ai_brain.Prelude.{
  ℕ, ◌+◌, ◌≤◌, ◌≡◌, sym, ◌∙◌, ap, String, Bool, true, false, not, ◌||◌, Option, some, arith, ltb,
  find,
}
use ai_brain.Paths.{FilePath}
use ai_brain.Dedup.Records.{
  Database, DedupExecutionPlan, DedupExecutionPlanAction, DedupExecution, plan_keyed,
  authorization_keyed,
}
use ai_brain.Dedup.Exec.{ok, Sys, Exec, gets, maybe, ◌>>=◌}
use ai_brain.Dedup.Os.{Os, Stat, Call, os, attempt, counted, actions}
use ai_brain.Dedup.Os.Reading.{Reads-os, Reads-attempt, Reads-gets}
use ai_brain.Dedup.Plans.Reading.{observe_path-Reads}
use ai_brain.Dedup.Authorizations.{check_currency}
use ai_brain.Dedup.Executor.{
  DedupFilesystemExecutor, PinnedIdentity, refuse, precondition_report, failure_report,
  unknown_report, verify_move, move_source, pin_source, matches_plan, pinned_of, pin_and_hash,
  is_within, inspect_source, locate_source, is_canonical, attempt_action, destination_of,
}
use ai_brain.Dedup.Executor.Settling.{pin_and_hash-Reads, is_within-Reads, check_currency-Reads}
use ai_brain.Dedup.Executor.Evidence.{
  Saw, SawMoved, SafeMove, os-Saw, attempt-Saw, passed-SawMoved, pin_and_hash-Saw,
  is_within-SawInside, check_currency_checked,
}
use ai_brain.Dedup.Executor.Ensuring.{
  at, Ensures, reading-Ensures, choose-Ensures, maybe-Ensures, settle-Ensures,
}

module _ {W : Type 0} (sys : Os W) (db : Database) (Q : Type 0) (e : DedupExecution)
    (p : DedupExecutionPlanAction) where
  -- A call whose answer is kept.
  after_os :
      {A : Type 0} (c : Call W A) (f : A → Exec W Bool)
      → ((a : A) → Saw c a → Ensures db Q (f a))
      → Ensures db Q (os c >>= f)
  after_os c f h = reading-Ensures db Q (os c) f (Reads-os c) λ s t a d q. h a (os-Saw c s t a q)

  -- The rename, which is counted.
  after_rename :
      {A : Type 0} (c : Call W A) (f : Option A → Exec W Bool)
      → ((o : Option A) → ((a : A) → o ≡ some a → Saw c a) → Ensures db Q (f o))
      → Ensures db Q (counted c >>= f)
  unfolding actions
  after_rename c f h w n q = h (c w).0 (λ a o. (w, o)) (c w).1 (n + 1) q

  verify_move-Ensures :
      (pin : PinnedIdentity) (source destination : FilePath)
      → (SawMoved sys p pin source destination → Q)
      → Ensures db Q (verify_move sys e p pin source destination)
  unfolding verify_move
  verify_move-Ensures pin source destination h = after_os _ _ λ link saw_link.
      after_os _ _ λ file saw_file. after_os _ _ λ present saw_present.
        reading-Ensures db Q _ _ (observe_path-Reads sys destination) λ s t seen d q.
          reading-Ensures db Q (attempt (sys.lstat destination)) _ (Reads-attempt _)
            λ s' t' st d' q'.
              choose-Ensures db Q _ _ _
                (λ passed w n _. h (
                  passed-SawMoved sys p pin source destination link file present seen st saw_link
                    saw_file saw_present (s, t, q)
                    (λ a o. attempt-Saw _ s' t' a (q' ∙ ap (λ b. (ok b, t')) o)) passed))
                (λ _. settle-Ensures db Q sys e p (unknown_report seen))

  -- The rename: the destination was free before it, and the call did not fail.
  move_source-Ensures :
      (x : DedupFilesystemExecutor) (pin : PinnedIdentity) (source : FilePath)
      → let destination = destination_of x.quarantine_root e.id p.id source in
        (Saw (sys.exists destination) false
          → Saw (sys.rename source destination) tt
          → SawMoved sys p pin source destination
          → Q)
        → Ensures db Q (move_source sys x e p pin source)
  unfolding move_source
  move_source-Ensures x pin source h =
      let destination = destination_of x.quarantine_root e.id p.id source in
      after_os _ _ λ taken saw_free.
        choose-Ensures db Q _ _ _ (λ _. settle-Ensures db Q sys e p failure_report)
          λ free. after_os _ _ λ _ _. after_os _ _ λ st _.
            choose-Ensures db Q _ _ _ (λ _. settle-Ensures db Q sys e p failure_report)
              λ _. after_rename _ _ λ moved saw_moved.
                maybe-Ensures db Q moved _ _ (settle-Ensures db Q sys e p failure_report) λ u o.
                  verify_move-Ensures pin source destination
                    (h (saw_as (sys.exists destination) free saw_free) (saw_moved u o))
    where
      saw_as : {A : Type 0} (c : Call W A) {a b : A} → a ≡ b → Saw c a → Saw c b
      saw_as c e (w, q) = (w, q ∙ ap some e)

looked_up :
    {W : Type 0} (db : Database) (e : DedupExecution) (s t : Sys W)
    (plan : Option DedupExecutionPlan)
    → s.db ≡ db
    → gets (λ db. find e.plan_id db.plans) s ≡ (ok plan, t)
    → find e.plan_id db.plans ≡ plan
unfolding actions
looked_up db e s t plan d q = ap (λ d. find e.plan_id d.plans) (sym d) ∙ ground arith

of_not : (b : Bool) → not b ≡ false → b ≡ true
of_not b h = ground arith

of_nots : (a b : Bool) → (not a || not b) ≡ false → (a ≡ true) × (b ≡ true)
of_nots a b h = ground arith

not_above : (n : ℕ) → ltb 1 n ≡ false → n ≤ 1
not_above n h = ground arith

-- The steps before the rename.
module _ {W : Type 0} (sys : Os W) (db : Database) (x : DedupFilesystemExecutor)
    (e : DedupExecution) (p : DedupExecutionPlanAction) where
  abbrev Safe : Type 0
  Safe = SafeMove sys db x e p

  abbrev refused : Ensures db Safe (refuse sys e p)
  unfolding refuse
  refused = settle-Ensures db Safe sys e p precondition_report

  -- The call was answered, and the rest follows.
  after_attempt :
      {A : Type 0} (c : Call W A) (m : Exec W Bool) (f : A → Exec W Bool)
      → Ensures db Safe m
      → ((a : A) → Saw c a → Ensures db Safe (f a))
      → Ensures db Safe (attempt c >>= λ o. maybe o m f)
  after_attempt c m f g h = reading-Ensures db Safe (attempt c) _ (Reads-attempt c) λ s t o d q.
      maybe-Ensures db Safe o m f g λ a r. h a (attempt-Saw c s t a (q ∙ ap (λ b. (ok b, t)) r))

  pin_source-Ensures :
      (source : FilePath)
      → ((st : Stat) (digest : String)
          → Saw (sys.open_and_hash source) (st, digest)
          → st.is_regular ≡ true
          → matches_plan (pinned_of st digest) p ≡ true
          → st.st_dev ≡ x.quarantine_device
          → let destination = destination_of x.quarantine_root e.id p.id source in
            Saw (sys.exists destination) false
            → Saw (sys.rename source destination) tt
            → SawMoved sys p (pinned_of st digest) source destination
            → Safe)
      → Ensures db Safe (pin_source sys x e p source)
  unfolding pin_source
  pin_source-Ensures source h =
      reading-Ensures db Safe (pin_and_hash sys source) _ (pin_and_hash-Reads sys source)
        λ s t o d q. maybe-Ensures db Safe o _ _ refused λ pin r.
          let (st, digest, saw, regular, same) =
            pin_and_hash-Saw sys source pin s t (q ∙ ap (λ b. (ok b, t)) r) in
          choose-Ensures db Safe _ _ _ (λ _. refused)
            λ matches.
              choose-Ensures db Safe _ _ _ (λ _. refused)
                λ device. move_source-Ensures sys db Safe e p x pin source λ free renamed moved.
                  h st digest saw regular (ap (λ a. matches_plan a p) (sym same) ∙ ground arith)
                    (ap (λ a. a.device) (sym same) ∙ ground arith) free renamed
                    (subst
                      (λ a.
                        SawMoved sys p a source (destination_of x.quarantine_root e.id p.id source))
                      same moved)

  -- An action whose attempt answers that it succeeded was no canonical document's, stood under a valid
  -- plan with a standing authorization at that moment, was a regular file with one link inside the
  -- allowed root with the hash and size of the plan, on the quarantine's device; its destination was
  -- free; the rename did not fail; and the file at the destination was then seen to be the very file
  -- that was pinned, with the plan's hash and size, and the source to be gone.
  pub attempt_action-SafeMove :
      (w : W) (n : ℕ) → (attempt_action sys x e p (at db w n)).0 ≡ ok true → SafeMove sys db x e p
  unfolding attempt_action locate_source inspect_source
  attempt_action-SafeMove =
      reading-Ensures db Safe (gets (λ db. find e.plan_id db.plans)) _ (Reads-gets _)
        λ s t plan d q.
          choose-Ensures db Safe _ _ _ (λ _. refused)
            λ not_canonical.
              reading-Ensures db Safe (check_currency sys e.authorization_id) _
                (check_currency-Reads sys _)
                λ s₁ t₁ (a, v, c) d₁ q₁.
                  choose-Ensures db Safe _ _ _ (λ _. refused)
                    λ stands.
                      choose-Ensures db Safe _ _ _ (λ _. refused)
                        λ valid.
                          let (found, checked) =
                            check_currency_checked sys e.authorization_id a v c s₁ t₁ q₁ in
                          after_os sys db Safe e p _ _ λ link saw_link.
                            choose-Ensures db Safe _ _ _ (λ _. refused)
                              λ no_link. after_attempt _ _ _ refused λ source saw_source.
                                reading-Ensures db Safe (is_within sys source x.allowed_root) _
                                  (is_within-Reads sys _ _)
                                  λ s₂ t₂ inside d₂ q₂.
                                    choose-Ensures db Safe _ _ _ (λ _. refused)
                                      λ is_inside. after_attempt _ _ _ refused λ st saw_st.
                                        after_os sys db Safe e p _ _ λ file _.
                                          choose-Ensures db Safe _ _ _ (λ _. refused)
                                            λ _.
                                              choose-Ensures db Safe _ _ _ (λ _. refused)
                                                λ one_link.
                                                  pin_source-Ensures source
                                                    λ pinned digest saw_pin regular as_planned
                                                        device free renamed moved.
                                                      record {
                                                        authorization = a;
                                                        validity = v;
                                                        source = source;
                                                        source_stat = st;
                                                        pinned_stat = pinned;
                                                        digest = digest;
                                                        not_canonical =
                                                            ap (λ o. is_canonical o p)
                                                            (looked_up db e s t plan d q)
                                                            ∙ not_canonical;
                                                        found =
                                                            ap
                                                            (λ d.
                                                            find e.authorization_id
                                                            d.authorizations)
                                                            (sym d₁)
                                                            ∙ found;
                                                        stands = of_not _ stands;
                                                        checked = (s₁, t₁, d₁, checked);
                                                        canonical_valid = (of_nots _ _ valid).0;
                                                        action_valid = (of_nots _ _ valid).1;
                                                        no_link = (
                                                          saw_link.0,
                                                          saw_link.1 ∙ ap some no_link,
                                                        );
                                                        resolved = saw_source;
                                                        inside =
                                                            is_within-SawInside sys source
                                                            x.allowed_root inside s₂ t₂ q₂
                                                            (of_not _ is_inside);
                                                        stated = saw_st;
                                                        one_link = not_above _ one_link;
                                                        pinned = saw_pin;
                                                        regular = regular;
                                                        as_planned = as_planned;
                                                        same_device = device;
                                                        free = free;
                                                        renamed = renamed;
                                                        moved = moved;
                                                      }
