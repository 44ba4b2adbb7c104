-- ===== src/Reporting/Completion.antt =====
-- When a batch is completed for having no work left.
use ai_brain.Prelude.{
  ℕ, ◌+◌, ◌-◌, ◌≤◌, ◌≡◌, refl, sym, ◌∙◌, Bool, true, false, ◌&&◌, ◌||◌, Option, none, some, [], ◌∷◌,
  inl, inr, Bool-cases, Option-cases, All, All-mono, arith, ◌==◌, ==_iff, find,
}
use mathlib.Core.Path.{subst}
use ai_brain.Batch.Model.{running, completed, IngestionBatch, batch_keyed, source_work_exhausted}
use ai_brain.Batch.Control.{Clocks, complete}
use ai_brain.Selection.Policy.{SourceCategory}
use ai_brain.Claims.Rows.{ingested, SourceInstance, state_eq, group_keyed}
use ai_brain.Claims.Groups.{Store}
use ai_brain.Batch.Control.Finishing.{complete_running}
use ai_brain.Reporting.Counting.{
  count_mono, count_same, count_add, split, and_fst, and_true, and_mono, any_mono, everywhere,
  attempted_by,
}
use ai_brain.Reporting.{
  report, count, is_source, is_archive, is_no_archive, is_attempted, is_loose_in,
  is_archive_successful, is_archive_given_up, has_succeeded, is_durable_failure, direct,
  is_group_in, loose_terminal_pipeline_states, assert_invariants, attempted_source_count,
  batch_report, report_of, generate_report, is_exhausted, no_decision, decided, control_of,
  check_and_complete,
}

apart : (c : Option SourceCategory) → is_no_archive c && is_archive c ≡ false
apart none = refl
apart (some SourceCategory.archive) = refl
apart (some SourceCategory.loose_file) = refl
apart (some SourceCategory.special) = refl

-- A selected file that is done: its group is in a terminal state, or it is an archive that was
-- extracted or given up.
abbrev pub is_terminal : Store → ℕ → SourceInstance → Bool
is_terminal s run_id i =
    is_source run_id i
    && ((is_no_archive i.source_category
          && is_group_in loose_terminal_pipeline_states s i.content_identity_group_id)
        || (is_archive i.source_category
            && (direct has_succeeded s.attempts i || direct is_durable_failure s.attempts i)))

passes :
    (selected attempted loose archives given_up kept : ℕ)
    → loose + (archives + given_up) ≤ attempted
    → attempted ≤ selected
    → kept ≤ loose
    → assert_invariants selected attempted (loose + (archives + given_up)) (kept + archives) ≡ true
passes selected attempted loose archives given_up kept h k m = ground arith

both_counts :
    (terminal attempted selected : ℕ)
    → terminal ≤ attempted
    → attempted ≤ selected
    → ((selected - attempted == 0) && (terminal == attempted)) ≡ (terminal == selected)
both_counts terminal attempted selected h k = ground arith

module _ (s : Store) (run_id : ℕ) where
  -- The three terminal counts of a report are one count.
  terminal_count :
      count (is_loose_in loose_terminal_pipeline_states s run_id) s.instances
        + (count (is_archive_successful s run_id) s.instances
            + count (is_archive_given_up s run_id) s.instances)
      ≡ count (is_terminal s run_id) s.instances
  unfolding is_loose_in is_archive_successful is_archive_given_up
  terminal_count = count_add _ _ _ _ s.instances (λ i.
      split (is_source run_id i) (is_no_archive i.source_category) (is_archive i.source_category)
        (is_group_in loose_terminal_pipeline_states s i.content_identity_group_id)
        (direct has_succeeded s.attempts i) (direct is_durable_failure s.attempts i)
        (apart i.source_category))

  -- What was ingested is among what is terminal.
  ingested_terminal :
      (o : Option ℕ)
      → is_group_in (ingested ∷ []) s o ≡ true
      → is_group_in loose_terminal_pipeline_states s o ≡ true
  ingested_terminal none h = h
  ingested_terminal (some g) h = elim (Option-cases (find g s.groups)) [
    | inl e ↦ let h' = rw (is_group_in, e) at h in absurd cc
    | inr (x, e) ↦ elim (Bool-cases (state_eq x.pipeline_state ingested)) [
      | inl q ↦ rw (is_group_in, e, q) refl
      | inr q ↦ let h' = rw (is_group_in, e, q) at h in absurd cc
    ]
  ]

  ingested_count :
      count (is_loose_in (ingested ∷ []) s run_id) s.instances
      ≤ count (is_loose_in loose_terminal_pipeline_states s run_id) s.instances
  unfolding is_loose_in
  ingested_count = count_mono _ _ s.instances (
      everywhere _ s.instances (λ i.
        and_mono (is_source run_id i) (is_no_archive i.source_category) _ _
          (ingested_terminal i.content_identity_group_id)))

  attempted_source :
      (i : SourceInstance) → is_attempted s run_id i ≡ true → is_source run_id i ≡ true
  unfolding is_attempted
  attempted_source i h = and_fst (is_source run_id i) _ h

  terminal_attempted :
      (i : SourceInstance)
      → (is_loose_in loose_terminal_pipeline_states s run_id i ≡ true
          → is_attempted s run_id i ≡ true)
      → is_terminal s run_id i ≡ true
      → is_attempted s run_id i ≡ true
  unfolding is_attempted is_loose_in
  terminal_attempted i h t =
      attempted_by (is_source run_id i) (is_no_archive i.source_category) _
        (is_archive i.source_category) _ _ _ _ h (any_mono _ _ s.attempts (λ a. and_true _ _))
        (any_mono _ _ s.attempts (λ a. and_true _ _)) t

-- The batch of a run whose table has the selected files, and where a loose file in a terminal state
-- was attempted.
pub record Ready (s : Store) (b : IngestionBatch) : Type 0 where
  pub selected : count (is_source b.classification_run_id) s.instances ≡ b.source_instances_selected
  pub was_attempted :
      All
        (λ i.
          is_loose_in loose_terminal_pipeline_states s b.classification_run_id i ≡ true
          → is_attempted s b.classification_run_id i ≡ true)
        s.instances

-- Every selected file is done.
abbrev pub AllTerminal : Store → ℕ → Type 0
AllTerminal s run_id =
    All (λ i. is_source run_id i ≡ true → is_terminal s run_id i ≡ true) s.instances

module _ (s : Store) (b : IngestionBatch) (ready : Ready s b) where
  terminal_All :
      All
        (λ i.
          is_terminal s b.classification_run_id i ≡ true
          → is_attempted s b.classification_run_id i ≡ true)
        s.instances
  terminal_All =
      All-mono _ _ s.instances (terminal_attempted s b.classification_run_id) ready.was_attempted

  counts :
      (count (is_terminal s b.classification_run_id) s.instances
        ≤ attempted_source_count s b.classification_run_id)
      × (attempted_source_count s b.classification_run_id ≤ b.source_instances_selected)
  counts = (
    count_mono _ _ s.instances terminal_All,
    subst (λ n. attempted_source_count s b.classification_run_id ≤ n) ready.selected
        (count_mono _ _ s.instances
          (everywhere _ s.instances (attempted_source s b.classification_run_id))),
  )

  -- A report is made, and it shows exhaustion exactly by the two counts.
  reported : report_of s b ≡ report (batch_report s b)
  unfolding report_of
  reported =
      let e =
        passes b.source_instances_selected (attempted_source_count s b.classification_run_id) _ _ _
          _
          (subst (λ n. n ≤ attempted_source_count s b.classification_run_id)
            (sym (terminal_count s b.classification_run_id)) counts.0)
          counts.1 (ingested_count s b.classification_run_id) in
      rw (report_of, e) refl

  exhausted :
      is_exhausted (batch_report s b)
      ≡ (count (is_terminal s b.classification_run_id) s.instances == b.source_instances_selected)
  exhausted =
      subst
        (λ n.
          ((b.source_instances_selected - attempted_source_count s b.classification_run_id == 0)
            && (n == attempted_source_count s b.classification_run_id))
          ≡ (count (is_terminal s b.classification_run_id) s.instances
              == b.source_instances_selected))
        (sym (terminal_count s b.classification_run_id)) (both_counts _ _ _ counts.0 counts.1)

  exhausted_All : is_exhausted (batch_report s b) ≡ true → AllTerminal s b.classification_run_id
  exhausted_All h =
      count_same _ _ s.instances
        (everywhere _ s.instances (λ i. and_fst (is_source b.classification_run_id i) _))
        ((==_iff _ _).0 (sym exhausted ∙ h) ∙ sym ready.selected)

  All_exhausted : AllTerminal s b.classification_run_id → is_exhausted (batch_report s b) ≡ true
  All_exhausted h =
      let le = count_mono _ _ s.instances h in
      let ge = counts in
      let sel = ready.selected in
      let e : count (is_terminal s b.classification_run_id) s.instances
          ≡ b.source_instances_selected =
        omega arith in
      exhausted ∙ (==_iff _ _).1 e

generated :
    (id : ℕ) (s : Store) (b : IngestionBatch)
    → find id s.batches ≡ some b
    → Ready s b
    → generate_report id s ≡ report (batch_report s b)
unfolding generate_report
generated id s b found ready = rw (generate_report, found) (reported s b ready)

-- The answer of a check: the batch is completed when every selected file is done, and only then.
pub record Decided (t : Clocks) (id : ℕ) (s : Store) (sessions : ℕ → Option ℕ) (b : IngestionBatch)
    : Type 0 where
  pub completes :
      AllTerminal s b.classification_run_id
      → (check_and_complete t id s sessions).1
        ≡ decided (complete t id source_work_exhausted none (control_of s sessions)).1
  pub is_completed :
      AllTerminal s b.classification_run_id
      → (b' : IngestionBatch) × (find id (check_and_complete t id s sessions).0.batches ≡ some b')
        × (b'.status ≡ completed)
        × (b'.stop_reason ≡ some source_work_exhausted)
  pub waits :
      (AllTerminal s b.classification_run_id → ⊥)
      → check_and_complete t id s sessions ≡ (control_of s sessions, no_decision)

-- A check on a running batch whose selected files are in the tables, where each loose file whose group
-- is in a terminal state was attempted, completes the batch for exhausted work if every selected file
-- is done, and otherwise decides nothing and changes nothing.
pub check_and_complete-Decided :
    (t : Clocks) (id : ℕ) (s : Store) (sessions : ℕ → Option ℕ) (b : IngestionBatch)
    → find id s.batches ≡ some b
    → b.status ≡ running
    → Ready s b
    → Decided t id s sessions b
unfolding check_and_complete
check_and_complete-Decided t id s sessions b found going ready =
    let made = generated id s b found ready in
    record {
      completes = λ h. rw (check_and_complete, found, going, made, All_exhausted s b ready h) refl;
      is_completed = λ h.
          rw (check_and_complete, found, going, made, All_exhausted s b ready h)
            (complete_running t id (control_of s sessions) b found going);
      waits = λ h. elim (Bool-cases (is_exhausted (batch_report s b))) [
        | inl e ↦ absurd (h (exhausted_All s b ready e))
        | inr e ↦ rw (check_and_complete, found, going, made, e) refl
      ];
    }
