-- ===== src/Claims/Admission.antt =====
-- What a claim of a source instance gives when other sessions write between its two statements.
use ai_brain.Prelude.{
  ℕ, ◌≤◌, ◌≡◌, ◌⊎◌, inl, inr, refl, Bool, true, false, not, ◌&&◌, Option, none, some, All, find,
  find_modified, modify, oldest, oldest_missing, oldest_meets, oldest_first, Option-cases,
  Bool-cases, arith, List, [], ◌∷◌, ◌==◌, ==_iff,
}
use ai_brain.Batch.Model.{IngestionBatch, running}
use ai_brain.Claims.Reservations.{is_running}
use ai_brain.Claims.Rows.{SourceInstance, instance_keyed}
use ai_brain.Claims.Groups.{Store}
use ai_brain.Claims.Instances.{
  InstanceClaim, is_unclaimed, is_admitted, is_for_identity_resolution, is_for_archive_processing,
  taken, take_candidate, running_batch_exists_for_classification_run, claim_source_instance,
  claim_source_instance_for_identity_resolution, claim_source_instance_for_archive_processing,
}

-- One of the batches is RUNNING, and of the run.
abbrev pub HasRunning : ℕ → List IngestionBatch → Type 0
HasRunning run [] = ⊥
HasRunning run (b ∷ batches) =
    ((b.classification_run_id ≡ run) × (b.status ≡ running)) ⊎ HasRunning run batches

-- What a claim for a run, or for none, asks of the batches.
abbrev pub Admits : Option ℕ → List IngestionBatch → Type 0
Admits none batches = Unit
Admits (some run) batches = HasRunning run batches

running_status : (b : IngestionBatch) → is_running b.status ≡ true → b.status ≡ running
running_status b h = ground arith

has_running :
    (run : ℕ) (batches : List IngestionBatch)
    → running_batch_exists_for_classification_run run batches ≡ true
    → HasRunning run batches
unfolding running_batch_exists_for_classification_run
has_running run [] h = absurd cc
has_running run (b ∷ batches) h =
    elim (Bool-cases (b.classification_run_id == run && is_running b.status)) [
      | inl e ↦ inl ((==_iff _ _).0 (ground (arith, e)), running_status b (ground (arith, e)))
      | inr e ↦ inr (has_running run batches (rw e at h))
    ]

admits :
    (run : Option ℕ) (batches : List IngestionBatch)
    → is_admitted run batches ≡ true
    → Admits run batches
unfolding is_admitted
admits none batches h = tt
admits (some run) batches h = has_running run batches h

-- The outcome of a claim from tables `s` that other sessions turn into `between s`.
pub data Taken (eligible : SourceInstance → Bool) (c : InstanceClaim) (s s' : Store)
    : Option SourceInstance × Store → Type 0 where
  no_work : All (λ i. eligible i ≡ false) s.instances → Taken eligible c s s' (none, s)
  lost :
      (i : SourceInstance)
      → eligible i ≡ true
      → (find i.id s'.instances ≡ none)
        ⊎ ((j : SourceInstance) × ((find i.id s'.instances ≡ some j)
              × ((is_unclaimed c j && is_admitted c.classification_run_id s'.batches) ≡ false)))
      → Taken eligible c s s' (none, s')
  took :
      (i j : SourceInstance)
      → eligible i ≡ true
      → All (λ h. eligible h ≡ true → i.created_at ≤ h.created_at) s.instances
      → find i.id s'.instances ≡ some j
      → is_unclaimed c j ≡ true
      → Admits c.classification_run_id s'.batches
      → Taken eligible c s s'
          (some (taken c j), record s' { instances = modify i.id (taken c) s'.instances })

pub claim_source_instance-Taken :
    (eligible : InstanceClaim → Store → SourceInstance → Bool) (locked : ℕ → Bool)
    (between : Store → Store) (c : InstanceClaim) (s : Store)
    → Taken
        (λ i. eligible c s i && not (locked i.id))
        c
        s
        (between s)
        (claim_source_instance eligible locked between c s)
unfolding claim_source_instance take_candidate
claim_source_instance-Taken eligible locked between c s =
    let test : SourceInstance → Bool = λ i. eligible c s i && not (locked i.id) in
    elim (Option-cases (oldest test (λ i. i.created_at) s.instances)) [
      | inl o ↦ rw (claim_source_instance, o) (no_work (oldest_missing test _ s.instances o))
      | inr (i, o) ↦
          let ok = oldest_meets test _ i s.instances o in
          elim (Option-cases (find i.id (between s).instances)) [
            | inl f ↦ rw (claim_source_instance, o, take_candidate, f) (lost i ok (inl f))
            | inr (j, f) ↦
                elim (Bool-cases
                  (is_unclaimed c j && is_admitted c.classification_run_id (between s).batches)) [
                    | inr e ↦
                        rw (claim_source_instance, o, take_candidate, f, e)
                          (lost i ok (inr (j, (f, e))))
                    | inl e ↦
                        rw
                          (
                            claim_source_instance,
                            o,
                            take_candidate,
                            f,
                            e,
                            find_modified i.id (taken c) j (between s).instances (λ x. refl) f,
                          )
                          (took i j ok (oldest_first test _ i s.instances o) f (ground (arith, e)) (
                            admits c.classification_run_id (between s).batches (ground (arith, e))))
                  ]
          ]
    ]

-- An archive is never claimed for identity resolution, nor another file for archive processing.
queues_apart :
    (c c' : InstanceClaim) (s s' : Store) (i : SourceInstance)
    → is_for_identity_resolution c s i ≡ true
    → is_for_archive_processing c' s' i ≡ false
unfolding is_for_identity_resolution is_for_archive_processing
queues_apart c c' s s' i h = ground arith

-- A claim for either queue takes the oldest eligible instance that no other session has locked, and
-- only if, after what other sessions wrote since it was selected, it is still unclaimed or stale and
-- the run, if one is given, still has a running batch; otherwise it writes nothing. No instance is
-- eligible for both queues.
pub claim_source_instance_queues-Taken :
    (locked : ℕ → Bool) (between : Store → Store) (c c' : InstanceClaim) (s s' : Store)
    → Taken
        (λ i. is_for_identity_resolution c s i && not (locked i.id))
        c
        s
        (between s)
        (claim_source_instance_for_identity_resolution locked between c s)
      × (Taken
            (λ i. is_for_archive_processing c s i && not (locked i.id))
            c
            s
            (between s)
            (claim_source_instance_for_archive_processing locked between c s)
          × ((i : SourceInstance)
              → is_for_identity_resolution c s i ≡ true
              → is_for_archive_processing c' s' i ≡ false))
unfolding claim_source_instance_for_identity_resolution claim_source_instance_for_archive_processing
claim_source_instance_queues-Taken locked between c c' s s' = (
  claim_source_instance-Taken is_for_identity_resolution locked between c s,
  (
    claim_source_instance-Taken is_for_archive_processing locked between c s,
    queues_apart c c' s s',
  ),
)
