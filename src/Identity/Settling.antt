-- ===== src/Identity/Settling.antt =====
-- How the work on a file that was taken ends.
use ai_brain.Prelude.{
  ℕ, ◌≡◌, refl, sym, ap, ◌∙◌, String, Bool, true, none, some, List, [], ◌∷◌, ◌++◌, find,
  find_modified, Option-cases, Bool-cases, inl, inr, arith, ◌==◌,
}
use mathlib.Core.Option.{some_inj}
use ai_brain.Paths.{path_of}
use ai_brain.Claims.Rows.{ContentIdentityGroup, SourceInstance, IngestionAttempt, instance_keyed}
use ai_brain.Claims.Groups.{Store}
use ai_brain.Claims.Instances.{
  InstanceClaim, claim_source_instance_for_identity_resolution, release_source_instance_claim,
  let_go,
}
use ai_brain.Identity.Attempts.{
  Answer, returned, value_error, os_error, Report, record_identity_resolution_attempt,
  has_failure_fields,
}
use ai_brain.Identity.Contents.{classify_eligibility, assign_content_identity}
use ai_brain.Identity.Resolution.{
  Surroundings, is_kept, record_success, keep_and_assign, identify, resolve_claimed_instance,
  release_after, resolve_taken, resolve_next,
}
use ai_brain.Identity.Keeping.{Reading-cases}

-- The last attempt in the tables is at the instance.
pub record Recorded (i : SourceInstance) (s : Store) : Type 0 where
  pub before : List IngestionAttempt
  pub attempt : IngestionAttempt
  pub last : s.attempts ≡ before ++ attempt ∷ []
  pub about : attempt.source_instance_id ≡ some i.id

-- An answer that returned left the record of an attempt.
abbrev pub RecordedIf : {A : Type 0} → SourceInstance → Answer A → Store → Type 0
RecordedIf i (returned x) s = Recorded i s
RecordedIf i _ s = Unit

-- The instance is not held under the generation that it was taken at.
abbrev pub Freed : SourceInstance → Store → Type 0
Freed i s =
    (row : SourceInstance)
    → find i.id s.instances ≡ some row
    → (row.claim_generation == i.claim_generation) ≡ true
    → (row.claimed_by ≡ none) × (row.claimed_at ≡ none)

recorded :
    (i : SourceInstance) (r : Report) (s : Store)
    → has_failure_fields r.outcome r.failure_code r.failure_detail r.retryable ≡ true
    → Recorded i (record_identity_resolution_attempt i.id r s).1
unfolding record_identity_resolution_attempt
recorded i r s h = rw h (record { before = s.attempts; attempt = _; last = refl; about = refl })

record_success-RecordedIf :
    (w : Surroundings) (i : SourceInstance) (worker : String) (r : Answer Unit × Store)
    → let t = record_success w i worker r in RecordedIf i t.0 t.1
unfolding record_success
record_success-RecordedIf w i worker (returned x, s) = recorded i _ s refl
record_success-RecordedIf w i worker (value_error, s) = tt
record_success-RecordedIf w i worker (os_error, s) = tt

keep_and_assign-RecordedIf :
    (w : Surroundings) (i : SourceInstance) (worker bytes : String)
    (g : ContentIdentityGroup × Store)
    → let t = keep_and_assign w i worker bytes g in RecordedIf i t.0 t.1
unfolding keep_and_assign
keep_and_assign-RecordedIf w i worker bytes (g, s) =
    elim (Bool-cases (is_kept w (classify_eligibility (path_of i.root_t7_path)) g.id bytes)) [
      | inl e ↦
          rw (keep_and_assign, e)
            (record_success-RecordedIf w i worker (assign_content_identity i.id g.id s))
      | inr e ↦ rw (keep_and_assign, e) tt
    ]

resolve_claimed_instance-RecordedIf :
    (w : Surroundings) (i : SourceInstance) (worker : String) (s : Store)
    → let t = resolve_claimed_instance w i worker s in RecordedIf i t.0 t.1
unfolding resolve_claimed_instance identify
resolve_claimed_instance-RecordedIf w i worker s =
    elim (Reading-cases (w.read_bytes i.root_t7_path)) [
      | inl (d, e) ↦ rw (resolve_claimed_instance, e) (recorded i _ s refl)
      | inr (inl (d, e)) ↦ rw (resolve_claimed_instance, e) (recorded i _ s refl)
      | inr (inr (inl (d, e))) ↦ rw (resolve_claimed_instance, e) (recorded i _ s refl)
      | inr (inr (inr (bytes, e))) ↦
          rw (resolve_claimed_instance, e) (keep_and_assign-RecordedIf w i worker bytes _)
    ]

release-attempts :
    (id generation : ℕ) (s : Store)
    → (release_source_instance_claim id generation s).1.attempts ≡ s.attempts
unfolding release_source_instance_claim
release-attempts id generation s = elim (Option-cases (find id s.instances)) [
  | inl o ↦ rw (release_source_instance_claim, o) refl
  | inr (i, o) ↦ elim (Bool-cases (i.claim_generation == generation)) [
    | inl e ↦ rw (release_source_instance_claim, o, e) refl
    | inr e ↦ rw (release_source_instance_claim, o, e) refl
  ]
]

release-Freed :
    (i : SourceInstance) (s : Store)
    → Freed i (release_source_instance_claim i.id i.claim_generation s).1
unfolding release_source_instance_claim
release-Freed i s = elim (Option-cases (find i.id s.instances)) [
  | inl o ↦ rw (release_source_instance_claim, o) (λ row f g. absurd (ground (arith, o, f)))
  | inr (j, o) ↦ elim (Bool-cases (j.claim_generation == i.claim_generation)) [
    | inl e ↦
        rw (release_source_instance_claim, o, e)
          (λ row f g.
            let same : let_go j ≡ row =
              some_inj.0 (sym (find_modified i.id let_go j s.instances (λ x. refl) o) ∙ f) in
            (sym (ap (λ x. x.claimed_by) same), sym (ap (λ x. x.claimed_at) same)))
    | inr e ↦
        rw (release_source_instance_claim, o, e)
          (λ row f g.
            let same : j ≡ row = some_inj.0 (sym o ∙ f) in
            let test = ap (λ x. x.claim_generation == i.claim_generation) same in
            absurd (ground (arith, sym e ∙ test ∙ g)))
  ]
]

Recorded-at :
    (i : SourceInstance) (s s' : Store) → s'.attempts ≡ s.attempts → Recorded i s → Recorded i s'
Recorded-at i s s' h r = record {
  before = r.before;
  attempt = r.attempt;
  last = h ∙ r.last;
  about = r.about;
}

release_after-Freed :
    (i : SourceInstance) (r : Answer Unit × Store)
    → RecordedIf i r.0 r.1
    → let t = release_after i r in Freed i t.1 × RecordedIf i t.0 t.1
unfolding release_after
release_after-Freed i (returned x, s) h =
    (release-Freed i s, Recorded-at i s _ (release-attempts i.id i.claim_generation s) h)
release_after-Freed i (value_error, s) h = (release-Freed i s, tt)
release_after-Freed i (os_error, s) h = (release-Freed i s, tt)

-- A file that was taken from the queue is not held under that generation once the call ends, whether
-- it returns or raises; and when it returns, its last write to the attempts is one at this file.
pub resolve_next-Freed :
    (w : Surroundings) (locked : ℕ → Bool) (c : InstanceClaim) (i : SourceInstance) (s s' : Store)
    → claim_source_instance_for_identity_resolution locked w.before_claiming c s ≡ (some i, s')
    → let r = resolve_next w locked c s in Freed i r.1 × RecordedIf i r.0 r.1
unfolding resolve_next resolve_taken
resolve_next-Freed w locked c i s s' h =
    rw (resolve_next, h)
      (release_after-Freed i (resolve_claimed_instance w i c.worker_id s')
        (resolve_claimed_instance-RecordedIf w i c.worker_id s'))
