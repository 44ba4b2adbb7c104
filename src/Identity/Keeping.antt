-- ===== src/Identity/Keeping.antt =====
-- What every call keeps of the tables, whatever other sessions commit meanwhile.
use ai_brain.Prelude.{
  ℕ, ◌≡◌, ◌⊎◌, refl, sym, ap, ◌∙◌, String, Bool, true, false, ◌&&◌, Option, none, some, List, [],
  ◌∷◌, ◌++◌, append_nil, append_assoc, All, All-append, is_some, is_none, find, find_by,
  find-modify, modify, Option-cases, Bool-cases, inl, inr, arith, ◌==◌, ==_iff,
}
use mathlib.Core.Path.{subst}
use ai_brain.Paths.{path_of}
use ai_brain.Claims.Rows.{
  ContentIdentityGroup, ContentPipelineState, SourceInstance, IngestionAttempt,
  IngestionAttemptStage, instance_keyed, group_keyed,
}
use ai_brain.Claims.Groups.{Store}
use ai_brain.Claims.Instances.{
  InstanceClaim, is_for_identity_resolution, claim_source_instance_for_identity_resolution, taken,
  let_go, release_source_instance_claim,
}
use ai_brain.Claims.Admission.{Taken, no_work, lost, took, claim_source_instance-Taken}
use ai_brain.Identity.Attempts.{
  Answer, returned, value_error, os_error, Report, parent_matches_kind, failure_has_detail,
  has_failure_fields, record_pipeline_attempt, record_identity_resolution_attempt,
  is_identity_stage,
}
use ai_brain.Identity.Contents.{
  classify_eligibility, Identity, is_identified, find_identity, get_or_create_group, assigned,
  assign_content_identity,
}
use ai_brain.Identity.Resolution.{
  Surroundings, Reading, content, file_not_found, permission_error, other_os_error, is_kept,
  record_success, keep_and_assign, release_after, resolve_taken, identify, resolve_claimed_instance,
  resolve_next,
}

abbrev pub is_sound : IngestionAttempt → Bool
is_sound a = parent_matches_kind a && failure_has_detail a

abbrev pub identity_of : ContentIdentityGroup → Identity
identity_of g = record {
  kind = g.identity_kind;
  algorithm = g.identity_algorithm;
  hash = g.identity_hash;
}

-- No identity has two groups.
abbrev pub Unique : List ContentIdentityGroup → Type 0
Unique [] = Unit
Unique (g ∷ gs) = All (λ h. is_identified (identity_of h) g ≡ false) gs × Unique gs

-- The instance is there, with the content it has if it has one.
abbrev pub Remains : ℕ → SourceInstance → List SourceInstance → Type 0
Remains id i instances =
    (j : SourceInstance) × ((find id instances ≡ some j)
      × (is_some i.content_identity_group_id ≡ true
          → j.content_identity_group_id ≡ i.content_identity_group_id))

-- From `s` to `s'`, attempts were only appended, each with the columns of its kind and the details of
-- its failure; the content of an instance was written at most once; and no identity got a second
-- group.
pub record Kept (s s' : Store) : Type 0 where
  pub added : List IngestionAttempt
  pub appended : s'.attempts ≡ s.attempts ++ added
  pub sound : All (λ a. is_sound a ≡ true) added
  pub once :
      (id : ℕ) (i : SourceInstance) → find id s.instances ≡ some i → Remains id i s'.instances
  pub unique : Unique s.groups → Unique s'.groups

pub Kept-refl : (s : Store) → Kept s s
Kept-refl s = record {
  added = [];
  appended = sym (append_nil s.attempts);
  sound = tt;
  once = λ id i f. (i, (f, λ q. refl));
  unique = λ u. u;
}

pub Kept-trans : {s s' s'' : Store} → Kept s s' → Kept s' s'' → Kept s s''
Kept-trans {s} h k = record {
  added = h.added ++ k.added;
  appended =
      k.appended ∙ ap (λ t. t ++ k.added) h.appended ∙ append_assoc s.attempts h.added k.added;
  sound = All-append _ h.added k.added h.sound k.sound;
  once = λ id i f.
      let (j, (g, q)) = h.once id i f in
      let (l, (g', q')) = k.once id j g in (l, (g', λ e. q' (rw (q e) e) ∙ q e));
  unique = λ u. k.unique (h.unique u);
}

-- Only attempts are added.
Kept-attempt :
    (s : Store) (a : IngestionAttempt)
    → is_sound a ≡ true
    → Kept s (record s { attempts = s.attempts ++ a ∷ [] })
Kept-attempt s a h = record {
  added = a ∷ [];
  appended = refl;
  sound = (h, tt);
  once = λ id i f. (i, (f, λ q. refl));
  unique = λ u. u;
}

-- Only an instance without a content, or its other columns, are changed.
Kept-instance :
    (s : Store) (k : ℕ) (f : SourceInstance → SourceInstance)
    → ((x : SourceInstance) → (f x).id ≡ x.id)
    → ((x : SourceInstance)
        → find k s.instances ≡ some x
        → is_some x.content_identity_group_id ≡ true
        → (f x).content_identity_group_id ≡ x.content_identity_group_id)
    → Kept s (record s { instances = modify k f s.instances })
Kept-instance s k f same keeps = record {
  added = [];
  appended = sym (append_nil s.attempts);
  sound = tt;
  once = λ id i g. elim (Bool-cases (k == id)) [
    | inl e ↦
        let at : find k s.instances ≡ some i =
          subst (λ j. find j s.instances ≡ some i) (sym ((==_iff k id).0 e)) g in
        (f i, (rw (find-modify id k f s.instances same, e, g) refl, keeps i at))
    | inr e ↦ (i, (rw (find-modify id k f s.instances same, e) g, λ q. refl))
  ];
  unique = λ u. u;
}

Kept-record_identity_resolution_attempt :
    (id : ℕ) (r : Report) (s : Store) → Kept s (record_identity_resolution_attempt id r s).1
unfolding record_identity_resolution_attempt
Kept-record_identity_resolution_attempt id r s =
    elim (Bool-cases (has_failure_fields r.outcome r.failure_code r.failure_detail r.retryable)) [
      | inl e ↦ rw e (Kept-attempt s _ (rw e refl))
      | inr e ↦ rw e (Kept-refl s)
    ]

pub Kept-record_pipeline_attempt :
    (id : ℕ) (stage : IngestionAttemptStage) (r : Report) (s : Store)
    → Kept s (record_pipeline_attempt id stage r s).1
unfolding record_pipeline_attempt
Kept-record_pipeline_attempt id stage r s = elim (Bool-cases (is_identity_stage stage)) [
  | inl d ↦ rw d (Kept-refl s)
  | inr d ↦
      elim (Bool-cases (has_failure_fields r.outcome r.failure_code r.failure_detail r.retryable)) [
        | inl e ↦ rw (d, e) (Kept-attempt s _ (rw (d, e) refl))
        | inr e ↦ rw (d, e) (Kept-refl s)
      ]
]

Unique-append :
    (y : ContentIdentityGroup) (gs : List ContentIdentityGroup)
    → Unique gs
    → find_by (is_identified (identity_of y)) gs ≡ none
    → Unique (gs ++ y ∷ [])
unfolding find_by
Unique-append y [] u h = (tt, tt)
Unique-append y (g ∷ gs) u h =
    let differs : is_identified (identity_of y) g ≡ false = ground (arith, h) in
    let rest : find_by (is_identified (identity_of y)) gs ≡ none = ground (arith, h) in
    (All-append _ gs (y ∷ []) u.0 (differs, tt), Unique-append y gs u.1 rest)

Kept-get_or_create_group :
    (i : Identity) (state : ContentPipelineState) (now : ℕ) (between : Store → Store) (s : Store)
    → Kept s (between s)
    → Kept s (get_or_create_group i state now between s).1
unfolding get_or_create_group
Kept-get_or_create_group i state now between s b = elim (Option-cases (find_identity i s.groups)) [
  | inr (g, o) ↦ rw (get_or_create_group, o) (Kept-refl s)
  | inl o ↦ elim (Option-cases (find_identity i (between s).groups)) [
    | inr (g, p) ↦ rw (get_or_create_group, o, p) b
    | inl p ↦
        rw (get_or_create_group, o, p)
          (Kept-trans b (record {
            added = [];
            appended = sym (append_nil (between s).attempts);
            sound = tt;
            once = λ id x f. (x, (f, λ q. refl));
            unique = λ u. Unique-append _ (between s).groups u p;
          }))
  ]
]

Kept-assign_content_identity :
    (instance_id group_id : ℕ) (s : Store)
    → Kept s (assign_content_identity instance_id group_id s).1
unfolding assign_content_identity
Kept-assign_content_identity instance_id group_id s =
    elim (Option-cases (find instance_id s.instances)) [
      | inl o ↦ rw (assign_content_identity, o) (Kept-refl s)
      | inr (i, o) ↦ elim (Bool-cases (is_none i.content_identity_group_id)) [
        | inr e ↦ rw (assign_content_identity, o, e) (Kept-refl s)
        | inl e ↦
            rw (assign_content_identity, o, e)
              (Kept-instance s instance_id (assigned group_id) (λ x. refl)
                (λ x f q. absurd (ground (arith, o, f, e, q))))
      ]
    ]

Kept-release :
    (id generation : ℕ) (s : Store) → Kept s (release_source_instance_claim id generation s).1
unfolding release_source_instance_claim
Kept-release id generation s = elim (Option-cases (find id s.instances)) [
  | inl o ↦ rw (release_source_instance_claim, o) (Kept-refl s)
  | inr (i, o) ↦ elim (Bool-cases (i.claim_generation == generation)) [
    | inl e ↦
        rw (release_source_instance_claim, o, e)
          (Kept-instance s id let_go (λ x. refl) (λ x f q. refl))
    | inr e ↦ rw (release_source_instance_claim, o, e) (Kept-refl s)
  ]
]

Taken-Kept :
    (eligible : SourceInstance → Bool) (c : InstanceClaim) (s s' : Store)
    {r : Option SourceInstance × Store}
    → Kept s s'
    → Taken eligible c s s' r
    → Kept s r.1
Taken-Kept eligible c s s' h (no_work a) = Kept-refl s
Taken-Kept eligible c s s' h (lost i e l) = h
Taken-Kept eligible c s s' h (took i j e a f u m) =
    Kept-trans h (Kept-instance s' i.id (taken c) (λ x. refl) (λ x f q. refl))

pub Reading-cases :
    (r : Reading)
    → ((d : String) × (r ≡ file_not_found d))
      ⊎ (((d : String) × (r ≡ permission_error d))
          ⊎ (((d : String) × (r ≡ other_os_error d)) ⊎ ((d : String) × (r ≡ content d))))
Reading-cases (file_not_found d) = inl (d, refl)
Reading-cases (permission_error d) = inr (inl (d, refl))
Reading-cases (other_os_error d) = inr (inr (inl (d, refl)))
Reading-cases (content d) = inr (inr (inr (d, refl)))

Kept-record_success :
    (w : Surroundings) (i : SourceInstance) (worker : String) (s : Store) (r : Answer Unit × Store)
    → Kept s r.1
    → Kept s (record_success w i worker r).1
unfolding record_success
Kept-record_success w i worker s (returned x, s') h =
    Kept-trans h (Kept-record_identity_resolution_attempt i.id _ s')
Kept-record_success w i worker s (value_error, s') h = h
Kept-record_success w i worker s (os_error, s') h = h

Kept-keep_and_assign :
    (w : Surroundings) (i : SourceInstance) (worker bytes : String) (s : Store)
    (g : ContentIdentityGroup × Store)
    → Kept s g.1
    → Kept s (keep_and_assign w i worker bytes g).1
unfolding keep_and_assign
Kept-keep_and_assign w i worker bytes s (g, s') h =
    elim (Bool-cases (is_kept w (classify_eligibility (path_of i.root_t7_path)) g.id bytes)) [
      | inl e ↦
          rw (keep_and_assign, e)
            (Kept-record_success w i worker s (assign_content_identity i.id g.id s')
              (Kept-trans h (Kept-assign_content_identity i.id g.id s')))
      | inr e ↦ rw (keep_and_assign, e) h
    ]

module _ (w : Surroundings) (quiet : (s : Store) → Kept s (w.before_inserting s)) where
  Kept-resolve_claimed_instance :
      (i : SourceInstance) (worker : String) (s : Store)
      → Kept s (resolve_claimed_instance w i worker s).1
  unfolding resolve_claimed_instance identify
  Kept-resolve_claimed_instance i worker s = elim (Reading-cases (w.read_bytes i.root_t7_path)) [
    | inl (d, e) ↦
        rw (resolve_claimed_instance, e) (Kept-record_identity_resolution_attempt i.id _ s)
    | inr (inl (d, e)) ↦
        rw (resolve_claimed_instance, e) (Kept-record_identity_resolution_attempt i.id _ s)
    | inr (inr (inl (d, e))) ↦
        rw (resolve_claimed_instance, e) (Kept-record_identity_resolution_attempt i.id _ s)
    | inr (inr (inr (bytes, e))) ↦
        rw (resolve_claimed_instance, e)
          (Kept-keep_and_assign w i worker bytes s _
            (Kept-get_or_create_group _ _ w.now w.before_inserting s (quiet s)))
  ]

  Kept-resolve_taken :
      (worker : String) (s : Store) (r : Option SourceInstance × Store)
      → Kept s r.1
      → Kept s (resolve_taken w worker r).1
  unfolding resolve_taken release_after
  Kept-resolve_taken worker s (none, s') h = h
  Kept-resolve_taken worker s (some i, s') h = Kept-trans h (
      Kept-trans (Kept-resolve_claimed_instance i worker s')
        (Kept-release i.id i.claim_generation _))

-- Whatever other sessions commit in the two gaps that keeps this much, taking a file from the queue
-- and identifying it only appends attempts, each with the columns of its kind and the details of its
-- failure, never changes a content once assigned, and gives no identity a second group.
pub resolve_next-Kept :
    (w : Surroundings) (locked : ℕ → Bool) (c : InstanceClaim) (s : Store)
    → ((t : Store) → Kept t (w.before_claiming t))
    → ((t : Store) → Kept t (w.before_inserting t))
    → Kept s (resolve_next w locked c s).1
unfolding resolve_next claim_source_instance_for_identity_resolution
resolve_next-Kept w locked c s before quiet = Kept-resolve_taken w quiet c.worker_id s _ (
    Taken-Kept _ c s (w.before_claiming s) (before s)
      (claim_source_instance-Taken is_for_identity_resolution locked w.before_claiming c s))
