-- ===== src/Creation/Once.antt =====
-- No file is materialized twice for one discovery run.
use ai_brain.Prelude.{
  ℕ, ◌+◌, ◌≤◌, ◌≡◌, refl, sym, ap, ◌∙◌, Bool, true, false, not, some, List, [], ◌∷◌, ◌++◌, map,
  map-append, filter, filter-append, append_nil, append_assoc, any, All, All-mono, All-append,
  is_some, is_empty, find, find-append, find_appended, find-next_id, next_id, sum_by, sum_by-append,
  sum_by-filter, sum_by-map, if◌then◌else◌, ◌==◌, ==_iff, Option-cases, Bool-cases, inl, inr, arith,
  String,
}
use mathlib.Core.Path.{subst}
use ai_brain.Claims.Rows.{SourceInstance, instance_keyed}
use ai_brain.Selection.Policy.{ClassifiedCandidate, classify}
use ai_brain.Creation.{
  ClassificationRun, run_keyed, Catalogue, Place, place_eq, place_of, place_of_instance,
  is_of_discovery, already_materialized_paths, Creation, new_instance, materialize,
  eligible_candidates, selection, new_run, create_batch,
}
use ai_brain.Creation.Copies.{weight, copies, heft, eligible_fresh, sum-select}

-- A place is materialized at most once for a discovery run.
abbrev pub Once : Catalogue → Type 0
Once c = (id : ℕ) (k : Place) → copies k (already_materialized_paths id c) ≤ 1

-- Each instance's run is there.
abbrev pub Linked : Catalogue → Type 0
Linked c = All (λ i. is_some (find i.classification_run_id c.runs) ≡ true) c.tables.instances

-- What a creation appends to the instances.
record Appended (run_id : ℕ) (xs : List ClassifiedCandidate) (c c' : Catalogue) : Type 0 where
  new : List SourceInstance
  instances : c'.tables.instances ≡ c.tables.instances ++ new
  runs : c'.runs ≡ c.runs
  in_run : All (λ i. i.classification_run_id ≡ run_id) new
  places : map place_of_instance new ≡ map (λ x. place_of x.observation) xs

materialize-Appended :
    (r : Creation) (run_id : ℕ) (xs : List ClassifiedCandidate) (c : Catalogue)
    → Appended run_id xs c (materialize r run_id xs c)
unfolding materialize
materialize-Appended r run_id [] c = record {
  new = [];
  instances = sym (append_nil c.tables.instances);
  runs = refl;
  in_run = tt;
  places = refl;
}
materialize-Appended r run_id (x ∷ xs) c =
    let i = new_instance r run_id x (next_id c.tables.instances) in
    let rest = materialize-Appended r run_id xs _ in
    record {
      new = i ∷ rest.new;
      instances = rest.instances ∙ append_assoc c.tables.instances (i ∷ []) rest.new;
      runs = rest.runs;
      in_run = (refl, rest.in_run);
      places = ap (λ t. place_of_instance i ∷ t) rest.places;
    }

filter_constant :
    (f : SourceInstance → Bool) (b : Bool) (xs : List SourceInstance)
    → All (λ i. f i ≡ b) xs
    → filter f xs ≡ (if b then xs else [])
filter_constant f true [] h = refl
filter_constant f false [] h = refl
filter_constant f true (x ∷ xs) h = rw h.0 (ap (λ t. x ∷ t) (filter_constant f true xs h.1))
filter_constant f false (x ∷ xs) h = rw h.0 (filter_constant f false xs h.1)

filter_same :
    (f g : SourceInstance → Bool) (xs : List SourceInstance)
    → All (λ i. f i ≡ g i) xs
    → filter f xs ≡ filter g xs
filter_same f g [] h = refl
filter_same f g (x ∷ xs) h = rw (h.0, filter_same f g xs h.1) refl

module _ (r : Creation) (c : Catalogue) (linked : Linked c) where
  abbrev run_id : ℕ
  run_id = next_id c.runs

  abbrev runs_after : List ClassificationRun
  runs_after = c.runs ++ new_run r run_id ∷ []

  -- The instances that are there stay with their runs.
  old_run :
      (i : SourceInstance)
      → is_some (find i.classification_run_id c.runs) ≡ true
      → find i.classification_run_id runs_after ≡ find i.classification_run_id c.runs
  old_run i h = elim (Option-cases (find i.classification_run_id c.runs)) [
    | inl o ↦ let q = rw o at h in absurd cc
    | inr (x, o) ↦ find-append i.classification_run_id x c.runs (new_run r run_id ∷ []) o ∙ sym o
  ]

  new_found : find run_id runs_after ≡ some (new_run r run_id)
  new_found = find_appended (new_run r run_id) c.runs (find-next_id c.runs)

  -- Whether an instance is of a discovery run, after the creation.
  abbrev test : ℕ → SourceInstance → Bool
  test id i = is_of_discovery id (find i.classification_run_id runs_after)

  new_test :
      (id : ℕ) (i : SourceInstance)
      → i.classification_run_id ≡ run_id
      → test id i ≡ (r.discovery_run_id == id)
  new_test id i h = rw (h, new_found) (ground arith)

  old_places :
      (id : ℕ)
      → map place_of_instance (filter (test id) c.tables.instances)
        ≡ already_materialized_paths id c
  unfolding already_materialized_paths
  old_places id = ap (map place_of_instance) (
      filter_same (test id) (λ i. is_of_discovery id (find i.classification_run_id c.runs))
        c.tables.instances
        (All-mono _ _ c.tables.instances (λ i h. ap (is_of_discovery id) (old_run i h)) linked))

  new_places :
      (id : ℕ) (xs : List ClassifiedCandidate) (new : List SourceInstance)
      → All (λ i. i.classification_run_id ≡ run_id) new
      → map place_of_instance new ≡ map (λ x. place_of x.observation) xs
      → map place_of_instance (filter (test id) new)
        ≡ (if r.discovery_run_id == id then map (λ x. place_of x.observation) xs else [])
  new_places id xs new h q =
      let all =
        filter_constant (test id) (r.discovery_run_id == id) new
          (All-mono _ _ new (new_test id) h) in
      elim (Bool-cases (r.discovery_run_id == id)) [
        | inl e ↦ rw e (ap (map place_of_instance) (rw e at all) ∙ q)
        | inr e ↦ rw e (ap (map place_of_instance) (rw e at all))
      ]

  -- The places of a discovery run after the creation.
  already_after :
      (id : ℕ) (xs : List ClassifiedCandidate) (c' : Catalogue)
      → Appended run_id xs (record c { runs = runs_after }) c'
      → already_materialized_paths id c'
        ≡ already_materialized_paths id c
          ++ (if r.discovery_run_id == id then map (λ x. place_of x.observation) xs else [])
  unfolding already_materialized_paths
  already_after id xs c' a =
      ap
        (λ rs.
          map place_of_instance (
            filter (λ i. is_of_discovery id (find i.classification_run_id rs)) c'.tables.instances))
        a.runs
      ∙ ap (λ is. map place_of_instance (filter (test id) is)) a.instances
      ∙ ap (map place_of_instance) (filter-append (test id) c.tables.instances a.new)
      ∙ map-append place_of_instance (filter (test id) c.tables.instances) (filter (test id) a.new)
      ∙ ap (λ ps. ps ++ map place_of_instance (filter (test id) a.new)) (old_places id)
      ∙ ap (λ ps. already_materialized_paths id c ++ ps) (new_places id xs a.new a.in_run a.places)

  Linked-after :
      (xs : List ClassifiedCandidate) (c' : Catalogue)
      → Appended run_id xs (record c { runs = runs_after }) c'
      → Linked c'
  Linked-after xs c' a =
      let old =
        All-mono (λ i. is_some (find i.classification_run_id c.runs) ≡ true)
          (λ i. is_some (find i.classification_run_id runs_after) ≡ true) c.tables.instances
          (λ i h. ap is_some (old_run i h) ∙ h) linked in
      let new =
        All-mono _ (λ i. is_some (find i.classification_run_id runs_after) ≡ true) a.new
          (λ i h. ap (λ k. is_some (find k runs_after)) h ∙ ap is_some new_found) a.in_run in
      rw (a.instances, a.runs) (All-append _ c.tables.instances a.new old new)

  -- The places selected stand at most once, and not among those that are there.
  selected_once :
      (k : Place)
      → copies k (already_materialized_paths r.discovery_run_id c) ≤ 1
      → copies k (map place_of r.candidates) ≤ 1
      → copies k (already_materialized_paths r.discovery_run_id c)
          + copies k (map (λ x. place_of x.observation) (selection r c).selected)
        ≤ 1
  unfolding selection eligible_candidates classify
  selected_once k h q =
      let already = already_materialized_paths r.discovery_run_id c in
      let fresh = filter (λ o. not (any (place_eq (place_of o)) already)) r.candidates in
      let classified = map classify fresh in
      let kept = eligible_candidates r c in
      let none_twice = eligible_fresh k already r.candidates h q in
      let of_fresh : sum_by (heft k) classified ≡ sum_by (λ o. weight k (place_of o)) fresh =
        sum_by-map (heft k) classify fresh in
      let of_kept : sum_by (heft k) kept ≤ sum_by (heft k) classified =
        sum_by-filter (heft k) _ classified in
      let of_selected : sum_by (heft k) (selection r c).selected ≤ sum_by (heft k) kept =
        sum-select (heft k) kept r.policy _ in
      let places = sum_by-map (weight k) (λ x. place_of x.observation) (selection r c).selected in
      omega (arith, none_twice, of_fresh, of_kept, of_selected, places)

  after_once :
      (id : ℕ) (k : Place) (xs : List ClassifiedCandidate) (c' : Catalogue)
      → Appended run_id xs (record c { runs = runs_after }) c'
      → copies k (already_materialized_paths id c) ≤ 1
      → copies k (already_materialized_paths r.discovery_run_id c)
          + copies k (map (λ x. place_of x.observation) xs)
        ≤ 1
      → copies k (already_materialized_paths id c') ≤ 1
  after_once id k xs c' a h q =
      let after = ap (copies k) (already_after id xs c' a) in
      let split = sum_by-append (weight k) (already_materialized_paths id c) in
      elim (Bool-cases (r.discovery_run_id == id)) [
        | inr e ↦ let none_new = rw e at after in omega (arith, none_new, split [], h)
        | inl e ↦
            let q' =
              subst
                (λ j.
                  copies k (already_materialized_paths j c)
                    + copies k (map (λ x. place_of x.observation) xs)
                  ≤ 1)
                ((==_iff r.discovery_run_id id).0 e) q in
            let some_new = rw e at after in
            omega (arith, some_new, split (map (λ x. place_of x.observation) xs), q')
      ]

-- Whatever a batch is created from, no place is materialized twice for any discovery run, if none was
-- before and the candidates have each place once; and each instance's run stays there.
pub create_batch-Once :
    (fingerprint : Creation → String → List Place → String) (r : Creation) (c : Catalogue)
    → Linked c
    → Once c
    → ((k : Place) → copies k (map place_of r.candidates) ≤ 1)
    → let c' = (create_batch fingerprint r c).1 in Once c' × Linked c'
unfolding create_batch already_materialized_paths
create_batch-Once fingerprint r c linked once distinct =
    elim (Bool-cases (is_empty (selection r c).selected)) [
      | inl e ↦ rw (create_batch, e) (once, linked)
      | inr e ↦
          let c' =
            materialize r (next_id c.runs) (selection r c).selected
              (record c { runs = runs_after r c linked }) in
          let a : Appended (run_id r c linked) (selection r c).selected
              (record c { runs = runs_after r c linked }) c' =
            materialize-Appended r (next_id c.runs) (selection r c).selected _ in
          rw (create_batch, e)
            (
              λ id k.
                  after_once r c linked id k (selection r c).selected c' a (once id k)
                    (selected_once r c linked k (once r.discovery_run_id k) (distinct k)),
              Linked-after r c linked (selection r c).selected c' a,
            )
    ]
