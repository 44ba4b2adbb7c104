-- ===== src/Claims/Meter.antt =====
-- What the service promises of a batch: a meter of embeddings with a cap. An amount is held, then
-- spent or given back; nothing is held beyond the cap, and what is spent stays spent.
use ai_brain.Prelude.{
  ℕ, ◌+◌, ◌≤◌, ◌≡◌, refl, ap, ◌∙◌, some, List, [], ◌∷◌, ◌++◌, find-append, inl, inr, arith, ◌==◌,
  Bool-cases, Option-cases, find, modify,
}
use ai_brain.Batch.Model.{IngestionBatch, batch_keyed}
use ai_brain.Claims.Rows.{group_keyed}
use ai_brain.Claims.Groups.{Store, granted, released}
use ai_brain.Claims.Reservations.{set_reservation, clear_reservation, credited}
use ai_brain.Claims.Changes.{
  share_of, live, Budget, budget, budget_of, Change, Changes, grant, release, reserve, consume,
  refunded, others, created, done, later, cost, costs, row_at-find,
}
use ai_brain.Claims.Refunding.{
  live-modify, budget-other, budget-own, budget-known, Lowered, refund-Lowered, recover-Lowered,
}

pub record Meter : Type 0 where
  pub held : ℕ
  pub spent : ℕ

pub data MeterStep (cap : ℕ) (m m' : Meter) : Type 0 where
  hold :
      (n : ℕ)
      → m.held + m.spent + n ≤ cap
      → m'.held ≡ m.held + n
      → m'.spent ≡ m.spent
      → MeterStep cap m m'
  spend : (n : ℕ) → m.held ≡ m'.held + n → m'.spent ≡ m.spent + n → MeterStep cap m m'
  give_back : (n : ℕ) → m.held ≡ m'.held + n → m'.spent ≡ m.spent → MeterStep cap m m'

pub data MeterSteps (cap : ℕ) : Meter → Meter → Type 0 where
  stay : (m : Meter) → MeterSteps cap m m
  next : (m m' m'' : Meter) → MeterStep cap m m' → MeterSteps cap m' m'' → MeterSteps cap m m''

moves :
    (cap : ℕ) {m m' m'' : Meter}
    → MeterSteps cap m m'
    → MeterSteps cap m' m''
    → MeterSteps cap m m''
moves cap (stay m) r = r
moves cap (next m m' n q s) r = next m m' _ q (moves cap s r)

-- The meter of a batch in the tables: the groups hold what is held, and the batch counts it
-- together with what is spent.
pub record Shows (b cap : ℕ) (s : Store) (m : Meter) : Type 0 where
  pub counted : budget b s.batches ≡ some (record { used = m.held + m.spent; cap = cap })
  pub holds : live b s.groups ≡ m.held
  pub within : m.held + m.spent ≤ cap

-- A meter that the tables show afterwards, reached by its moves, of which those that spend make up
-- exactly an amount.
pub record Moved (b cap amount : ℕ) (m : Meter) (s' : Store) : Type 0 where
  pub meter : Meter
  pub shows : Shows b cap s' meter
  pub steps : MeterSteps cap m meter
  pub spends : meter.spent ≡ m.spent + amount

given_back :
    (b cap n : ℕ) (s s' : Store) (m : Meter)
    → Shows b cap s m
    → live b s'.groups + n ≡ live b s.groups
    → Lowered b (m.held + m.spent) cap n s'.batches
    → Moved b cap 0 m s'
given_back b cap n s s' m h l w =
    let held = live b s'.groups in
    let m' : Meter = record { held = held; spent = m.spent } in
    record {
      meter = m';
      shows = record {
        counted =
            w.counted
            ∙ ap (λ u. some (record { used = u; cap = cap })) (omega (arith, w.split, l, h.holds));
        holds = refl;
        within = omega (arith, h.within, l, h.holds);
      };
      steps = next m m' m' (give_back n (omega (arith, l, h.holds)) refl) (stay m');
      spends = omega arith;
    }

-- The meter after some of what was held is spent, and another amount held.
held_anew :
    (b cap o n rest : ℕ) (s s' : Store) (m : Meter)
    → Shows b cap s m
    → rest + o ≡ live b s.groups
    → live b s'.groups ≡ rest + n
    → m.held + m.spent + n ≤ cap
    → budget b s'.batches ≡ some (record { used = m.held + m.spent + n; cap = cap })
    → Moved b cap o m s'
held_anew b cap o n rest s s' m h l k room w =
    let mid : Meter = record { held = rest; spent = m.spent + o } in
    let m' : Meter = record { held = rest + n; spent = m.spent + o } in
    record {
      meter = m';
      shows = record {
        counted = w ∙ ap (λ u. some (record { used = u; cap = cap })) (omega (arith, l, h.holds));
        holds = k;
        within = omega (arith, room, l, h.holds);
      };
      steps =
          next m mid m' (spend o (omega (arith, l, h.holds)) refl)
            (next mid m' m' (hold n (omega (arith, room, l, h.holds)) refl refl) (stay m'));
      spends = refl;
    }

-- Nothing of the batch moves.
stays :
    (b cap : ℕ) (s s' : Store) (m : Meter)
    → Shows b cap s m
    → live b s'.groups ≡ live b s.groups
    → ((x : Budget) → budget b s.batches ≡ some x → budget b s'.batches ≡ some x)
    → Moved b cap 0 m s'
stays b cap s s' m h l q = record {
  meter = m;
  shows = record { counted = q _ h.counted; holds = l ∙ h.holds; within = h.within };
  steps = stay m;
  spends = omega arith;
}

budget-append :
    (b : ℕ) (x : IngestionBatch) (batches : List IngestionBatch) (y : Budget)
    → budget b batches ≡ some y
    → budget b (batches ++ x ∷ []) ≡ some y
budget-append b x batches y e = elim (Option-cases (find b batches)) [
  | inl o ↦ let q = rw o at e in absurd cc
  | inr (z, o) ↦ rw (find-append b z batches (x ∷ []) o) (rw o at e)
]

-- Every transaction is a sequence of moves of every batch's meter.
pub Change-Moved :
    (b cap : ℕ) {s s' : Store} (m : Meter) (c : Change s s')
    → Shows b cap s m
    → Moved b cap (cost b c) m s'
unfolding granted
Change-Moved b cap {s} m (grant c g batches f r) h =
    given_back b cap (share_of b g) s _ m h
      (omega (arith, live-modify b g.id (granted c) g s.groups f))
      (recover-Lowered b _ cap _ _ s.batches batches r h.counted)
Change-Moved b cap {s} m (release id generation state g f) h =
    stays b cap s _ m h
      (omega
        (arith, live-modify b id (released state) g s.groups (row_at-find id generation _ g f)))
      (λ x e. e)
Change-Moved b cap {s} m (consume id generation g f) h =
    held_anew b cap (share_of b g) 0 (live b (modify id clear_reservation s.groups)) s _ m h
      (omega
        (arith, live-modify b id clear_reservation g s.groups (row_at-find id generation _ g f)))
      (omega arith) (omega (arith, h.within))
      (h.counted ∙ ap (λ u. some (record { used = u; cap = cap })) (omega arith))
Change-Moved b cap {s} m (refunded id generation n g batches f q r) h =
    given_back b cap (share_of b g) s _ m h
      (omega
        (arith, live-modify b id clear_reservation g s.groups (row_at-find id generation _ g f)))
      (rw q (refund-Lowered b n _ cap g.reserved_embeddings_batch_id s.batches batches r h.counted))
Change-Moved b cap {s} m (others s' q r t) h = stays b cap s s' m h (ap (live b) q) (r b)
Change-Moved b cap {s} m (created x f z l) h =
    stays b cap s _ m h refl (λ y e. budget-append b x s.batches y e)
Change-Moved b cap {s} m (reserve id generation n g x f k room) h =
    let at = row_at-find id generation s.groups g f in
    let cleared = live-modify b id clear_reservation g s.groups at in
    let set = live-modify b id (set_reservation n x.id) g s.groups at in
    elim (Bool-cases (x.id == b)) [
      | inl e ↦
          let known : budget_of x ≡ record { used = m.held + m.spent; cap = cap } =
            budget-known b x.id x _ cap s.batches e k h.counted in
          let used : x.embeddings_reserved ≡ m.held + m.spent = ap (λ y. y.used) known in
          let most : x.max_embeddings ≡ cap = ap (λ y. y.cap) known in
          held_anew b cap (share_of b g) n (live b (modify id clear_reservation s.groups)) s _ m h
            (omega (arith, cleared)) (omega (arith, cleared, rw e at set))
            (ground (arith, room, used, most))
            (budget-own b x.id (credited n) x s.batches (λ y. refl) e k
              ∙ ap (λ y. some (record { used = y.used + n; cap = y.cap })) known)
      | inr e ↦
          held_anew b cap (share_of b g) 0 (live b (modify id clear_reservation s.groups)) s _ m h
            (omega (arith, cleared)) (omega (arith, cleared, rw e at set)) (omega (arith, h.within))
            (budget-other b x.id (credited n) s.batches (λ y. refl) e
              ∙ h.counted
              ∙ ap (λ u. some (record { used = u; cap = cap })) (omega arith))
    ]

-- What the service does refines the meter: whatever transactions are committed, by any workers in
-- any order, the tables show for each batch a meter that has only moved by its own rules: it holds
-- no more than the cap leaves, and what it held is spent where a transaction spends it, and else given
-- back.
pub Changes-Moved :
    (b cap : ℕ) {s s' : Store} (m : Meter) (r : Changes s s')
    → Shows b cap s m
    → Moved b cap (costs b r) m s'
Changes-Moved b cap m (done s) h = stays b cap s s m h refl (λ x e. e)
Changes-Moved b cap m (later s s' s'' c r) h =
    let first = Change-Moved b cap m c h in
    let rest = Changes-Moved b cap first.meter r first.shows in
    record {
      meter = rest.meter;
      shows = rest.shows;
      steps = moves cap first.steps rest.steps;
      spends = rest.spends ∙ ap (λ n. n + costs b r) first.spends ∙ omega arith;
    }
