-- ===== src/Prelude/Queues.antt =====
-- `ORDER BY <time> LIMIT 1` over the rows that meet a condition. Of two rows of the same time the
-- database may return either: here it is the one inserted first. Rows whose keys differ.
use Prim.Native.Nat.{ℕ, ◌≤◌}
use mathlib.Core.Path.{◌≡◌, refl, subst, ◌∙◌}
use mathlib.Core.Logic.{inl, inr}
use mathlib.Core.Bool.{Bool, true, false}
use mathlib.Core.Option.{Option, none, some}
use mathlib.Core.List.{List, [], ◌∷◌, ◌++◌}
use native.Mathlib.Omega.{arith}
use ai_brain.Prelude.Tests.{◌==◌, leb, Bool-cases, Option-cases, if◌then◌else◌, ==_refl}
use ai_brain.Prelude.Lists.{All, All-append, All-mono, All-both}
use ai_brain.Prelude.Tables.{Keyed, find, next_id, modify, find_here, find_there, All-modify}

module _ {ℓ} {A : Type ℓ} (p : A → Bool) (time : A → ℕ) where
  abbrev earlier : A → Option A → Option A
  earlier x none = some x
  earlier x (some y) = if leb (time x) (time y) then some x else some y

  unfoldable pub oldest : List A → Option A
  oldest [] = none
  oldest (x ∷ xs) = let rest = oldest xs in if p x then earlier x rest else rest

  pub oldest-All {κ} : (P : A → Type κ) (x : A) (xs : List A) → oldest xs ≡ some x → All P xs → P x
  unfolding oldest
  oldest-All P x [] h a = absurd cc
  oldest-All P x (y ∷ ys) h a = elim (Bool-cases (p y)) [
    | inr e ↦ oldest-All P x ys (rw e at h) a.1
    | inl e ↦ elim (Option-cases (oldest ys)) [
      | inl o ↦ let q : y ≡ x = ground (arith, h, e, o) in subst P q a.0
      | inr (z, o) ↦ elim (Bool-cases (leb (time y) (time z))) [
        | inl t ↦ let q : y ≡ x = ground (arith, h, e, o, t) in subst P q a.0
        | inr t ↦ let q : oldest ys ≡ some x = ground (arith, h, e, o, t) in oldest-All P x ys q a.1
      ]
    ]
  ]

  -- No row meets the condition when none is returned.
  pub oldest_missing : (xs : List A) → oldest xs ≡ none → All (λ y. p y ≡ false) xs
  unfolding oldest
  oldest_missing [] h = tt
  oldest_missing (y ∷ ys) h = (ground arith, oldest_missing ys (ground arith))

  pub oldest_meets : (x : A) (xs : List A) → oldest xs ≡ some x → p x ≡ true
  unfolding oldest
  oldest_meets x [] h = absurd cc
  oldest_meets x (y ∷ ys) h = ground (arith, oldest_meets x ys)

  -- No row that meets the condition is older than the one returned.
  pub oldest_first :
      (x : A) (xs : List A) → oldest xs ≡ some x → All (λ y. p y ≡ true → time x ≤ time y) xs
  unfolding oldest
  oldest_first x [] h = tt
  oldest_first x (y ∷ ys) h = elim (Bool-cases (p y)) [
    | inr e ↦ (λ q. absurd cc, oldest_first x ys (rw e at h))
    | inl e ↦ elim (Option-cases (oldest ys)) [
      | inl o ↦
          let q : y ≡ x = ground (arith, h, e, o) in
          (
            λ r. subst (λ z. time z ≤ time y) q (omega arith),
            All-mono _ _ ys (λ z n m. absurd cc) (oldest_missing ys o),
          )
      | inr (z, o) ↦ elim (Bool-cases (leb (time y) (time z))) [
        | inl t ↦
            let q : y ≡ x = ground (arith, h, e, o, t) in
            let le : time y ≤ time z = ground (arith, t) in
            subst (λ w. All (λ v. p v ≡ true → time w ≤ time v) (y ∷ ys)) q
              (
                λ r. omega arith,
                All-mono _ _ ys (λ v f r. omega (arith, f r, le)) (oldest_first z ys o),
              )
        | inr t ↦
            let q : oldest ys ≡ some x = ground (arith, h, e, o, t) in
            let w : z ≡ x = ground (arith, o, q) in
            let le : time x ≤ time y = subst (λ v. time v ≤ time y) w (ground (arith, t)) in
            (λ r. le, oldest_first x ys q)
      ]
    ]
  ]

module _ {ℓ} {A : Type ℓ} ⦃t : Keyed A⦄ where
  -- The primary keys differ.
  abbrev pub Distinct : List A → Type ℓ
  Distinct [] = Unit
  Distinct (x ∷ xs) = All (λ y. (t.key x == t.key y) ≡ false) xs × Distinct xs

  -- Then each row is the row with its key.
  pub Distinct-find : (xs : List A) → Distinct xs → All (λ x. find (t.key x) xs ≡ some x) xs
  Distinct-find [] h = tt
  Distinct-find (x ∷ xs) h = (
    find_here (t.key x) x xs (ground arith),
    All-mono _ _ xs (λ y q. find_there (t.key y) x xs q.0 ∙ q.1)
        (All-both _ _ xs h.0 (Distinct-find xs h.1)),
  )

  pub Distinct-modify :
      (k : ℕ) (f : A → A) (xs : List A)
      → ((x : A) → t.key (f x) ≡ t.key x)
      → Distinct xs
      → Distinct (modify k f xs)
  unfolding modify
  Distinct-modify k f [] h d = tt
  Distinct-modify k f (x ∷ xs) h d = elim (Bool-cases (t.key x == k)) [
    | inl e ↦ rw e (All-mono _ _ xs (λ y q. rw (h x) q) d.0, d.1)
    | inr e ↦ rw e (All-modify _ k f xs (λ y q r. rw (h y) r) d.0, Distinct-modify k f xs h d.1)
  ]

  below_next_id : (x : A) (xs : List A) → next_id xs ≤ next_id (x ∷ xs)
  unfolding next_id
  below_next_id x xs = ground arith

  missing_above : (k : ℕ) (xs : List A) → next_id xs ≤ k → find k xs ≡ none
  unfolding next_id find
  missing_above k [] h = refl
  missing_above k (x ∷ xs) h =
      let rest : next_id xs ≤ k = omega (arith, below_next_id x xs, h) in
      let other : (t.key x == k) ≡ false = ground (arith, h) in rw other (missing_above k xs rest)

  -- A new id is no row's.
  pub find-next_id : (xs : List A) → find (next_id xs) xs ≡ none
  find-next_id xs = missing_above (next_id xs) xs (omega arith)

  missing-differs : (k : ℕ) (xs : List A) → find k xs ≡ none → All (λ x. (t.key x == k) ≡ false) xs
  unfolding find
  missing-differs k [] h = tt
  missing-differs k (x ∷ xs) h = (ground arith, missing-differs k xs (ground arith))

  -- A row with a new key may be appended.
  pub Distinct-append :
      (y : A) (xs : List A) → Distinct xs → find (t.key y) xs ≡ none → Distinct (xs ++ y ∷ [])
  unfolding find
  Distinct-append y [] d h = (tt, tt)
  Distinct-append y (x ∷ xs) d h =
      let (differs, rest) = missing-differs (t.key y) (x ∷ xs) h in
      (All-append _ xs (y ∷ []) d.0 (differs, tt), Distinct-append y xs d.1 (ground (arith, h)))

  -- A row with a new key is found once it is appended.
  pub find_appended :
      (y : A) (xs : List A) → find (t.key y) xs ≡ none → find (t.key y) (xs ++ y ∷ []) ≡ some y
  unfolding find
  find_appended y [] h = rw (==_refl (t.key y)) refl
  find_appended y (x ∷ xs) h = ground (arith, find_appended y xs)
