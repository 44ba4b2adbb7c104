-- ===== src/Prelude/Tables.antt =====
-- A database table as the list of its rows in the order of insertion. A row is found and updated
-- by its primary key, of which the database keeps the uniqueness: the first row with the key is
-- the row with the key.
use Prim.Native.Nat.{ℕ, suc, ◌+◌, ◌≤◌}
use mathlib.Core.Path.{◌≡◌, refl, sym, ap, subst}
use mathlib.Core.Logic.{inl, inr}
use mathlib.Core.Bool.{true, false}
use mathlib.Core.Option
use mathlib.Core.Option.{Option, none, some}
use mathlib.Core.List.{List, [], ◌∷◌, ◌++◌, map}
use native.Mathlib.Omega.{arith}
use ai_brain.Prelude.Tests.{◌==◌, leb, ==_refl, Bool-cases, if◌then◌else◌}
use ai_brain.Prelude.Lists.{All, sum_by}

-- A type of rows with an integer primary key.
pub record Keyed {ℓ} (A : Type ℓ) : Type ℓ where
  pub key : A → ℕ

module _ {ℓ} {A : Type ℓ} ⦃t : Keyed A⦄ where
  -- `db.get(Model, k)`
  unfoldable pub find : ℕ → List A → Option A
  find k [] = none
  find k (x ∷ xs) = if t.key x == k then some x else find k xs

  -- The id of a new row: above every id in the table.
  unfoldable pub next_id : List A → ℕ
  next_id [] = 1
  next_id (x ∷ xs) = let n = next_id xs in if leb n (t.key x) then suc (t.key x) else n

  -- `UPDATE ... WHERE id = :k`, with the new row computed from the old
  unfoldable pub modify : ℕ → (A → A) → List A → List A
  modify k f [] = []
  modify k f (x ∷ xs) = if t.key x == k then f x ∷ xs else x ∷ modify k f xs

  -- An update that keeps the keys changes the row with the key and no other.
  pub find-modify :
      (j k : ℕ) (f : A → A) (xs : List A)
      → ((x : A) → t.key (f x) ≡ t.key x)
      → find j (modify k f xs) ≡ (if k == j then Option.map f (find j xs) else find j xs)
  unfolding find modify
  find-modify j k f [] h = ground arith
  find-modify j k f (x ∷ xs) h = ground (arith, h x, find-modify j k f xs h)

  pub find_modified :
      (k : ℕ) (f : A → A) (x : A) (xs : List A)
      → ((y : A) → t.key (f y) ≡ t.key y)
      → find k xs ≡ some x
      → find k (modify k f xs) ≡ some (f x)
  find_modified k f x xs h q = rw (find-modify k k f xs h, ==_refl k, q) refl

  -- A sum over the rows moves by the change of the updated row.
  pub sum_by-modify :
      (w : A → ℕ) (k : ℕ) (f : A → A) (xs : List A) (x : A)
      → find k xs ≡ some x
      → sum_by w (modify k f xs) + w x ≡ sum_by w xs + w (f x)
  unfolding find modify
  sum_by-modify w k f [] x h = ground arith
  sum_by-modify w k f (y ∷ ys) x h = ground (arith, sum_by-modify w k f ys x)

  pub sum_by-find :
      (w : A → ℕ) (k : ℕ) (xs : List A) (x : A) → find k xs ≡ some x → w x ≤ sum_by w xs
  unfolding find
  sum_by-find w k [] x h = absurd cc
  sum_by-find w k (y ∷ ys) x h = ground (arith, sum_by-find w k ys x)

  pub modify_missing : (k : ℕ) (f : A → A) (xs : List A) → find k xs ≡ none → modify k f xs ≡ xs
  unfolding find modify
  modify_missing k f [] h = refl
  modify_missing k f (y ∷ ys) h = ground (arith, modify_missing k f ys)

  -- A predicate on the rows is kept by an update that keeps it at the updated row.
  pub All-modify {κ} :
      (P : A → Type κ) (k : ℕ) (f : A → A) (xs : List A)
      → ((x : A) → find k xs ≡ some x → P x → P (f x))
      → All P xs
      → All P (modify k f xs)
  unfolding find modify
  All-modify P k f [] h a = a
  All-modify P k f (x ∷ xs) h a = elim (Bool-cases (t.key x == k)) [
    | inl e ↦ rw e (h x (rw e) a.0, a.1)
    | inr e ↦ rw e (a.0, All-modify P k f xs (λ y p. h y (rw e p)) a.1)
  ]

  pub All-find {κ} :
      (P : A → Type κ) (k : ℕ) (xs : List A) (x : A) → find k xs ≡ some x → All P xs → P x
  unfolding find
  All-find P k [] x h a = absurd (ground arith)
  All-find P k (y ∷ ys) x h a = elim (Bool-cases (t.key y == k)) [
    | inl e ↦ let q : y ≡ x = ground arith in subst P q a.0
    | inr e ↦ All-find P k ys x (rw e at h) a.1
  ]

  pub find_here : (k : ℕ) (x : A) (xs : List A) → (t.key x == k) ≡ true → find k (x ∷ xs) ≡ some x
  unfolding find
  find_here k x xs h = rw h refl

  pub find_there :
      (k : ℕ) (x : A) (xs : List A) → (t.key x == k) ≡ false → find k (x ∷ xs) ≡ find k xs
  unfolding find
  find_there k x xs h = rw h refl

  pub find_key : (k : ℕ) (x : A) (xs : List A) → find k xs ≡ some x → t.key x ≡ k
  unfolding find
  find_key k x [] h = cc
  find_key k x (y ∷ ys) h = ground (arith, find_key k x ys)

  -- A row that is found is found under its own key.
  pub find_own : (k : ℕ) (x : A) (xs : List A) → find k xs ≡ some x → find (t.key x) xs ≡ some x
  find_own k x xs h = subst (λ j. find j xs ≡ some x) (sym (find_key k x xs h)) h

  -- Appending rows keeps what is found.
  pub find-append :
      (k : ℕ) (x : A) (xs ys : List A) → find k xs ≡ some x → find k (xs ++ ys) ≡ some x
  unfolding find
  find-append k x [] ys h = cc
  find-append k x (z ∷ zs) ys h = ground (arith, find-append k x zs ys)

  -- A row that is found only once a row is appended is that row.
  pub find_last :
      (k : ℕ) (x y : A) (xs : List A)
      → find k xs ≡ none
      → find k (xs ++ y ∷ []) ≡ some x
      → (y ≡ x) × (t.key y ≡ k)
  unfolding find
  find_last k x y [] h q = (ground arith, ground arith)
  find_last k x y (z ∷ zs) h q = find_last k x y zs (ground arith) (ground arith)

  -- A column that an update keeps.
  pub map-modify {κ} :
      {B : Type κ} (g : A → B) (k : ℕ) (f : A → A) (xs : List A)
      → ((x : A) → g (f x) ≡ g x)
      → map g (modify k f xs) ≡ map g xs
  unfolding modify
  map-modify g k f [] h = refl
  map-modify g k f (x ∷ xs) h = elim (Bool-cases (t.key x == k)) [
    | inl e ↦ rw e (ap (λ y. y ∷ map g xs) (h x))
    | inr e ↦ rw e (ap (λ ys. g x ∷ ys) (map-modify g k f xs h))
  ]

  -- Two updates of one row are one update.
  pub modify_twice :
      (k : ℕ) (f g : A → A) (xs : List A)
      → ((x : A) → t.key (f x) ≡ t.key x)
      → modify k g (modify k f xs) ≡ modify k (λ x. g (f x)) xs
  unfolding modify
  modify_twice k f g [] same = refl
  modify_twice k f g (x ∷ xs) same = elim (Bool-cases (t.key x == k)) [
    | inl e ↦ let e' : (t.key (f x) == k) ≡ true = rw (same x) e in rw (modify, e, e') refl
    | inr e ↦ rw (modify, e, e) (ap (λ ys. x ∷ ys) (modify_twice k f g xs same))
  ]

  -- An update that changes nothing.
  pub modify_same : (k : ℕ) (f : A → A) (xs : List A) → ((x : A) → f x ≡ x) → modify k f xs ≡ xs
  unfolding modify
  modify_same k f [] same = refl
  modify_same k f (x ∷ xs) same = elim (Bool-cases (t.key x == k)) [
    | inl e ↦ rw e (ap (λ y. y ∷ xs) (same x))
    | inr e ↦ rw e (ap (λ ys. x ∷ ys) (modify_same k f xs same))
  ]
