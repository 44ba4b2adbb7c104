-- ===== src/Prelude/Lists.antt =====
-- Lists measured by native numbers, and predicates over a list that compute to tuples.
use Prim.Native.Nat.{ℕ, zero, suc, ◌+◌, ◌≤◌}
use mathlib.Core.Path.{◌≡◌, refl, ap}
use mathlib.Core.Logic.{inl, inr}
use mathlib.Core.Bool.{Bool, true, false, ◌||◌}
use mathlib.Core.List.{List, [], ◌∷◌, ◌++◌, map}
use mathlib.Core.Option.{Option, none, some}
use native.Mathlib.Omega.{arith}
use ai_brain.Prelude.Tests.{if◌then◌else◌, Bool-cases}

module _ {ℓ} {A : Type ℓ} where
  abbrev pub length : List A → ℕ
  length [] = 0
  length (x ∷ xs) = suc (length xs)

  abbrev pub is_empty : List A → Bool
  is_empty [] = true
  is_empty (x ∷ xs) = false

  abbrev pub take : ℕ → List A → List A
  take zero xs = []
  take (suc n) [] = []
  take (suc n) (x ∷ xs) = x ∷ take n xs

  abbrev pub drop : ℕ → List A → List A
  drop zero xs = xs
  drop (suc n) [] = []
  drop (suc n) (x ∷ xs) = drop n xs

  -- `[x for x in xs if p(x)]`
  abbrev pub filter : (A → Bool) → List A → List A
  filter p [] = []
  filter p (x ∷ xs) = let rest = filter p xs in if p x then x ∷ rest else rest

  -- `any(...)` and `all(...)`
  abbrev pub any : (A → Bool) → List A → Bool
  any p [] = false
  any p (x ∷ xs) = let rest = any p xs in if p x then true else rest

  abbrev pub all : (A → Bool) → List A → Bool
  all p [] = true
  all p (x ∷ xs) = let rest = all p xs in if p x then rest else false

  -- `.first()` of the rows that meet a condition
  unfoldable pub find_by : (A → Bool) → List A → Option A
  find_by p [] = none
  find_by p (x ∷ xs) = if p x then some x else find_by p xs

  pub find_by_meets : (p : A → Bool) (x : A) (xs : List A) → find_by p xs ≡ some x → p x ≡ true
  unfolding find_by
  find_by_meets p x [] h = absurd cc
  find_by_meets p x (y ∷ ys) h = ground (arith, find_by_meets p x ys)

  pub find_by_last :
      (p : A → Bool) (x : A) (xs : List A)
      → find_by p xs ≡ none
      → p x ≡ true
      → find_by p (xs ++ x ∷ []) ≡ some x
  unfolding find_by
  find_by_last p x [] h q = rw q refl
  find_by_last p x (y ∷ ys) h q = ground (arith, find_by_last p x ys)

  abbrev pub sum_by : (A → ℕ) → List A → ℕ
  sum_by w [] = 0
  sum_by w (x ∷ xs) = w x + sum_by w xs

  abbrev pub All {κ} : (A → Type κ) → List A → Type κ
  All P [] = Unit
  All P (x ∷ xs) = P x × All P xs

  pub length-append : (xs ys : List A) → length (xs ++ ys) ≡ length xs + length ys
  length-append [] ys = omega arith
  length-append (x ∷ xs) ys = omega (arith, length-append xs ys)

  pub sum_by-append : (w : A → ℕ) (xs ys : List A) → sum_by w (xs ++ ys) ≡ sum_by w xs + sum_by w ys
  sum_by-append w [] ys = omega arith
  sum_by-append w (x ∷ xs) ys = omega (arith, sum_by-append w xs ys)

  pub sum_by-filter :
      (w : A → ℕ) (p : A → Bool) (xs : List A) → sum_by w (filter p xs) ≤ sum_by w xs
  sum_by-filter w p [] = omega arith
  sum_by-filter w p (x ∷ xs) = ground (arith, sum_by-filter w p xs)

  pub sum_by-zero : (w : A → ℕ) (xs : List A) → All (λ x. w x ≡ 0) xs → sum_by w xs ≡ 0
  sum_by-zero w [] h = refl
  sum_by-zero w (x ∷ xs) h = omega (arith, h.0, sum_by-zero w xs h.1)

  pub All-append {κ} : (P : A → Type κ) (xs ys : List A) → All P xs → All P ys → All P (xs ++ ys)
  All-append P [] ys h k = k
  All-append P (x ∷ xs) ys h k = (h.0, All-append P xs ys h.1 k)

  -- Predicates on all elements, under the list functions above.
  pub All-filter {κ} :
      (P : A → Type κ) (f : A → Bool) (xs : List A) → All P xs → All P (filter f xs)
  All-filter P f [] h = tt
  All-filter P f (x ∷ xs) h = elim (Bool-cases (f x)) [
    | inl e ↦ rw e (h.0, All-filter P f xs h.1)
    | inr e ↦ rw e (All-filter P f xs h.1)
  ]

  pub All-mono {κ μ} :
      (P : A → Type κ) (Q : A → Type μ) (xs : List A) → ((x : A) → P x → Q x) → All P xs → All Q xs
  All-mono P Q [] f h = tt
  All-mono P Q (x ∷ xs) f h = (f x h.0, All-mono P Q xs f h.1)

  pub All-both {κ μ} :
      (P : A → Type κ) (Q : A → Type μ) (xs : List A)
      → All P xs
      → All Q xs
      → All (λ x. P x × Q x) xs
  All-both P Q [] h k = tt
  All-both P Q (x ∷ xs) h k = ((h.0, k.0), All-both P Q xs h.1 k.1)

  pub All-kept : (f : A → Bool) (xs : List A) → All (λ x. f x ≡ true) (filter f xs)
  All-kept f [] = tt
  All-kept f (x ∷ xs) = elim (Bool-cases (f x)) [
    | inl e ↦ rw e (e, All-kept f xs)
    | inr e ↦ rw e (All-kept f xs)
  ]

  pub all_of_All : (f : A → Bool) (xs : List A) → All (λ x. f x ≡ true) xs → all f xs ≡ true
  all_of_All f [] h = refl
  all_of_All f (x ∷ xs) h = rw h.0 (all_of_All f xs h.1)

  pub any-append : (f : A → Bool) (xs ys : List A) → any f (xs ++ ys) ≡ (any f xs || any f ys)
  any-append f [] ys = refl
  any-append f (x ∷ xs) ys = ground (arith, any-append f xs ys)

  pub filter-append :
      (f : A → Bool) (xs ys : List A) → filter f (xs ++ ys) ≡ filter f xs ++ filter f ys
  filter-append f [] ys = refl
  filter-append f (x ∷ xs) ys = ground (arith, filter-append f xs ys)

  pub append_nil : (xs : List A) → xs ++ [] ≡ xs
  append_nil [] = refl
  append_nil (x ∷ xs) = ap (λ t. x ∷ t) (append_nil xs)

  pub append_assoc : (xs ys zs : List A) → (xs ++ ys) ++ zs ≡ xs ++ (ys ++ zs)
  append_assoc [] ys zs = refl
  append_assoc (x ∷ xs) ys zs = ap (λ t. x ∷ t) (append_assoc xs ys zs)

module _ {ℓ μ} {A : Type ℓ} {B : Type μ} where
  pub sum_by-map :
      (w : B → ℕ) (f : A → B) (xs : List A) → sum_by w (map f xs) ≡ sum_by (λ x. w (f x)) xs
  sum_by-map w f [] = refl
  sum_by-map w f (x ∷ xs) = omega (arith, sum_by-map w f xs)

  pub map-append : (f : A → B) (xs ys : List A) → map f (xs ++ ys) ≡ map f xs ++ map f ys
  map-append f [] ys = refl
  map-append f (x ∷ xs) ys = ap (λ t. f x ∷ t) (map-append f xs ys)

  pub All-map {κ} :
      (P : B → Type κ) (f : A → B) (xs : List A) → All (λ x. P (f x)) xs → All P (map f xs)
  All-map P f [] h = tt
  All-map P f (x ∷ xs) h = (h.0, All-map P f xs h.1)
