-- ===== src/Reporting/Counting.antt =====
-- Counts of rows by a test, and the tests that a report combines.
use ai_brain.Prelude.{
  ℕ, ◌+◌, ◌≤◌, ◌≡◌, refl, sym, ◌∙◌, Bool, true, false, not, ◌&&◌, ◌||◌, List, [], ◌∷◌, inl, inr,
  Bool-cases, All, arith, any,
}
use ai_brain.Reporting.{count}

abbrev pub tally : Bool → ℕ
tally true = 1
tally false = 0

tally_mono : (a b : Bool) → (a ≡ true → b ≡ true) → tally a ≤ tally b
tally_mono true b h = rw (h refl) (omega arith)
tally_mono false b h = omega arith

tally_back : (a b : Bool) → tally a ≡ tally b → b ≡ true → a ≡ true
tally_back true b e h = refl
tally_back false true e h = absurd (omega arith)
tally_back false false e h = h

module _ {ℓ} {A : Type ℓ} where
  count_cons : (p : A → Bool) (x : A) (xs : List A) → count p (x ∷ xs) ≡ tally (p x) + count p xs
  count_cons p x xs = elim (Bool-cases (p x)) [
    | inl e ↦ rw e (omega arith)
    | inr e ↦ rw e (omega arith)
  ]

  pub count_mono :
      (p q : A → Bool) (xs : List A)
      → All (λ x. p x ≡ true → q x ≡ true) xs
      → count p xs ≤ count q xs
  count_mono p q [] h = omega arith
  count_mono p q (x ∷ xs) h = omega (
    arith,
    count_cons p x xs,
    count_cons q x xs,
    count_mono p q xs h.1,
    tally_mono (p x) (q x) h.0,
  )

  -- Two counts of a predicate and a wider one that agree.
  pub count_same :
      (p q : A → Bool) (xs : List A)
      → All (λ x. p x ≡ true → q x ≡ true) xs
      → count p xs ≡ count q xs
      → All (λ x. q x ≡ true → p x ≡ true) xs
  count_same p q [] h e = tt
  count_same p q (x ∷ xs) h e =
      let le = count_mono p q xs h.1 in
      let lt = tally_mono (p x) (q x) h.0 in
      let e' : tally (p x) + count p xs ≡ tally (q x) + count q xs =
        sym (count_cons p x xs) ∙ (e ∙ count_cons q x xs) in
      let same : tally (p x) ≡ tally (q x) = omega arith in
      let rest : count p xs ≡ count q xs = omega arith in
      (tally_back (p x) (q x) same, count_same p q xs h.1 rest)

  pub count_add :
      (p q r t : A → Bool) (xs : List A)
      → ((x : A) → tally (p x) + (tally (q x) + tally (r x)) ≡ tally (t x))
      → count p xs + (count q xs + count r xs) ≡ count t xs
  count_add p q r t [] h = omega arith
  count_add p q r t (x ∷ xs) h = omega (
    arith,
    count_cons p x xs,
    count_cons q x xs,
    count_cons r x xs,
    count_cons t x xs,
    h x,
    count_add p q r t xs h,
  )

pub split :
    (source loose arch done given failing : Bool)
    → loose && arch ≡ false
    → tally (source && (loose && done))
        + (tally (source && (arch && given)) + tally (source && (arch && (not given && failing))))
      ≡ tally (source && ((loose && done) || (arch && (given || failing))))
split false l a d g f h = refl
split true true true d g f h = absurd cc
split true true false true g f h = refl
split true true false false g f h = refl
split true false true d true f h = refl
split true false true d false true h = refl
split true false true d false false h = refl
split true false false d g f h = refl

pub and_fst : (x y : Bool) → x && y ≡ true → x ≡ true
and_fst true y h = refl
and_fst false y h = absurd cc

pub and_true : (x y : Bool) → x && y ≡ true → x && true ≡ true
and_true true y h = refl
and_true false y h = absurd cc

pub and_mono :
    (x y a b : Bool) → (a ≡ true → b ≡ true) → x && (y && a) ≡ true → x && (y && b) ≡ true
and_mono true true a b f h = f h
and_mono true false a b f h = absurd cc
and_mono false y a b f h = absurd cc

pub any_mono {ℓ} :
    {A : Type ℓ} (p q : A → Bool) (xs : List A)
    → ((x : A) → p x ≡ true → q x ≡ true)
    → any p xs ≡ true
    → any q xs ≡ true
any_mono p q [] f h = absurd cc
any_mono p q (x ∷ xs) f h = elim (Bool-cases (p x)) [
  | inl e ↦ rw (f x e) refl
  | inr e ↦
      let rest = any_mono p q xs f (rw e at h) in
      elim (Bool-cases (q x)) [ inl k ↦ rw k refl | inr k ↦ rw (k, rest) refl ]
]

pub everywhere {ℓ κ} : {A : Type ℓ} (P : A → Type κ) (xs : List A) → ((x : A) → P x) → All P xs
everywhere P [] f = tt
everywhere P (x ∷ xs) f = (f x, everywhere P xs f)

pub attempted_by :
    (source loose done arch given failing direct grouped : Bool)
    → (source && (loose && done) ≡ true → source && (direct || grouped) ≡ true)
    → (given ≡ true → direct ≡ true)
    → (failing ≡ true → direct ≡ true)
    → source && ((loose && done) || (arch && (given || failing))) ≡ true
    → source && (direct || grouped) ≡ true
attempted_by false l d a g f di gr h k m t = absurd cc
attempted_by true true true a g f di gr h k m t = h refl
attempted_by true true false true true f di gr h k m t = rw (k refl) refl
attempted_by true true false true false f di gr h k m t = rw (m t) refl
attempted_by true true false false g f di gr h k m t = absurd cc
attempted_by true false d true true f di gr h k m t = rw (k refl) refl
attempted_by true false d true false f di gr h k m t = rw (m t) refl
attempted_by true false d false g f di gr h k m t = absurd cc
