-- ===== src/Chunking/Slices.antt =====
-- Taking and dropping.
use ai_brain.Prelude.{
  ℕ, zero, suc, ◌+◌, ◌-◌, ◌≤◌, ◌≡◌, refl, sym, ◌∙◌, ap, List, [], ◌∷◌, ◌++◌, arith, length, take,
  drop,
}

module _ {A : Type 0} where
  pub take_all : (n : ℕ) (xs : List A) → length xs ≤ n → take n xs ≡ xs
  take_all zero [] h = refl
  take_all zero (x ∷ xs) h = absurd (omega arith)
  take_all (suc n) [] h = refl
  take_all (suc n) (x ∷ xs) h = ap (λ t. x ∷ t) (take_all n xs (omega (arith, h)))

  pub length-take : (n : ℕ) (xs : List A) → n ≤ length xs → length (take n xs) ≡ n
  length-take zero xs h = refl
  length-take (suc n) [] h = absurd (omega arith)
  length-take (suc n) (x ∷ xs) h = ap suc (length-take n xs (omega (arith, h)))

  pub length-drop : (n : ℕ) (xs : List A) → length (drop n xs) ≡ length xs - n
  length-drop zero xs = omega arith
  length-drop (suc n) [] = omega arith
  length-drop (suc n) (x ∷ xs) = omega (arith, length-drop n xs)

  abbrev the_empty : List A
  the_empty = []

  drop_nil : (n : ℕ) → drop n (the_empty) ≡ the_empty
  drop_nil zero = refl
  drop_nil (suc n) = refl

  pub drop-drop : (m n : ℕ) (xs : List A) → drop m (drop n xs) ≡ drop (n + m) xs
  drop-drop m zero xs = let q : 0 + m ≡ m = omega arith in rw q refl
  drop-drop m (suc n) [] = drop_nil m ∙ sym (drop_nil (suc n + m))
  drop-drop m (suc n) (x ∷ xs) =
      let q : suc n + m ≡ suc (n + m) = omega arith in rw q (drop-drop m n xs)

  pub take-drop : (n : ℕ) (xs : List A) → take n xs ++ drop n xs ≡ xs
  take-drop zero xs = refl
  take-drop (suc n) [] = refl
  take-drop (suc n) (x ∷ xs) = ap (λ t. x ∷ t) (take-drop n xs)

  pub drop-append : (n : ℕ) (xs ys : List A) → n ≤ length xs → drop n (xs ++ ys) ≡ drop n xs ++ ys
  drop-append zero xs ys h = refl
  drop-append (suc n) [] ys h = absurd (omega arith)
  drop-append (suc n) (x ∷ xs) ys h = drop-append n xs ys (omega (arith, h))

  pub length-take_at_least :
      (m n : ℕ) (xs : List A) → m ≤ n → m ≤ length xs → m ≤ length (take n xs)
  length-take_at_least m zero xs h k = omega (arith, h)
  length-take_at_least m (suc n) [] h k = omega (arith, k)
  length-take_at_least zero (suc n) (x ∷ xs) h k = omega arith
  length-take_at_least (suc m) (suc n) (x ∷ xs) h k =
      omega (arith, length-take_at_least m n xs (omega (arith, h)) (omega (arith, k)))

  pub drop-take : (m k : ℕ) (xs : List A) → drop m (take (m + k) xs) ≡ take k (drop m xs)
  drop-take zero k xs = let q : 0 + k ≡ k = omega arith in rw q refl
  drop-take (suc m) k [] = let q : suc m + k ≡ suc (m + k) = omega arith in rw q (take_nil k)
    where
      take_nil : (k : ℕ) → the_empty ≡ take k the_empty
      take_nil zero = refl
      take_nil (suc k) = refl
  drop-take (suc m) k (x ∷ xs) =
      let q : suc m + k ≡ suc (m + k) = omega arith in rw q (drop-take m k xs)

  pub take-take : (m n : ℕ) (xs : List A) → m ≤ n → take m (take n xs) ≡ take m xs
  take-take zero n xs h = refl
  take-take (suc m) zero xs h = absurd (omega (arith, h))
  take-take (suc m) (suc n) [] h = refl
  take-take (suc m) (suc n) (x ∷ xs) h = ap (λ t. x ∷ t) (take-take m n xs (omega (arith, h)))
