-- ===== src/Extraction/Bytes.antt =====
-- The bytes of a batch from an admission to its correction.
use ai_brain.Prelude.{
  ℕ, ◌+◌, ◌-◌, ◌≤◌, ◌≡◌, refl, sym, ap, ◌∙◌, Bool, true, false, ◌&&◌, some, inl, inr, Bool-cases,
  arith, ltb, leb, ◌==◌, ==_iff, find, find_modified, modify, modify_twice, modify_same,
}
use mathlib.Core.Path.{fun_ext, subst}
use ai_brain.Batch.Model.{IngestionBatch, batch_keyed}
use ai_brain.Claims.Groups.{Store, returned, integrity_error}
use ai_brain.Claims.Reservations.{is_running}
use ai_brain.Extraction.{
  meets_envelope, is_below, consumed, has_bytes, admit, correct,
  release_extracted_bytes_reservation, reconcile_extracted_bytes,
}

-- The tables after the admission of `n` bytes.
abbrev pub counting : ℕ → ℕ → Store → Store
counting id n s = record s {
  batches = modify id (λ x. consumed (x.extracted_bytes_consumed + n) x) s.batches;
}

-- What follows an admission of `n` bytes, from the tables `s` to `s'`: the count fits the limit, a
-- release gives the bytes back, a correction that fits counts the actual bytes in place of the estimate,
-- and one that does not is refused.
pub record Corrected (b : IngestionBatch) (id most n : ℕ) (s s' : Store) : Type 0 where
  pub fits : b.extracted_bytes_consumed + n ≤ most
  pub gives_back : release_extracted_bytes_reservation id n s' ≡ (returned tt, s)
  pub corrects :
      (actual : ℕ)
      → b.extracted_bytes_consumed + actual ≤ most
      → reconcile_extracted_bytes id n actual s' ≡ (returned tt, counting id actual s)
  pub breaks :
      (actual : ℕ)
      → leb (b.extracted_bytes_consumed + actual) most ≡ false
      → reconcile_extracted_bytes id n actual s' ≡ (integrity_error, s')

both : (x y : Bool) → x && y ≡ true → (x ≡ true) × (y ≡ true)
both true y h = (refl, h)
both false y h = absurd cc

leb_of : (a c : ℕ) → a ≤ c → leb a c ≡ true
leb_of a c h = ground arith

of_leb : (a c : ℕ) → leb a c ≡ true → a ≤ c
of_leb a c h = ground arith

-- One update by a gain and a loss, on both of its branches.
correct_kept :
    (id gain loss total : ℕ) (b : IngestionBatch) (s : Store)
    → find id s.batches ≡ some b
    → b.extracted_bytes_consumed + gain ≡ total + loss
    → meets_envelope total b.max_extracted_bytes ≡ true
    → correct id gain loss s ≡ (
      returned tt,
      record s {
        batches = modify id (λ x. consumed (x.extracted_bytes_consumed + gain - loss) x) s.batches;
      },
    )
unfolding correct
correct_kept id gain loss total b s found same ok =
    let e1 : ltb (total + loss) loss ≡ false = ground arith in
    let e2 : total + loss - loss ≡ total = omega arith in rw (correct, found, same, e1, e2, ok) refl

correct_broken :
    (id gain loss total : ℕ) (b : IngestionBatch) (s : Store)
    → find id s.batches ≡ some b
    → b.extracted_bytes_consumed + gain ≡ total + loss
    → meets_envelope total b.max_extracted_bytes ≡ false
    → correct id gain loss s ≡ (integrity_error, s)
unfolding correct
correct_broken id gain loss total b s found same over =
    let e1 : ltb (total + loss) loss ≡ false = ground arith in
    let e2 : total + loss - loss ≡ total = omega arith in
    rw (correct, found, same, e1, e2, over) refl

module _ (batch b : IngestionBatch) (most n : ℕ) (s : Store)
    (found : find batch.id s.batches ≡ some b) (limit : b.max_extracted_bytes ≡ some most) where
  admit_yes :
      has_bytes n b ≡ true
      → (b.extracted_bytes_consumed + n ≤ most) × ((admit n batch s).1 ≡ counting batch.id n s)
  unfolding admit
  admit_yes y =
      let e = both (is_running b.status) _ y in
      let ok : leb (b.extracted_bytes_consumed + n) most ≡ true =
        subst (λ o. is_below (b.extracted_bytes_consumed + n) o ≡ true) limit e.1 in
      (of_leb _ _ ok, rw (admit, found, y) refl)

  admit_no : has_bytes n b ≡ false → (admit n batch s).0.admitted ≡ false
  unfolding admit
  admit_no over = rw (admit, found, over) refl

  counted :
      find batch.id (counting batch.id n s).batches
      ≡ some (consumed (b.extracted_bytes_consumed + n) b)
  counted =
      find_modified batch.id (λ x. consumed (x.extracted_bytes_consumed + n) x) b s.batches
        (λ x. refl) found

  undone :
      (g : ℕ → ℕ)
      → ((c : ℕ) → g (c + n) ≡ c)
      → modify batch.id
          (λ x. consumed (g x.extracted_bytes_consumed) x)
          (counting batch.id n s).batches
        ≡ s.batches
  undone g back =
      modify_twice batch.id (λ x. consumed (x.extracted_bytes_consumed + n) x)
        (λ x. consumed (g x.extracted_bytes_consumed) x) s.batches (λ x. refl)
      ∙ modify_same batch.id (λ x. consumed (g (x.extracted_bytes_consumed + n)) x) s.batches
          (λ x. ap (λ c. consumed c x) (back x.extracted_bytes_consumed))

  given_back :
      b.extracted_bytes_consumed + n ≤ most
      → release_extracted_bytes_reservation batch.id n (counting batch.id n s) ≡ (returned tt, s)
  unfolding release_extracted_bytes_reservation
  given_back fits = elim (Bool-cases (n == 0)) [
    | inl z ↦
        let z' : n ≡ 0 = (==_iff n 0).0 z in
        rw (release_extracted_bytes_reservation, z)
          (ap (λ bs. (returned tt, record s { batches = bs }))
            (modify_same batch.id (λ x. consumed (x.extracted_bytes_consumed + n) x) s.batches
              (λ x. ap (λ c. consumed c x) (omega arith))))
    | inr z ↦
        rw (release_extracted_bytes_reservation, z)
          (correct_kept batch.id 0 n b.extracted_bytes_consumed _ (counting batch.id n s) counted
              (omega arith) (rw (limit, leb_of b.extracted_bytes_consumed most (omega arith)) refl)
            ∙ ap (λ bs. (returned tt, record s { batches = bs }))
                (undone (λ c. c + 0 - n) (λ c. omega arith)))
  ]

  recounted :
      (actual : ℕ)
      → ◌≡◌ {A = IngestionBatch → IngestionBatch}
          (λ x. consumed (x.extracted_bytes_consumed + n + actual - n) x)
          (λ x. consumed (x.extracted_bytes_consumed + actual) x)
  recounted actual = fun_ext (λ x. ap (λ c. consumed c x) (omega arith))

  corrected :
      (actual : ℕ)
      → b.extracted_bytes_consumed + actual ≤ most
      → reconcile_extracted_bytes batch.id n actual (counting batch.id n s)
        ≡ (returned tt, counting batch.id actual s)
  unfolding reconcile_extracted_bytes
  corrected actual ok = elim (Bool-cases (actual == n)) [
    | inl e ↦
        let same : n ≡ actual = sym ((==_iff actual n).0 e) in
        rw (reconcile_extracted_bytes, e) (ap (λ k. (returned tt, counting batch.id k s)) same)
    | inr e ↦
        rw (reconcile_extracted_bytes, e)
          (correct_kept batch.id actual n (b.extracted_bytes_consumed + actual) _
              (counting batch.id n s) counted (omega arith) (rw (limit, leb_of _ most ok) refl)
            ∙ ap (λ bs. (returned tt, record s { batches = bs }))
                (modify_twice batch.id (λ x. consumed (x.extracted_bytes_consumed + n) x)
                    (λ x. consumed (x.extracted_bytes_consumed + actual - n) x) s.batches
                    (λ x. refl)
                  ∙ ap (λ f. modify batch.id f s.batches) (recounted actual)))
  ]

  broken :
      (actual : ℕ)
      → b.extracted_bytes_consumed + n ≤ most
      → leb (b.extracted_bytes_consumed + actual) most ≡ false
      → reconcile_extracted_bytes batch.id n actual (counting batch.id n s)
        ≡ (integrity_error, counting batch.id n s)
  unfolding reconcile_extracted_bytes
  broken actual fits over =
      let e : (actual == n) ≡ false = ground arith in
      rw (reconcile_extracted_bytes, e)
        (correct_broken batch.id actual n (b.extracted_bytes_consumed + actual) _
          (counting batch.id n s) counted (omega arith) (rw (limit, over) refl))

-- When `_preflight_admit` admits `n` bytes for a batch with a limit that is in its table, then the
-- count with `n` fits the limit; to release `n` restores the tables as they were before; to correct
-- `n` to an actual number that fits the limit counts that number in place of `n` and changes nothing
-- else; and to correct it to a number
-- that does not fit is refused by the check constraint with an integrity error, and changes nothing.
pub admit-Corrected :
    (batch b : IngestionBatch) (most n : ℕ) (s s' : Store)
    → find batch.id s.batches ≡ some b
    → b.max_extracted_bytes ≡ some most
    → admit n batch s ≡ (record { admitted = true; estimated_bytes = n }, s')
    → Corrected b batch.id most n s s'
admit-Corrected batch b most n s s' found limit done = elim (Bool-cases (has_bytes n b)) [
  | inr e ↦
      let f : false ≡ true =
        sym (admit_no batch b most n s found limit e) ∙ ap (λ r. r.0.admitted) done in
      absurd cc
  | inl e ↦
      let a = admit_yes batch b most n s found limit e in
      subst (λ t. Corrected b batch.id most n s t) (sym a.1 ∙ ap (λ r. r.1) done)
        (record {
          fits = a.0;
          gives_back = given_back batch b most n s found limit a.0;
          corrects = λ actual ok. corrected batch b most n s found limit actual ok;
          breaks = λ actual over. broken batch b most n s found limit actual a.0 over;
        })
]
