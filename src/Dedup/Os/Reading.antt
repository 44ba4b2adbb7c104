-- ===== src/Dedup/Os/Reading.antt =====
-- Actions that only read: they may ask the operating system and look into the database, and leave
-- the database and the count of renames as they were. One rule for each way to build an action.
use ai_brain.Prelude.{◌≡◌, refl, ◌∙◌, ap, Bool, true, false, Option, none, some, if◌then◌else◌}
use ai_brain.Dedup.Records.{Database}
use ai_brain.Dedup.Exec.{
  Error, Result, ok, err, Sys, Exec, pure, raise, gets, required, guard, continue, maybe, choose,
  ◌>>=◌,
}
use ai_brain.Dedup.Os.{Call, os, attempt, actions}

pub record Reads {W A : Type 0} (m : Exec W A) : Type 0 where
  pub at : (s : Sys W) → (w : W) × ((m s).1 ≡ record s { world = w })

module _ {W A : Type 0} where
  pub Reads-pure : (a : A) → Reads {W = W} (pure a)
  unfolding actions
  Reads-pure a = record { at = λ s. (s.world, refl) }

  pub Reads-raise : (e : Error) → Reads {W = W} {A = A} (raise e)
  unfolding actions
  Reads-raise e = record { at = λ s. (s.world, refl) }

  pub Reads-gets : (f : Database → A) → Reads {W = W} (gets f)
  unfolding actions
  Reads-gets f = record { at = λ s. (s.world, refl) }

  pub Reads-required : (e : Error) (o : Option A) → Reads {W = W} (required e o)
  unfolding actions
  Reads-required e none = record { at = λ s. (s.world, refl) }
  Reads-required e (some a) = record { at = λ s. (s.world, refl) }

  pub Reads-os : (c : Call W A) → Reads (os c)
  unfolding actions
  Reads-os c = record { at = λ s. ((c s.world).1, refl) }

  pub Reads-attempt : (c : Call W A) → Reads (attempt c)
  unfolding actions
  Reads-attempt c = record { at = λ s. ((c s.world).1, refl) }

  pub Reads-if : (b : Bool) (m n : Exec W A) → Reads m → Reads n → Reads (if b then m else n)
  Reads-if true m n h k = h
  Reads-if false m n h k = k

  pub Reads-choose : (b : Bool) (m n : Exec W A) → Reads m → Reads n → Reads (choose b m n)
  unfolding actions
  Reads-choose true m n h k = h
  Reads-choose false m n h k = k

module _ {W : Type 0} where
  pub Reads-guard : (b : Bool) (e : Error) → Reads {W = W} (guard b e)
  unfolding actions
  Reads-guard true e = record { at = λ s. (s.world, refl) }
  Reads-guard false e = record { at = λ s. (s.world, refl) }

module _ {W A B : Type 0} where
  pub Reads-bind :
      (m : Exec W A) (f : A → Exec W B) → Reads m → ((a : A) → Reads (f a)) → Reads (m >>= f)
  unfolding actions
  Reads-bind m f h k = record { at = λ s. go s (m s).0 (m s).1 (h.at s) }
    where
      go :
          (s : Sys W) (r : Result A) (t : Sys W)
          → ((w : W) × (t ≡ record s { world = w }))
          → (w : W) × ((continue r f t).1 ≡ record s { world = w })
      go s (err e) t p = p
      go s (ok a) t (w, p) =
          let (v, q) = (k a).at t in
          (v, q ∙ ap {A = Sys W} {B = Sys W} (λ x. record x { world = v }) p)

  pub Reads-option :
      (o : Option A) (m : Exec W B) (f : A → Exec W B)
      → Reads m
      → ((a : A) → Reads (f a))
      → Reads (maybe o m f)
  unfolding actions
  Reads-option none m f h k = h
  Reads-option (some a) m f h k = k a

pub ruleset reads_rules = (
  Reads-pure, Reads-raise, Reads-gets, Reads-required, Reads-os, Reads-attempt, Reads-if,
  Reads-guard, Reads-bind, Reads-option, Reads-choose,
)
