-- ===== src/Dedup/Executor/Yielding.antt =====
-- What a returning action returns with: the answers of the operating system that it has seen.
use ai_brain.Prelude.{
  String, ◌≡◌, refl, ap, Bool, true, false, not, Option, none, some, List, [], ◌∷◌, arith,
  if◌then◌else◌,
}
use mathlib.Core.Path.{subst}
use ai_brain.Paths.{FilePath, is_relative_to}
use ai_brain.Dedup.Exec.{Error, Result, ok, err, Sys, Exec, pure, guard, continue, maybe, ◌>>=◌}
use ai_brain.Dedup.Os.{Os, Call, Stat, os, attempt, answered, actions}
use ai_brain.Dedup.Plans.{FileObservation, unseen, observe_path}
use ai_brain.Dedup.Executor.{is_within}
use ai_brain.Dedup.Executor.Constructing.{resolve_all}
use ai_brain.Dedup.Executor.Evidence.{Saw}

-- At some moment the call raised `OSError`.
abbrev pub Raised : {W A : Type 0} → Call W A → Type 0
Raised {W} c = (w : W) × ((c w).0 ≡ none)

pub is_false : (b : Bool) → not b ≡ true → b ≡ false
is_false true h = absurd (ground arith)
is_false false h = refl

abbrev pub value_or : {A : Type 0} → A → Result A → A
value_or a (ok b) = b
value_or a (err e) = a

answer_split : {A : Type 0} (o : Option A) (a : A) → answered o ≡ ok a → o ≡ some a
answer_split none a h = absurd (ground arith)
answer_split (some b) a h = ap some (ap (value_or a) h)

module _ {W A : Type 0} where
  -- What an action that returns, returns with.
  abbrev pub Yields : (A → Type 0) → Exec W A → Type 0
  Yields P m = (s : Sys W) (a : A) → (m s).0 ≡ ok a → P a

  pub pure-Yields : (P : A → Type 0) (a : A) → P a → Yields P (pure a)
  unfolding actions
  pure-Yields P a h s b q = subst P (ap (value_or a) q) h

module _ {W A B : Type 0} where
  pub bind-Yields :
      (P : B → Type 0) (m : Exec W A) (f : A → Exec W B)
      → ((s t : Sys W) (a : A) → m s ≡ (ok a, t) → Yields P (f a))
      → Yields P (m >>= f)
  unfolding actions
  bind-Yields P m f h s b q = go (m s) refl q
    where
      go : (out : Result A × Sys W) → m s ≡ out → (continue out.0 f out.1).0 ≡ ok b → P b
      go (err x, t) e q = absurd (ground arith)
      go (ok a, t) e q = h s t a e t b q

  pub os-Yields :
      (P : B → Type 0) (c : Call W A) (f : A → Exec W B)
      → ((a : A) → Saw c a → Yields P (f a))
      → Yields P (os c >>= f)
  unfolding actions
  os-Yields P c f h =
      bind-Yields P (os c) f
        λ s t a e. h a (s.world, answer_split (c s.world).0 a (ap (λ r. r.0) e))

module _ {W B : Type 0} where
  pub guard-Yields :
      (P : B → Type 0) (b : Bool) (e : Error) (f : Unit {0} → Exec W B)
      → (b ≡ true → Yields P (f tt))
      → Yields P (guard b e >>= f)
  unfolding actions
  guard-Yields P true e f h s x q = h refl s x q
  guard-Yields P false e f h s x q = absurd (ground arith)

module _ {W A B : Type 0} where
  -- A call whose `OSError` is caught.
  pub attempt-Yields :
      (P : B → Type 0) (c : Call W A) (f : Option A → Exec W B)
      → ((a : A) → Saw c a → Yields P (f (some a)))
      → (Raised c → Yields P (f none))
      → Yields P (attempt c >>= f)
  unfolding actions
  attempt-Yields P c f h k s b q = go (c s.world).0 refl q
    where
      go :
          (o : Option A)
          → (c s.world).0 ≡ o
          → (f o (record s { world = (c s.world).1 })).0 ≡ ok b
          → P b
      go none e q = k (s.world, e) _ b q
      go (some a) e q = h a (s.world, e) _ b q

module _ {W : Type 0} (sys : Os W) where
  -- Why `_is_within` answers that a path is not inside a root: one of them could not be resolved, or both
  -- were and the one is not below the other.
  pub data Outside (path root : FilePath) : Type 0 where
    unresolved_path : Raised (sys.resolve path) → Outside path root
    unresolved_root :
        (p : FilePath) → Saw (sys.resolve path) p → Raised (sys.resolve root) → Outside path root
    elsewhere :
        (p r : FilePath)
        → Saw (sys.resolve path) p
        → Saw (sys.resolve root) r
        → is_relative_to p r ≡ false
        → Outside path root

  pub is_within-Yields :
      (path root : FilePath) → Yields (λ b. b ≡ false → Outside path root) (is_within sys path root)
  unfolding is_within maybe
  is_within-Yields path root =
      attempt-Yields _ (sys.resolve path) _
        (λ p e.
          attempt-Yields _ (sys.resolve root) _
            (λ r e'. pure-Yields _ _ (λ h. elsewhere p r e e' h))
            (λ x. pure-Yields _ _ (λ h. unresolved_root p e x)))
        (λ x. pure-Yields _ _ (λ h. unresolved_path x))

  -- What an observation of a file stands on.
  pub data ObservedFile (path : FilePath) : FileObservation → Type 0 where
    absent : Saw (sys.is_file path) false → ObservedFile path unseen
    no_hash : Saw (sys.is_file path) true → Raised (sys.hash_file path) → ObservedFile path unseen
    no_stat : Saw (sys.is_file path) true → Raised (sys.stat path) → ObservedFile path unseen
    present :
        (hash : String) (st : Stat)
        → Saw (sys.is_file path) true
        → Saw (sys.hash_file path) hash
        → Saw (sys.stat path) st
        → ObservedFile path
            (record { exists = true; content_hash = some hash; file_size = some st.st_size })

  pub observe_path-Yields : (path : FilePath) → Yields (ObservedFile path) (observe_path sys path)
  unfolding observe_path maybe
  observe_path-Yields path = os-Yields _ (sys.is_file path) _ (λ b e. read b e)
    where
      read :
          (b : Bool)
          → Saw (sys.is_file path) b
          → Yields (ObservedFile path) (
              if not b then pure unseen else do
                digest ← attempt (sys.hash_file path)
                maybe digest (pure unseen) λ h. do
                  st ← attempt (sys.stat path)
                  maybe st (pure unseen) λ st. pure (record {
                    exists = true;
                    content_hash = some h;
                    file_size = some st.st_size;
                  }))
      read false e = pure-Yields _ _ (absent e)
      read true e =
          attempt-Yields _ (sys.hash_file path) _
            (λ h e'.
              attempt-Yields _ (sys.stat path) _ (λ st e''. pure-Yields _ _ (present h st e e' e''))
                (λ x. pure-Yields _ _ (no_stat e x)))
            (λ x. pure-Yields _ _ (no_hash e x))

  -- Each of some paths was resolved to the root at its position.
  abbrev pub AllResolved : List FilePath → List FilePath → Type 0
  AllResolved [] [] = Unit
  AllResolved (p ∷ ps) (r ∷ rs) = Saw (sys.resolve p) r × AllResolved ps rs
  AllResolved _ _ = ⊥

  pub resolve_all-Yields : (ps : List FilePath) → Yields (AllResolved ps) (resolve_all sys ps)
  unfolding resolve_all
  resolve_all-Yields [] = pure-Yields _ _ tt
  resolve_all-Yields (p ∷ ps) = os-Yields _ (sys.resolve p) _ (λ r e.
      bind-Yields _ (resolve_all sys ps) _
        (λ s t rs e'. pure-Yields _ _ (e, resolve_all-Yields ps s rs (ap (λ o. o.0) e'))))
