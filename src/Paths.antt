-- ===== src/Paths.antt =====
-- The parts of `pathlib` and `str` that the program uses, over the code points of a text.
mod Examples
use Prim.Native.Char.{code}
use Prim.Native.Nat.{◌/◌, ◌%◌}
use ai_brain.Prelude.{
  ℕ, zero, suc, ◌+◌, String, ◌≡◌, refl, ◌↔◌, Bool, true, false, ◌&&◌, Option, none, some, List, [],
  ◌∷◌, ◌++◌, map, arith, leb, ◌==◌, if◌then◌else◌,
}

abbrev pub Text : Type 0
Text = List ℕ

-- The parts of a path; an absolute one begins with the part "/".
abbrev pub FilePath : Type 0
FilePath = List Text

abbrev pub codes : String → Text
codes String.[] = []
codes (String.◌∷◌ c s) = code c ∷ codes s

abbrev pub text_beq : Text → Text → Bool
text_beq [] [] = true
text_beq (a ∷ s) (b ∷ t) = a == b && text_beq s t
text_beq _ _ = false

abbrev pub path_beq : FilePath → FilePath → Bool
path_beq [] [] = true
path_beq (a ∷ p) (b ∷ q) = text_beq a b && path_beq p q
path_beq _ _ = false

-- `str.lower`, for ASCII letters.
abbrev pub lower_code : ℕ → ℕ
lower_code c = if leb b'A' c && leb c b'Z' then c + 32 else c

unfoldable pub lower : Text → Text
lower = map lower_code

-- The segments between slashes, in order; `seg` is the segment read so far.
segments : Text → Text → List Text
segments seg [] = seg ∷ []
segments seg (c ∷ s) = elim (c == b'/') [
  | true ↦ seg ∷ segments [] s
  | false ↦ segments (seg ++ c ∷ []) s
]

-- `pathlib` drops empty segments and the segment ".".
kept : List Text → FilePath
kept [] = []
kept ([] ∷ ss) = kept ss
kept ((c ∷ []) ∷ ss) = let rest = kept ss in if c == b'.' then rest else (c ∷ []) ∷ rest
kept (s ∷ ss) = s ∷ kept ss

-- `Path(text)`; a text with one leading slash is absolute.
unfoldable pub path_of : Text → FilePath
unfolding segments kept
path_of [] = []
path_of (c ∷ s) =
    if c == b'/' then (b'/' ∷ []) ∷ kept (segments [] s) else kept (segments [] (c ∷ s))

-- `path.name`: the last part that is not the root.
unfoldable pub name : FilePath → Text
name [] = []
name (p ∷ []) = if text_beq p (b'/' ∷ []) then [] else p
name (p ∷ q ∷ r) = name (q ∷ r)

-- The text from the last dot on, if there is one.
from_last_dot : Text → Option Text
from_last_dot [] = none
from_last_dot (c ∷ s) = elim (from_last_dot s) [
  | some t ↦ some t
  | none ↦ if c == b'.' then some (c ∷ s) else none
]

-- `path.suffix`: from the last dot of the name on, unless that dot is its first or last character.
suffix_of_name : Text → Text
unfolding from_last_dot
suffix_of_name [] = []
suffix_of_name (c ∷ s) = elim (from_last_dot s) [
  | none ↦ []
  | some [] ↦ []
  | some (d ∷ []) ↦ []
  | some (d ∷ e ∷ t) ↦ d ∷ e ∷ t
]

unfoldable pub suffix : FilePath → Text
unfolding suffix_of_name
suffix p = suffix_of_name (name p)

-- `text.lstrip(".")`
unfoldable pub lstrip_dot : Text → Text
lstrip_dot [] = []
lstrip_dot (c ∷ s) = let rest = lstrip_dot s in if c == b'.' then rest else c ∷ s

-- `path.is_relative_to(root)`, by parts
unfoldable pub is_relative_to : FilePath → FilePath → Bool
is_relative_to p [] = true
is_relative_to [] (r ∷ rs) = false
is_relative_to (p ∷ ps) (r ∷ rs) = text_beq p r && is_relative_to ps rs

-- `str(n)`: the decimal digits, the fuel bounding their number.
decimal_from : ℕ → ℕ → Text → Text
decimal_from zero n acc = acc
decimal_from (suc f) n acc =
    let rest = decimal_from f (n / 10) ((b'0' + n % 10) ∷ acc) in
    if leb 10 n then rest else (b'0' + n) ∷ acc

unfoldable pub decimal : ℕ → Text
unfolding decimal_from
decimal n = decimal_from (suc n) n []

pub text_beq_iff : (s t : Text) → (text_beq s t ≡ true) ↔ (s ≡ t)
text_beq_iff [] [] = (λ e. refl, λ e. refl)
text_beq_iff [] (b ∷ t) = (λ e. cc, λ e. cc)
text_beq_iff (a ∷ s) [] = (λ e. cc, λ e. cc)
text_beq_iff (a ∷ s) (b ∷ t) =
    let (f, g) = text_beq_iff s t in (λ e. ground (arith, f), λ e. ground (arith, g))
