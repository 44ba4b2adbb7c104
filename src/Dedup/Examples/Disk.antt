-- ===== src/Dedup/Examples/Disk.antt =====
-- A small disk on one device, for the examples: regular files and directories by their paths.
use ai_brain.Prelude.{
  not, String, Bool, false, Option, none, some, List, [], ◌∷◌, if◌then◌else◌, is_some,
}
use ai_brain.Paths.{FilePath, path_beq}
use ai_brain.Dedup.Os.{Os, Stat}

pub record Entry : Type 0 where
  pub path : FilePath
  pub st : Stat
  pub digest : String

abbrev pub lookup : FilePath → List Entry → Option Entry
lookup p [] = none
lookup p (x ∷ xs) = let rest = lookup p xs in if path_beq x.path p then some x else rest

abbrev regular : Option Entry → Bool
regular none = false
regular (some x) = x.st.is_regular

abbrev is_directory : Option Entry → Bool
is_directory none = false
is_directory (some x) = not x.st.is_regular

abbrev stat_of : Option Entry → Option Stat
stat_of none = none
stat_of (some x) = some x.st

abbrev digest_of : Option Entry → Option String
digest_of none = none
digest_of (some x) = some x.digest

abbrev opened : Option Entry → Option (Stat × String)
opened none = none
opened (some x) = some (x.st, x.digest)

abbrev pub directory : FilePath → Entry
directory p = record {
  path = p;
  st = record { st_dev = 7; st_ino = 99; st_size = 0; st_nlink = 2; is_regular = false };
  digest = "";
}

abbrev moved : FilePath → FilePath → List Entry → List Entry
moved from to [] = []
moved from to (x ∷ xs) =
    let rest = moved from to xs in
    if path_beq x.path from then record x { path = to } ∷ rest else x ∷ rest

abbrev pub disk : Os (List Entry)
disk = record {
  now = λ w. 0;
  is_file = λ p w. (some (regular (lookup p w)), w);
  is_dir = λ p w. (some (is_directory (lookup p w)), w);
  is_symlink = λ p w. (some false, w);
  exists = λ p w. (some (is_some (lookup p w)), w);
  stat = λ p w. (stat_of (lookup p w), w);
  lstat = λ p w. (stat_of (lookup p w), w);
  resolve_strict = λ p w. (if is_some (lookup p w) then some p else none, w);
  resolve = λ p w. (some p, w);
  hash_file = λ p w. (digest_of (lookup p w), w);
  open_and_hash = λ p w. (opened (lookup p w), w);
  mkdir = λ p w. (some tt, directory p ∷ w);
  rename = λ from to w. (some tt, moved from to w);
}
