-- ===== src/Paths/Examples.antt =====
-- Paths and numbers read as Python reads them.
use ai_brain.Prelude.{◌≡◌, refl, []}
use ai_brain.Paths.{codes, suffix, path_of, name, decimal}

suffix_test : suffix (path_of (codes "/a/b/./x.tar.GZ/")) ≡ codes ".GZ"
unfolding suffix path_of name
suffix_test = refl

hidden_test : suffix (path_of (codes "a/.zip")) ≡ []
unfolding suffix path_of name
hidden_test = refl

decimal_test : decimal 1035 ≡ codes "1035"
unfolding decimal
decimal_test = refl
