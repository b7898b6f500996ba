-- ===== src/Text.antt =====
-- Tests on the characters of a std::string.
pub mod Numbers
use Prim.Native.Char.{code}
use nswconfiguration.Common.{ℕ, ◌==◌, String, Bool, true, false, List, [], ◌∷◌, ◌||◌, ◌&&◌, any}

-- The codes of the characters.
abbrev pub codes : String → List ℕ
codes String.[] = []
codes (String.◌∷◌ c s) = code c ∷ codes s

-- A dot separates the keys of a property tree's path.
abbrev pub has_dot : String → Bool
has_dot s = any (λ c. c == b'.') (codes s)

abbrev pub is_prefix : List ℕ → List ℕ → Bool
is_prefix [] s = true
is_prefix (c ∷ p) [] = false
is_prefix (c ∷ p) (d ∷ s) = c == d && is_prefix p s

abbrev pub occurs : List ℕ → List ℕ → Bool
occurs p [] = is_prefix p []
occurs p (d ∷ s) = is_prefix p (d ∷ s) || occurs p s

-- s.find(p) != std::string::npos
unfoldable pub contains : String → String → Bool
contains s p = occurs (codes p) (codes s)
