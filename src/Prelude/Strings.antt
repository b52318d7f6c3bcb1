-- ===== src/Prelude/Strings.antt =====
-- The functions of Go's package strings that the components use, on the bytes of a text.
use restic.Prelude.{ℕ, List, [], ◌∷◌, ◌==◌, if◌then◌else◌}

abbrev pub slash : ℕ
slash = 47

put_first : ℕ → List (List ℕ) → List (List ℕ)
put_first c [] = (c ∷ []) ∷ []
put_first c (x ∷ xs) = (c ∷ x) ∷ xs

-- strings.Split at a separator of one byte
unfoldable pub split : ℕ → List ℕ → List (List ℕ)
unfolding put_first
split sep [] = [] ∷ []
split sep (c ∷ cs) = let rest = split sep cs in if c == sep then [] ∷ rest else put_first c rest
