-- ===== src/Filter/Listing.antt =====
-- list of filter.go: several patterns, of which later ones can take back a match.
pub mod NoBreak
use restic.Prelude.{
  Bool, true, false, not, ◌&&◌, ◌||◌, Option, List, [], ◌∷◌, ◌==◌, if◌then◌else◌, length, Result,
  ok, err, ◌>>=◌,
}
use restic.Blob.{Bytes}
use restic.Filter.{FilterError, Pattern, prepare_str, prepare_pattern, match_pattern, child_match}

-- ParsePatterns
unfoldable pub parse_patterns : (Bytes → Bytes) → List Bytes → Result FilterError (List Pattern)
parse_patterns clean [] = ok []
parse_patterns clean (pat ∷ pats) = do
  rest ← parse_patterns clean pats
  (if length pat == 0 then ok rest else (do p ← prepare_pattern clean pat; ok (p ∷ rest)))

unfoldable pub has_negated : List Pattern → Bool
has_negated [] = false
has_negated (p ∷ ps) = p.is_negated || has_negated ps

-- matched and childMayMatch after one more pattern, which matches (m) and whose children may (c).
unfoldable pub updated : Bool → Bool → Bool → Bool × Bool → Bool × Bool
updated negated m c (matched, child) =
    if negated then (matched && not m, child && not m) else (matched || m, child || c)

module _ (glob : Bytes → Bytes → Option Bool) where
  unfoldable pub child_of : Bool → Pattern → List Bytes → Result FilterError Bool
  child_of check pat strs = if check then child_match glob pat strs else ok true

  -- The loop of list; `negated` is hasNegatedPattern.
  unfoldable pub list_loop :
      Bool → Bool → List Bytes → List Pattern → Bool × Bool → Result FilterError (Bool × Bool)
  list_loop negated check strs [] r = ok r
  list_loop negated check strs (pat ∷ pats) r = do
    m ← match_pattern glob pat strs
    c ← child_of check pat strs
    let r' = updated pat.is_negated m c r
    elim (not pat.is_negated && r'.0 && r'.1 && not negated) [
      | true ↦ ok r'
      | false ↦ list_loop negated check strs pats r'
    ]

  -- list: matched and childMayMatch.
  unfoldable pub list : List Pattern → Bool → Bytes → Result FilterError (Bool × Bool)
  list patterns check str = if length patterns == 0 then ok (false, false) else (do
    strs ← prepare_str str
    list_loop (has_negated patterns) check strs patterns (false, false))
