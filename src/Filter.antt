-- ===== src/Filter.antt =====
-- internal/filter/filter.go: the patterns of --exclude and --include.
-- A string is the list of its bytes. filepath.Clean and filepath.Match are parameters: `clean`,
-- and `glob`, which returns nothing where the pattern is malformed.
pub mod Listing
use restic.Prelude.{
  ℕ, zero, suc, ◌+◌, ◌-◌, Bool, true, false, not, ◌&&◌, ◌||◌, Option, none, some, List, [], ◌∷◌,
  ◌++◌, ◌==◌, ltb, leb, if◌then◌else◌, length, take, drop, replicate, Result, ok, err, ◌>>=◌,
  bytes_eq, map,
}
use restic.Prelude.Strings.{slash, split}
use restic.Blob.{Bytes}

pub data FilterError : Type 0 where
  bad_string bad_pattern : FilterError
  index_panic : FilterError

-- patternPart; the pattern is "/" first in an absolute pattern, and "" for "**".
pub record PatternPart : Type 0 where
  pub pattern : Bytes
  pub is_simple : Bool

pub record Pattern : Type 0 where
  pub original : Bytes
  pub parts : List PatternPart
  pub is_negated : Bool

-- The characters of "\\[]*?".
is_special : ℕ → Bool
is_special c = c == 92 || c == 91 || c == 93 || c == 42 || c == 63

contains_special : Bytes → Bool
unfolding is_special
contains_special [] = false
contains_special (c ∷ cs) = is_special c || contains_special cs

-- splitPath, where the separator is the slash.
unfoldable pub split_path : Bytes → List Bytes
split_path p = elim (split slash p) [
  | [] ↦ []
  | x ∷ xs ↦ if length x == 0 then (slash ∷ []) ∷ xs else x ∷ xs
]

unfoldable pub prepare_str : Bytes → Result FilterError (List Bytes)
prepare_str str = if length str == 0 then err bad_string else ok (split_path str)

-- The body of the loop of preparePattern.
prepare_part : Bytes → PatternPart
unfolding contains_special
prepare_part part = record {
  pattern = (if bytes_eq part (42 ∷ 42 ∷ []) then [] else part);
  is_simple = not (contains_special part);
}

unfoldable pub prepare_pattern : (Bytes → Bytes) → Bytes → Result FilterError Pattern
unfolding prepare_part
prepare_pattern clean [] = err index_panic
prepare_pattern clean (c ∷ cs) =
    let negate = c == 33 in
    let rest = if negate then cs else c ∷ cs in
    ok (record {
      original = c ∷ cs;
      parts = map prepare_part (split_path (clean rest));
      is_negated = negate;
    })

-- hasDoubleWildcard: the place of the first "**".
unfoldable pub double_wildcard : List PatternPart → Option ℕ
double_wildcard [] = none
double_wildcard (p ∷ ps) =
    let rest = double_wildcard ps in
    if length p.pattern == 0 then some 0 else elim rest [ none ↦ none | some i ↦ some (i + 1) ]

unfoldable pub wildcards : List PatternPart → ℕ
wildcards [] = 0
wildcards (p ∷ ps) = if length p.pattern == 0 then wildcards ps + 1 else wildcards ps

abbrev star : PatternPart
star = record { pattern = 42 ∷ []; is_simple = false }

is_slash : List PatternPart → Bool
is_slash [] = false
is_slash (p ∷ ps) = bytes_eq p.pattern (slash ∷ [])

starts_rooted : List Bytes → Bool
starts_rooted [] = false
starts_rooted (s ∷ ss) = bytes_eq s (slash ∷ [])

module _ (glob : Bytes → Bytes → Option Bool) where
  unfoldable pub match_part : PatternPart → Bytes → Result FilterError Bool
  match_part p s =
      if p.is_simple
      then ok (bytes_eq p.pattern s)
      else elim (glob p.pattern s) [ none ↦ err bad_pattern | some m ↦ ok m ]

  -- The inner loop of match at one offset: from the last part to the first.
  unfoldable pub match_parts : List PatternPart → List Bytes → Result FilterError Bool
  match_parts [] strs = ok true
  match_parts (p ∷ ps) [] = err index_panic
  match_parts (p ∷ ps) (s ∷ ss) = do
    later ← match_parts ps ss
    (if later then match_part p s else ok false)

  -- The outer loop: `n` offsets, the last of them first, the first being `low`.
  unfoldable pub match_offsets : ℕ → ℕ → List PatternPart → List Bytes → Result FilterError Bool
  match_offsets zero low parts strs = ok false
  match_offsets (suc n) low parts strs = do
    found ← match_parts parts (drop (low + n) strs)
    elim found [ true ↦ ok true | false ↦ match_offsets n low parts strs ]

  -- match for a pattern without "**".
  unfoldable pub match_plain : List PatternPart → List Bytes → Result FilterError Bool
  unfolding is_slash starts_rooted
  match_plain parts strs =
      if length parts == 0 && length strs == 0
      then ok true
      else if length parts == 0
      then ok false
      else if leb (length parts) (length strs)
      then (let high = length strs - length parts in
          if is_slash parts
          then match_offsets 1 0 parts strs
          else if starts_rooted strs
          then match_offsets high 1 parts strs
          else match_offsets (high + 1) 0 parts strs)
      else ok false

  -- The loop that expands the "**" at `pos`, from `i` stars on, `n` times, with `rec` for the
  -- patterns that have one "**" less.
  unfoldable pub expand :
      (List PatternPart → List Bytes → Result FilterError Bool)
      → ℕ
      → ℕ
      → ℕ
      → List PatternPart
      → List Bytes
      → Result FilterError Bool
  expand rec zero i pos parts strs = ok false
  expand rec (suc n) i pos parts strs = do
    matched ← rec (take pos parts ++ replicate i star ++ drop (pos + 1) parts) strs
    elim matched [ true ↦ ok true | false ↦ expand rec n (i + 1) pos parts strs ]

  -- match for a pattern with `k` times "**".
  unfoldable pub match_wild : ℕ → List PatternPart → List Bytes → Result FilterError Bool
  unfolding expand
  match_wild zero parts strs = match_plain parts strs
  match_wild (suc k) parts strs = elim (double_wildcard parts) [
    | none ↦ match_plain parts strs
    | some pos ↦ expand (match_wild k) (length strs + 2 - length parts) 0 pos parts strs
  ]

  -- match
  unfoldable pub match_pattern : Pattern → List Bytes → Result FilterError Bool
  unfolding match_wild
  match_pattern pattern strs = match_wild (wildcards pattern.parts) pattern.parts strs

  cut_at : Option ℕ → List Bytes → List Bytes
  cut_at none strs = strs
  cut_at (some pos) strs = if leb pos (length strs) then take pos strs else strs

  unfoldable pub child_match : Pattern → List Bytes → Result FilterError Bool
  unfolding match_pattern cut_at is_slash
  child_match pattern strs =
      if length pattern.parts == 0
      then err index_panic
      else if not (is_slash pattern.parts)
      then ok true
      else (let cut = cut_at (double_wildcard pattern.parts) strs in
          let l =
            if ltb (length pattern.parts) (length cut) then length pattern.parts else length cut in
          match_pattern (record pattern { parts = take l pattern.parts }) cut)

  -- Match and ChildMatch
  unfoldable pub match : (Bytes → Bytes) → Bytes → Bytes → Result FilterError Bool
  unfolding match_pattern
  match clean pattern_str str = if length pattern_str == 0 then ok true else (do
    pattern ← prepare_pattern clean pattern_str
    strs ← prepare_str str
    match_pattern pattern strs)

  unfoldable pub child_match_str : (Bytes → Bytes) → Bytes → Bytes → Result FilterError Bool
  child_match_str clean pattern_str str = if length pattern_str == 0 then ok true else (do
    pattern ← prepare_pattern clean pattern_str
    strs ← prepare_str str
    child_match pattern strs)
