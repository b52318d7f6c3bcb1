-- ===== src/Filter/Listing/NoBreak.antt =====
-- Leaving the loop of list early does not change its result.
use restic.Prelude.{
  ◌≡◌, ◌∙◌, sym, ap, Bool, true, false, not, ◌&&◌, Option, List, [], ◌∷◌, arith, Result, ok,
  ok-injective, ◌>>=◌, >>=-eq-ok, Bool-cases, inl, inr, length, suc-==-zero,
}
use restic.Blob.{Bytes}
use restic.Filter.{FilterError, Pattern, prepare_str, match_pattern}
use restic.Filter.Listing.{has_negated, updated, child_of, list_loop, list}

rest_plain :
    (pat : Pattern) (pats : List Pattern)
    → has_negated (pat ∷ pats) ≡ false
    → has_negated pats ≡ false
unfolding has_negated
rest_plain pat pats h = ground arith

module _ (glob : Bytes → Bytes → Option Bool) where
  -- The loop without the break.
  unfoldable pub full_loop :
      Bool → List Bytes → List Pattern → Bool × Bool → Result FilterError (Bool × Bool)
  full_loop check strs [] r = ok r
  full_loop check strs (pat ∷ pats) r = do
    m ← match_pattern glob pat strs
    c ← child_of glob check pat strs
    full_loop check strs pats (updated pat.is_negated m c r)

  updated-kept : (m c : Bool) → updated false m c (true, true) ≡ (true, true)
  unfolding updated
  updated-kept m c = ground arith

  -- Without negated patterns, two answers that are both yes stay so.
  full_loop-kept :
      (check : Bool) (strs : List Bytes) (pats : List Pattern) (r : Bool × Bool)
      → has_negated pats ≡ false
      → full_loop check strs pats (true, true) ≡ ok r
      → r ≡ (true, true)
  unfolding full_loop has_negated
  full_loop-kept check strs [] r plain h = sym (ok-injective (true, true) r h)
  full_loop-kept check strs (pat ∷ pats) r plain h =
      let own : pat.is_negated ≡ false = ground arith in
      let later : has_negated pats ≡ false = ground arith in
      let (m, _, h1) = >>=-eq-ok (match_pattern glob pat strs) _ h in
      let (c, _, h2) = >>=-eq-ok (child_of glob check pat strs) _ h1 in
      full_loop-kept check strs pats r later (
        sym (
          ap (full_loop check strs pats)
            (ap (λ (b : Bool). updated b m c (true, true)) own ∙ updated-kept m c))
        ∙ h2)

  both-true :
      (negated own : Bool) (r : Bool × Bool)
      → (not own && r.0 && r.1 && not negated) ≡ true
      → (negated ≡ false) × (r ≡ (true, true))
  both-true negated own (a, b) h = ground arith

  list_loop-full :
      (negated check : Bool) (strs : List Bytes) (pats : List Pattern) (r r' : Bool × Bool)
      → (negated ≡ false → has_negated pats ≡ false)
      → full_loop check strs pats r ≡ ok r'
      → list_loop glob negated check strs pats r ≡ ok r'
  unfolding full_loop list_loop
  list_loop-full negated check strs [] r r' plain h = h
  list_loop-full negated check strs (pat ∷ pats) r r' plain h =
      let (m, em, h1) = >>=-eq-ok (match_pattern glob pat strs) _ h in
      let (c, ec, h2) = >>=-eq-ok (child_of glob check pat strs) _ h1 in
      let r1 : Bool × Bool = updated pat.is_negated m c r in
      rw (em, ec)
        (elim (Bool-cases (not pat.is_negated && r1.0 && r1.1 && not negated)) [
          | inl stop ↦
              let (clear, same) = both-true negated pat.is_negated r1 stop in
              let last =
                full_loop-kept check strs pats r' (rest_plain pat pats (plain clear))
                  (sym (ap (full_loop check strs pats) same) ∙ h2) in
              rw (stop) (ap ok (same ∙ sym last))
          | inr go ↦
              rw (go) (
                list_loop-full negated check strs pats r1 r' (λ e. rest_plain pat pats (plain e))
                  h2)
        ])

  -- If every pattern can be matched, list returns what the loop over all patterns returns.
  pub list-full_loop :
      (patterns : List Pattern) (check : Bool) (str : Bytes) (strs : List Bytes) (r : Bool × Bool)
      → prepare_str str ≡ ok strs
      → full_loop check strs patterns (false, false) ≡ ok r
      → list glob patterns check str ≡ ok r
  unfolding list full_loop
  list-full_loop [] check str strs r prepared h = h
  list-full_loop (pat ∷ pats) check str strs r prepared h =
      rw (suc-==-zero (length pats), prepared)
        (list_loop-full (has_negated (pat ∷ pats)) check strs (pat ∷ pats) (false, false) r (λ e. e)
          h)
