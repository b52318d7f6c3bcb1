-- ===== src/BlobCache/Distinct.antt =====
-- Entries of which no two have the same ID, under the changes that the LRU makes to them.
use restic.Prelude.{
  ℕ, zero, suc, ◌+◌, ◌*◌, ◌≤◌, ◌≡◌, ◌∙◌, refl, sym, ap, subst, inl, inr, none, some, [], ◌∷◌, ◌++◌,
  arith, if◌then◌else◌, length, drop, Bool-cases, Option-cases, bytes_eq, bytes_eq_iff,
  bytes_eq_refl,
}
use restic.Prelude.Maps.{lookup, delete, lookup-delete, bytes_key}
use restic.Blob.{BlobId}
use restic.BlobCache.{Buffer, Entries, overhead, used_last}
use restic.BlobCache.Room.{used, IsDistinct}

pub length-le-used : (es : Entries) → overhead * length es ≤ used es
length-le-used [] = omega arith
length-le-used ((id, b) ∷ es) = omega (arith, length-le-used es)

used-append : (xs ys : Entries) → used (xs ++ ys) ≡ used xs + used ys
used-append [] ys = omega arith
used-append ((id, b) ∷ xs) ys = omega (arith, used-append xs ys)

pub used-snoc :
    (es : Entries) (id : BlobId) (b : Buffer)
    → used (es ++ (id, b) ∷ []) ≡ used es + (b.capacity + overhead)
used-snoc es id b = omega (arith, used-append es ((id, b) ∷ []))

pub lookup-drop :
    (id : BlobId) (k : ℕ) (es : Entries) → lookup id es ≡ none → lookup id (drop k es) ≡ none
unfolding lookup
lookup-drop id zero es h = h
lookup-drop id (suc k) [] h = refl
lookup-drop id (suc k) ((j, b) ∷ es) h = lookup-drop id k es (ground arith)

pub IsDistinct-drop : (k : ℕ) (es : Entries) → IsDistinct es → IsDistinct (drop k es)
IsDistinct-drop zero es h = h
IsDistinct-drop (suc k) [] h = tt
IsDistinct-drop (suc k) ((j, b) ∷ es) h = IsDistinct-drop k es h.1

pub lookup-snoc :
    (i j : BlobId) (b : Buffer) (es : Entries)
    → lookup i es ≡ none
    → lookup i (es ++ (j, b) ∷ []) ≡ (if bytes_eq j i then some b else none)
unfolding lookup
lookup-snoc i j b [] h = refl
lookup-snoc i j b ((k, c) ∷ es) h = ground (arith, lookup-snoc i j b es)

pub IsDistinct-snoc :
    (id : BlobId) (b : Buffer) (es : Entries)
    → IsDistinct es
    → lookup id es ≡ none
    → IsDistinct (es ++ (id, b) ∷ [])
unfolding lookup
IsDistinct-snoc id b [] distinct new = (refl, tt)
IsDistinct-snoc id b ((j, c) ∷ es) distinct new = (
  ground (arith, lookup-snoc j id b es, bytes_eq_iff j id, bytes_eq_iff id j),
  IsDistinct-snoc id b es distinct.1 (ground arith),
)

delete_absent : (id : BlobId) (es : Entries) → lookup id es ≡ none → delete id es ≡ es
unfolding lookup delete
delete_absent id [] h = refl
delete_absent id ((j, c) ∷ es) h = ground (arith, delete_absent id es)

used-delete :
    (id : BlobId) (b : Buffer) (es : Entries)
    → IsDistinct es
    → lookup id es ≡ some b
    → used (delete id es) + (b.capacity + overhead) ≡ used es
unfolding lookup delete
used-delete id b [] distinct h = ground arith
used-delete id b ((j, c) ∷ es) distinct h = elim (Bool-cases (bytes_eq j id)) [
  | inl e ↦
      let gone : delete id es ≡ es =
        delete_absent id es
          (subst (λ (i : BlobId). lookup i es ≡ none) ((bytes_eq_iff j id).0 e) distinct.0) in
      let same : c ≡ b = ground arith in
      rw (e, gone) (omega (arith, ap (λ (x : Buffer). x.capacity) same))
  | inr e ↦ rw e (omega (arith, used-delete id b es distinct.1 (ground arith)))
]

IsDistinct-delete : (id : BlobId) (es : Entries) → IsDistinct es → IsDistinct (delete id es)
unfolding delete
IsDistinct-delete id [] h = tt
IsDistinct-delete id ((j, c) ∷ es) h = elim (Bool-cases (bytes_eq j id)) [
  | inl e ↦ rw e (IsDistinct-delete id es h.1)
  | inr e ↦ rw e (lookup-delete id j es ∙ ground (arith, h.0), IsDistinct-delete id es h.1)
]

used_last-none : (id : BlobId) (es : Entries) → lookup id es ≡ none → used_last id es ≡ es
unfolding used_last
used_last-none id es e = rw (e, used_last) refl

used_last-some :
    (id : BlobId) (b : Buffer) (es : Entries)
    → lookup id es ≡ some b
    → used_last id es ≡ delete id es ++ (id, b) ∷ []
unfolding used_last
used_last-some id b es e = rw (e, used_last) refl

-- A use of an entry keeps the bytes and the IDs.
pub used-used_last : (id : BlobId) (es : Entries) → IsDistinct es → used (used_last id es) ≡ used es
used-used_last id es h = elim (Option-cases (lookup id es)) [
  | inl e ↦ ap used (used_last-none id es e)
  | inr (b, e) ↦
      ap used (used_last-some id b es e) ∙ used-snoc (delete id es) id b ∙ used-delete id b es h e
]

pub IsDistinct-used_last :
    (id : BlobId) (es : Entries) → IsDistinct es → IsDistinct (used_last id es)
IsDistinct-used_last id es h = elim (Option-cases (lookup id es)) [
  | inl e ↦ subst IsDistinct (sym (used_last-none id es e)) h
  | inr (b, e) ↦ subst IsDistinct (sym (used_last-some id b es e)) (
      IsDistinct-snoc id b (delete id es) (IsDistinct-delete id es h)
        (lookup-delete id id es ∙ rw (bytes_eq_refl id) refl))
]
