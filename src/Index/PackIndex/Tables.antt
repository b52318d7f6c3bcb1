-- ===== src/Index/PackIndex/Tables.antt =====
-- The contents of the four tables of an index, and what one more entry does to them.
use restic.Prelude.{
  ℕ, ◌≤◌, ◌<◌, ◌≡◌, ◌≢◌, ◌∙◌, refl, sym, ap, subst, false, List, [], ◌∷◌, ◌++◌, append-nil,
  if◌then◌else◌, arith, length, All, All-append, Result, ok, err, ok-injective, Bool-cases, inl,
  inr,
}
use restic.Blob.{
  BlobType, invalid_blob, data_blob, tree_blob, num_blob_types, Blob, type_eq, type_eq→eq,
}
use restic.Index.IndexMap.{IndexMap}
use restic.Index.IndexMap.Chains.{Item}
use restic.Index.IndexMap.Prepare.{IsMap, contents}
use restic.Index.IndexMap.Add.{add-IsMap}
use restic.Index.PackIndex.{ByType, PackIndex, IndexError, map_of, set_map, lift_map, max_uint32}
use restic.Index.PackIndex.Operations.{add_entry, store}

abbrev pub table_items : Result IndexError IndexMap → List Item
table_items (ok m) = contents m
table_items (err e) = []

-- The items of one type, in the order in which they were stored.
unfoldable pub contents_of : ByType → BlobType → List Item
contents_of b t = table_items (map_of b t)

abbrev pub Within : ℕ → List Item → Type 0
Within n xs = All (λ x. x.pack_index < n) xs

-- Every table is one that add has built, and its entries name one of the `n` packs.
abbrev pub IsTables : ℕ → ByType → Type 0
IsTables n b = (t : BlobType) (m : IndexMap) → map_of b t ≡ ok m → IsMap m × Within n (contents m)

abbrev pub IsIndex : PackIndex → Type 0
IsIndex idx = IsTables (length idx.packs) idx.by_type

-- A blob that store accepts.
pub record IsStorable (b : Blob) : Type 0 where
  pub typed : b.type ≢ num_blob_types
  pub offset : b.offset ≤ max_uint32
  pub len : b.len ≤ max_uint32
  pub uncompressed : b.uncompressed ≤ max_uint32

abbrev pub item_for : ℕ → Blob → Item
item_for pack_index b = record {
  id = b.id;
  pack_index = pack_index;
  offset = b.offset;
  len = b.len;
  uncompressed = b.uncompressed;
}

-- The items that the blobs of a type become.
unfoldable pub items_for : ℕ → BlobType → List Blob → List Item
items_for pack_index t [] = []
items_for pack_index t (b ∷ bs) =
    if type_eq b.type t
    then item_for pack_index b ∷ items_for pack_index t bs
    else items_for pack_index t bs

pub map_of-total :
    (b : ByType) (t : BlobType) → t ≢ num_blob_types → (m : IndexMap) × (map_of b t ≡ ok m)
unfolding map_of
map_of-total b invalid_blob h = (b.invalid, refl)
map_of-total b data_blob h = (b.data_map, refl)
map_of-total b tree_blob h = (b.tree, refl)
map_of-total b num_blob_types h = absurd (h refl)

map_of-set_same :
    (b : ByType) (t : BlobType) (m m' : IndexMap)
    → map_of b t ≡ ok m
    → map_of (set_map b t m') t ≡ ok m'
unfolding map_of set_map
map_of-set_same b invalid_blob m m' h = refl
map_of-set_same b data_blob m m' h = refl
map_of-set_same b tree_blob m m' h = refl
map_of-set_same b num_blob_types m m' h = cc

map_of-set_other :
    (b : ByType) (t s : BlobType) (m' : IndexMap)
    → type_eq t s ≡ false
    → map_of (set_map b t m') s ≡ map_of b s
unfolding map_of set_map type_eq
map_of-set_other b t s m' h = ground arith

-- The table of type `t` after its map became `m'`.
set_map-contents :
    (b : ByType) (t s : BlobType) (m m' : IndexMap) (xs : List Item)
    → map_of b t ≡ ok m
    → contents m' ≡ contents m ++ xs
    → contents_of (set_map b t m') s ≡ contents_of b s ++ (if type_eq t s then xs else [])
unfolding contents_of
set_map-contents b t s m m' xs e grown = elim (Bool-cases (type_eq t s)) [
  | inl here ↦
      let same : t ≡ s = type_eq→eq t s here in
      subst
        (λ (r : BlobType).
          contents_of (set_map b t m') r ≡ contents_of b r ++ (if type_eq t s then xs else []))
        same
        (rw here (
          ap table_items (map_of-set_same b t m m' e)
          ∙ grown
          ∙ ap (λ (r : Result IndexError IndexMap). table_items r ++ xs) (sym e)))
  | inr other ↦ rw other (ap table_items (map_of-set_other b t s m' other) ∙ sym (append-nil _))
]

set_map-IsTables :
    (n : ℕ) (b : ByType) (t : BlobType) (m m' : IndexMap)
    → IsTables n b
    → map_of b t ≡ ok m
    → IsMap m'
    → Within n (contents m')
    → IsTables n (set_map b t m')
set_map-IsTables n b t m m' tables e built within s x found = elim (Bool-cases (type_eq t s)) [
  | inl here ↦
      let same : t ≡ s = type_eq→eq t s here in
      let is : ◌≡◌ {A = Result IndexError IndexMap} (ok m') (ok x) =
        sym (map_of-set_same b t m m' e) ∙ ap (map_of (set_map b t m')) same ∙ found in
      let mx : m' ≡ x = ok-injective m' x is in
      subst (λ (y : IndexMap). IsMap y × Within n (contents y)) mx (built, within)
  | inr other ↦ tables s x (sym (map_of-set_other b t s m' other) ∙ found)
]

pub store-fits :
    (idx : PackIndex) (pack_index : ℕ) (b : Blob)
    → IsStorable b
    → store idx pack_index b ≡ add_entry idx b.type b.id pack_index b.offset b.len b.uncompressed
unfolding store
store-fits idx pack_index b fits = ground (arith, fits.offset, fits.len, fits.uncompressed)

-- One item is added to the table of its type, and nothing else changes.
pub add_entry-contents :
    (idx : PackIndex) (t : BlobType) (x : Item)
    → IsIndex idx
    → x.pack_index < length idx.packs
    → t ≢ num_blob_types
    → (tables : ByType) × (add_entry idx t x.id x.pack_index x.offset x.len x.uncompressed
        ≡ ok (record idx { by_type = tables }))
      × IsTables (length idx.packs) tables
      × ((s : BlobType)
          → contents_of tables s
            ≡ contents_of idx.by_type s ++ (if type_eq t s then x ∷ [] else []))
unfolding add_entry lift_map
add_entry-contents idx t x h lt typed =
    let (m, e) = map_of-total idx.by_type t typed in
    let (built, within) = h t m e in
    let (m', made, built', number, grown) =
      add-IsMap m x.id x.pack_index x.offset x.len x.uncompressed built in
    let within' =
      subst (Within (length idx.packs)) (sym grown)
        (All-append (λ y. y.pack_index < length idx.packs) (contents m) (x ∷ []) within (lt, tt)) in
    (
      set_map idx.by_type t m',
      rw (e, made) refl,
      set_map-IsTables (length idx.packs) idx.by_type t m m' h e built' within',
      λ s. set_map-contents idx.by_type t s m m' (x ∷ []) e grown,
    )
