-- ===== src/Node.antt =====
-- internal/restic/node.go: the record of a file or directory, and its comparison.
-- Strings are their bytes, a time is the instant that Equal compares, and a pointer that may be
-- nil, as well as a slice whose nil is told apart from an empty one, is an Option.
use restic.Prelude.{
  ℕ, Bool, true, false, ◌&&◌, not, List, [], ◌∷◌, Option, none, some, ◌==◌, if◌then◌else◌, bytes_eq,
  length,
}
use restic.Prelude.Maps.{lookup, put, bytes_key}
use restic.Blob.{Bytes, BlobId}

pub record ExtendedAttribute : Type 0 where
  pub name : Bytes
  pub value : Bytes

pub record Node : Type 0 where
  pub name : Bytes
  pub type : Bytes
  pub mode : ℕ
  pub mod_time : ℕ
  pub access_time : ℕ
  pub change_time : ℕ
  pub uid : ℕ
  pub gid : ℕ
  pub user : Bytes
  pub group : Bytes
  pub inode : ℕ
  pub device_id : ℕ
  pub size : ℕ
  pub links : ℕ
  pub link_target : Bytes
  pub link_target_raw : Option Bytes
  pub extended_attributes : List ExtendedAttribute
  pub generic_attributes : List (Bytes × Bytes)
  pub device : ℕ
  pub content : Option (List BlobId)
  pub subtree : Option BlobId
  pub error : Bytes
  pub path : Bytes

abbrev pub dir_type : Bytes
dir_type = 100 ∷ 105 ∷ 114 ∷ []

ids_eq : List BlobId → List BlobId → Bool
ids_eq [] [] = true
ids_eq (x ∷ xs) (y ∷ ys) = bytes_eq x y && ids_eq xs ys
ids_eq _ _ = false

unfoldable pub same_content : Option (List BlobId) → Option (List BlobId) → Bool
unfolding ids_eq
same_content none none = true
same_content none (some ys) = false
same_content (some xs) none = false
same_content (some xs) (some ys) = if length xs == length ys then ids_eq xs ys else false

-- mapvalue: the value, and whether the other node has the attribute.
pub record MapValue : Type 0 where
  pub value : Bytes
  pub present : Bool

abbrev pub Attributes : Type 0
Attributes = List (Bytes × MapValue)

collect_attributes : List ExtendedAttribute → Attributes → Attributes
collect_attributes [] m = m
collect_attributes (a ∷ rest) m =
    collect_attributes rest (put a.name (record { value = a.value; present = false }) m)

all_present : Attributes → Bool
all_present [] = true
all_present ((name, v) ∷ m) = v.present && all_present m

-- The loop over the attributes of the other node, then the one over the map.
match_attributes : List ExtendedAttribute → Attributes → Bool
unfolding all_present
match_attributes [] m = all_present m
match_attributes (a ∷ rest) m = elim (lookup a.name m) [
  | none ↦ false
  | some v ↦
      if not (bytes_eq v.value a.value)
      then false
      else match_attributes rest (put a.name (record v { present = true }) m)
]

unfoldable pub same_extended_attributes : List ExtendedAttribute → List ExtendedAttribute → Bool
unfolding collect_attributes match_attributes
same_extended_attributes xs ys =
    if not (length xs == length ys)
    then false
    else if length xs == 0
    then true
    else match_attributes ys (collect_attributes xs [])

deep_entries : List (Bytes × Bytes) → List (Bytes × Bytes) → Bool
deep_entries [] map2 = true
deep_entries ((k, v) ∷ map1) map2 = elim (lookup k map2) [
  | none ↦ false
  | some v2 ↦ if not (bytes_eq v v2) then false else deep_entries map1 map2
]

unfoldable pub deep_equal : List (Bytes × Bytes) → List (Bytes × Bytes) → Bool
unfolding deep_entries
deep_equal map1 map2 = if not (length map1 == length map2) then false else deep_entries map1 map2

same_subtree : Option BlobId → Option BlobId → Bool
same_subtree none none = true
same_subtree none (some y) = false
same_subtree (some x) none = false
same_subtree (some x) (some y) = bytes_eq x y

-- Node.Equals: the chain of tests, in its order.
unfoldable pub node_equals : Node → Node → Bool
unfolding same_subtree
node_equals a b =
    bytes_eq a.name b.name
    && bytes_eq a.type b.type
    && a.mode == b.mode
    && a.mod_time == b.mod_time
    && a.access_time == b.access_time
    && a.change_time == b.change_time
    && a.uid == b.uid
    && a.gid == b.gid
    && bytes_eq a.user b.user
    && bytes_eq a.group b.group
    && a.inode == b.inode
    && a.device_id == b.device_id
    && a.size == b.size
    && a.links == b.links
    && bytes_eq a.link_target b.link_target
    && a.device == b.device
    && same_content a.content b.content
    && same_extended_attributes a.extended_attributes b.extended_attributes
    && deep_equal a.generic_attributes b.generic_attributes
    && same_subtree a.subtree b.subtree
    && bytes_eq a.error b.error
