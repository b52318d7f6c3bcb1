-- ===== src/Samples/Trees.antt =====
-- Trees of two nodes, their JSON, and a path through them.
use restic.Prelude.{
  ◌≡◌, ◌↔◌, refl, true, none, some, List, [], ◌∷◌, ◌++◌, replicate, All, subst, if◌then◌else◌,
  bytes_eq, Result, ok, ok-injective,
}
use restic.Prelude.Order.{bytes_lt}
use restic.Prelude.Strings.{slash, split}
use restic.Blob.{Bytes, BlobId, BlobType}
use restic.Node.{Node, dir_type}
use restic.Tree.{Tree, TreeError, find, insert, IsSorted}
use restic.Tree.Search.{entry}
use restic.Tree.Insert.{find-entry, insert-find}
use restic.Tree.Builder.{
  TreeJsonBuilder, new_tree_json_builder, add_nodes, finalize, json_start, json_end, joined,
  builder-json,
}
use restic.Tree.Directory.{load_tree, find_tree_directory, Leads, find_tree_directory-Leads}

abbrev node_named : Bytes → Node
node_named name = record {
  name = name;
  type = dir_type;
  mode = 0;
  mod_time = 0;
  access_time = 0;
  change_time = 0;
  uid = 0;
  gid = 0;
  user = [];
  group = [];
  inode = 0;
  device_id = 0;
  size = 0;
  links = 0;
  link_target = [];
  link_target_raw = none;
  extended_attributes = [];
  generic_attributes = [];
  device = 0;
  content = none;
  subtree = some (replicate 32 3);
  error = [];
  path = [];
}

abbrev two_nodes : List Node
two_nodes = node_named (b'a' ∷ []) ∷ node_named (b'c' ∷ []) ∷ []

abbrev two_dirs : Tree
two_dirs = record { nodes = two_nodes }

two_nodes-IsSorted : IsSorted two_nodes
unfolding bytes_lt
two_nodes-IsSorted = ((refl, tt), (tt, tt))

find-entry_example : find (some two_dirs) (b'c' ∷ []) ≡ entry (b'c' ∷ []) two_nodes
find-entry_example = find-entry two_dirs (b'c' ∷ []) two_nodes-IsSorted

b_is_new : find (some two_dirs) (b'b' ∷ []) ≡ none
unfolding entry bytes_eq
b_is_new = find-entry two_dirs (b'b' ∷ []) two_nodes-IsSorted

insert-find_example :
    (t' : Tree) × (insert two_dirs (node_named (b'b' ∷ [])) ≡ ok t')
    × IsSorted t'.nodes
    × ((name : Bytes)
        → find (some t') name ≡ (
            if bytes_eq (b'b' ∷ []) name
            then some (node_named (b'b' ∷ []))
            else find (some two_dirs) name))
insert-find_example = insert-find two_dirs (node_named (b'b' ∷ [])) two_nodes-IsSorted b_is_new

-- A JSON of a node that only has its name.
abbrev text : Node → Bytes
text node = node.name

abbrev marshal : Node → Result TreeError Bytes
marshal node = ok (text node)

builder-json_example :
    (All (λ (y : Node). bytes_lt [] y.name ≡ true) two_nodes × IsSorted two_nodes
      → (end : TreeJsonBuilder) × (add_nodes marshal new_tree_json_builder two_nodes ≡ ok end)
        × ((finalize end).1 ≡ json_start ++ (joined marshal text two_nodes ++ json_end)))
    × ((end : TreeJsonBuilder)
        → add_nodes marshal new_tree_json_builder two_nodes ≡ ok end
        → All (λ (y : Node). bytes_lt [] y.name ≡ true) two_nodes × IsSorted two_nodes)
builder-json_example = builder-json marshal text two_nodes (refl, (refl, tt))

-- A repository in which each tree is the one of two directories.
abbrev load_blob : BlobType → BlobId → Result TreeError Bytes
load_blob t id = ok id

abbrev unmarshal : Bytes → Result TreeError Tree
unmarshal buf = ok two_dirs

loads-IsSorted :
    (id : BlobId) (t : Tree) → load_tree load_blob unmarshal id ≡ ok t → IsSorted t.nodes
unfolding load_tree
loads-IsSorted id t h =
    subst (λ (x : Tree). IsSorted x.nodes) (ok-injective two_dirs t h) two_nodes-IsSorted

find_tree_directory-Leads_example :
    (find_tree_directory load_blob unmarshal (λ p. p) (some (replicate 32 1)) (slash ∷ b'a' ∷ [])
      ≡ ok (replicate 32 3))
    ↔ Leads load_blob unmarshal (replicate 32 1) (split slash (slash ∷ b'a' ∷ [])) (replicate 32 3)
find_tree_directory-Leads_example =
    find_tree_directory-Leads load_blob unmarshal loads-IsSorted (λ p. p) (replicate 32 1)
      (replicate 32 3) (slash ∷ b'a' ∷ [])
