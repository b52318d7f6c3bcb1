-- ===== src/Tree.antt =====
-- internal/restic/tree.go: Tree, its sorted nodes, and the builder of a tree's JSON.
pub mod Search
pub mod Insert
pub mod Builder
pub mod Directory
use restic.Prelude.{
  ℕ, zero, suc, ◌+◌, ◌-◌, ◌/◌, ◌≡◌, Bool, true, false, ◌&&◌, not, Option, none, some, List, [], ◌∷◌,
  ◌++◌, ◌==◌, ltb, if◌then◌else◌, length, get_elem?, take, drop, set, All, bytes_eq, Result, ok,
  err, ◌>>=◌,
}
use restic.Prelude.Order.{bytes_lt}
use restic.Blob.{Bytes, BlobId}
use restic.Node.{Node, node_equals, dir_type}

pub data TreeError : Type 0 where
  already_present not_ordered : Bytes → TreeError
  tree_id_null not_found not_a_directory : TreeError
  marshal_failed load_failed : TreeError

pub record Tree : Type 0 where
  pub nodes : List Node

same_nodes : List Node → List Node → Bool
same_nodes [] [] = true
same_nodes (x ∷ xs) (y ∷ ys) = if not (node_equals x y) then false else same_nodes xs ys
same_nodes _ _ = false

unfoldable pub equals : Tree → Tree → Bool
unfolding same_nodes
equals t other =
    if not (length t.nodes == length other.nodes) then false else same_nodes t.nodes other.nodes

-- sort.Search: the loop `for i < j` with the middle h, on fuel.
pub search_loop : (ℕ → Bool) → ℕ → ℕ → ℕ → ℕ
search_loop f zero i j = i
search_loop f (suc fuel) i j = elim (ltb i j) [
  | false ↦ i
  | true ↦
      (let h = (i + j) / 2 in
        elim (f h) [ false ↦ search_loop f fuel (suc h) j | true ↦ search_loop f fuel i h ])
]

pub sort_search : ℕ → (ℕ → Bool) → ℕ
unfolding search_loop
sort_search n f = search_loop f n 0 n

-- t.Nodes[i].Name >= name; the search asks for no i out of range.
pub at_least : List Node → Bytes → ℕ → Bool
at_least nodes name i = elim (get_elem? nodes i) [
  | none ↦ false
  | some node ↦ not (bytes_lt node.name name)
]

-- The test of find at the position that the search returned.
pub found_at : List Node → Bytes → ℕ → ℕ × Option Node
found_at nodes name pos = elim (get_elem? nodes pos) [
  | none ↦ (pos, none)
  | some node ↦ if bytes_eq node.name name then (pos, some node) else (pos, none)
]

unfoldable pub find_at : Tree → Bytes → ℕ × Option Node
unfolding at_least sort_search found_at
find_at t name = found_at t.nodes name (sort_search (length t.nodes) (at_least t.nodes name))

-- Find; the receiver may be nil.
unfoldable pub find : Option Tree → Bytes → Option Node
find none name = none
find (some t) name = (find_at t name).1

-- copy(dst[at:], src)
pub copy_into {ℓ} : {A : Type ℓ} → List A → ℕ → List A → List A
copy_into dst at src = take at dst ++ (take (length dst - at) src ++ drop (at + length src) dst)

-- The three statements that insert at a position. Their nil is overwritten before it is read;
-- `node` stands for it.
pub insert_at {ℓ} : {A : Type ℓ} → ℕ → A → List A → List A
unfolding copy_into
insert_at pos node nodes =
    let grown = nodes ++ node ∷ [] in set (copy_into grown (suc pos) (drop pos grown)) pos node

-- Insert after the call of find.
pub insert_found : Tree → Node → ℕ × Option Node → Result TreeError Tree
unfolding insert_at
insert_found t node (pos, some other) = err (already_present node.name)
insert_found t node (pos, none) = ok (record { nodes = insert_at pos node t.nodes })

unfoldable pub insert : Tree → Node → Result TreeError Tree
unfolding insert_found
insert t node = insert_found t node (find_at t node.name)

subtrees_of : List Node → List BlobId
subtrees_of [] = []
subtrees_of (node ∷ nodes) = elim node.subtree [
  | none ↦ subtrees_of nodes
  | some id ↦ if bytes_eq node.type dir_type then id ∷ subtrees_of nodes else subtrees_of nodes
]

unfoldable pub subtrees : Tree → List BlobId
unfolding subtrees_of
subtrees t = subtrees_of t.nodes

-- Each name is smaller than the names after it.
abbrev pub IsSorted : List Node → Type 0
IsSorted [] = Unit
IsSorted (x ∷ xs) = All (λ (y : Node). bytes_lt x.name y.name ≡ true) xs × IsSorted xs
