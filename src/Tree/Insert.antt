-- ===== src/Tree/Insert.antt =====
-- What Find and Insert do on a tree with sorted names.
use restic.Prelude.{
  ℕ, ◌≡◌, ◌≢◌, ◌∙◌, ◌↔◌, refl, sym, ap, inl, inr, true, Option, none, some, List, [], ◌∷◌, arith,
  if◌then◌else◌, All, Bool-cases, Option-cases, bytes_eq, bytes_eq_iff, ok, err,
}
use restic.Prelude.Order.{bytes_lt, bytes_lt_irrefl, bytes_lt_antisym}
use restic.Blob.{Bytes}
use restic.Node.{Node}
use restic.Tree.{Tree, already_present, insert_found, find_at, find, insert, found_at, IsSorted}
use restic.Tree.Search.{
  All-weaken, rank, sort_search-rank, entry, found_at-rank, insert_sorted, insert_at-rank,
}

find_at-rank :
    (t : Tree) (name : Bytes)
    → IsSorted t.nodes
    → find_at t name ≡ (rank name t.nodes, entry name t.nodes)
unfolding find_at
find_at-rank t name sorted =
    ap (found_at t.nodes name) (sort_search-rank name t.nodes sorted)
    ∙ found_at-rank name t.nodes sorted

-- On a tree whose names are sorted, the binary search of Find returns the node that has the name,
-- the same as going through all nodes does, and none when no node has it.
pub find-entry :
    (t : Tree) (name : Bytes) → IsSorted t.nodes → find (some t) name ≡ entry name t.nodes
unfolding find
find-entry t name sorted = ap (λ (r : ℕ × Option Node). r.1) (find_at-rank t name sorted)

All-insert_sorted :
    (x node : Node) (xs : List Node)
    → bytes_lt x.name node.name ≡ true
    → All (λ (y : Node). bytes_lt x.name y.name ≡ true) xs
    → All (λ (y : Node). bytes_lt x.name y.name ≡ true) (insert_sorted node xs)
unfolding insert_sorted
All-insert_sorted x node [] h sorted = (h, tt)
All-insert_sorted x node (y ∷ ys) h sorted = elim (Bool-cases (bytes_lt y.name node.name)) [
  | inl e ↦ rw e (sorted.0, All-insert_sorted x node ys h sorted.1)
  | inr e ↦ rw e (h, sorted)
]

insert_sorted-IsSorted :
    (node : Node) (xs : List Node)
    → IsSorted xs
    → entry node.name xs ≡ none
    → IsSorted (insert_sorted node xs)
unfolding insert_sorted entry
insert_sorted-IsSorted node [] sorted new = (tt, tt)
insert_sorted-IsSorted node (x ∷ xs) sorted new = elim (Bool-cases (bytes_lt x.name node.name)) [
  | inl e ↦ rw e (
    All-insert_sorted x node xs e sorted.0,
    insert_sorted-IsSorted node xs sorted.1
        (ground (arith, bytes_eq_iff x.name node.name, bytes_lt_irrefl x.name)),
  )
  | inr e ↦
      let smaller : bytes_lt node.name x.name ≡ true =
        ground (arith, bytes_eq_iff x.name node.name, bytes_lt_antisym x.name node.name) in
      rw e ((smaller, All-weaken node.name x.name xs smaller sorted.0), sorted)
]

entry-insert_sorted :
    (node : Node) (name : Bytes) (xs : List Node)
    → entry node.name xs ≡ none
    → entry name (insert_sorted node xs)
      ≡ (if bytes_eq node.name name then some node else entry name xs)
unfolding insert_sorted entry
entry-insert_sorted node name [] new = refl
entry-insert_sorted node name (x ∷ xs) new = ground (
  arith,
  bytes_eq_iff x.name name,
  bytes_eq_iff node.name name,
  bytes_eq_iff x.name node.name,
  entry-insert_sorted node name xs,
)

insert-entry :
    (t : Tree) (node : Node)
    → IsSorted t.nodes
    → insert t node ≡ insert_found t node (rank node.name t.nodes, entry node.name t.nodes)
unfolding insert
insert-entry t node sorted = ap (insert_found t node) (find_at-rank t node.name sorted)

insert_new :
    (t : Tree) (node : Node)
    → IsSorted t.nodes
    → entry node.name t.nodes ≡ none
    → insert t node ≡ ok (record { nodes = insert_sorted node t.nodes })
unfolding insert_found
insert_new t node sorted new =
    insert-entry t node sorted
    ∙ rw (new, insert_found)
        (ap (λ (xs : List Node). ok (record { nodes = xs })) (insert_at-rank node t.nodes))

insert_known :
    (t : Tree) (node : Node)
    → IsSorted t.nodes
    → entry node.name t.nodes ≢ none
    → insert t node ≡ err (already_present node.name)
unfolding insert_found
insert_known t node sorted known = elim (Option-cases (entry node.name t.nodes)) [
  | inl new ↦ absurd (known new)
  | inr (other, e) ↦ insert-entry t node sorted ∙ rw (e, insert_found) refl
]

-- On a tree whose names are sorted, Insert of a node with a name that Find does not know returns a
-- tree whose names are sorted again, in which Find returns the node under its name and, under
-- every other name, what it returned before.
pub insert-find :
    (t : Tree) (node : Node)
    → IsSorted t.nodes
    → find (some t) node.name ≡ none
    → (t' : Tree) × (insert t node ≡ ok t')
      × IsSorted t'.nodes
      × ((name : Bytes)
          → find (some t') name
            ≡ (if bytes_eq node.name name then some node else find (some t) name))
insert-find t node sorted new =
    let new' : entry node.name t.nodes ≡ none = sym (find-entry t node.name sorted) ∙ new in
    let t' : Tree = record { nodes = insert_sorted node t.nodes } in
    let sorted' = insert_sorted-IsSorted node t.nodes sorted new' in
    (
      t',
      insert_new t node sorted new',
      sorted',
      λ name.
          find-entry t' name sorted'
          ∙ entry-insert_sorted node name t.nodes new'
          ∙ ap (λ (o : Option Node). if bytes_eq node.name name then some node else o)
              (sym (find-entry t name sorted)),
    )

-- On a tree whose names are sorted, Insert fails exactly when Find knows the name, and it says
-- which name is present already.
pub insert-present :
    (t : Tree) (node : Node)
    → IsSorted t.nodes
    → (insert t node ≡ err (already_present node.name)) ↔ (find (some t) node.name ≢ none)
insert-present t node sorted = rw (find-entry t node.name sorted) (
  λ failed new. cc (failed, insert_new t node sorted new),
  λ known. insert_known t node sorted known,
)
