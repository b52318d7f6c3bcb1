-- ===== src/Tree/Directory.antt =====
-- LoadTree and FindTreeDirectory of internal/restic/tree.go. The repository's LoadBlob, and
-- json.Unmarshal with path.Clean, are parameters.
use restic.Prelude.{
  ◌≡◌, ◌∙◌, inl, inr, refl, sym, subst, ok-injective, Bool, true, false, not, ◌||◌, Option, none,
  some, List, [], ◌∷◌, ◌↔◌, arith, if◌then◌else◌, bytes_eq, bytes_eq_iff, Bool-cases, Result, ok,
  err, ◌>>=◌, >>=-eq-ok,
}
use restic.Prelude.Strings.{slash, split}
use restic.Blob.{Bytes, BlobId, BlobType, tree_blob}
use restic.Node.{Node, dir_type}
use restic.Tree.{Tree, TreeError, tree_id_null, not_found, not_a_directory, find, IsSorted}
use restic.Tree.Search.{entry}
use restic.Tree.Insert.{find-entry}

-- A part of the path that names no entry: "" or ".".
unfoldable pub is_skipped : Bytes → Bool
is_skipped name = bytes_eq name [] || bytes_eq name (b'.' ∷ [])

-- The subtree of the node that Find returned.
subtree_id : Option Node → Result TreeError BlobId
subtree_id none = err not_found
subtree_id (some node) = elim node.subtree [
  | none ↦ err not_a_directory
  | some id ↦ if not (bytes_eq node.type dir_type) then err not_a_directory else ok id
]

module _ (load_blob : BlobType → BlobId → Result TreeError Bytes)
    (unmarshal : Bytes → Result TreeError Tree) where
  unfoldable pub load_tree : BlobId → Result TreeError Tree
  load_tree id = do buf ← load_blob tree_blob id; unmarshal buf

  -- The loop over the parts of the path.
  find_directory : BlobId → List Bytes → Result TreeError BlobId
  unfolding subtree_id is_skipped
  find_directory id [] = ok id
  find_directory id (name ∷ names) = elim (is_skipped name) [
    | true ↦ find_directory id names
    | false ↦ (do
      tree ← load_tree id
      sub ← subtree_id (find (some tree) name)
      find_directory sub names)
  ]

  unfoldable pub find_tree_directory :
      (Bytes → Bytes) → Option BlobId → Bytes → Result TreeError BlobId
  unfolding find_directory
  find_tree_directory clean none dir = err tree_id_null
  find_tree_directory clean (some id) dir = find_directory id (split slash (clean dir))

  -- How a path leads from one tree to another: each part but the skipped ones is the name of a
  -- directory in the tree before it.
  pub data Leads : BlobId → List Bytes → BlobId → Type 0 where
    arrived : (id : BlobId) → Leads id [] id
    skip :
        (id end : BlobId) (name : Bytes) (names : List Bytes)
        → is_skipped name ≡ true
        → Leads id names end
        → Leads id (name ∷ names) end
    enter :
        (id sub end : BlobId) (name : Bytes) (names : List Bytes) (t : Tree) (node : Node)
        → is_skipped name ≡ false
        → load_tree id ≡ ok t
        → entry name t.nodes ≡ some node
        → node.type ≡ dir_type
        → node.subtree ≡ some sub
        → Leads sub names end
        → Leads id (name ∷ names) end

  subtree_id-ok :
      (node : Node) (sub : BlobId)
      → subtree_id (some node) ≡ ok sub
      → (node.type ≡ dir_type) × (node.subtree ≡ some sub)
  unfolding subtree_id
  subtree_id-ok node sub h = ground (arith, bytes_eq_iff node.type dir_type)

  ok-subtree_id :
      (node : Node) (sub : BlobId)
      → node.type ≡ dir_type
      → node.subtree ≡ some sub
      → subtree_id (some node) ≡ ok sub
  unfolding subtree_id
  ok-subtree_id node sub typed known = ground (arith, bytes_eq_iff node.type dir_type)

  find_directory_skip :
      (id : BlobId) (name : Bytes) (names : List Bytes)
      → is_skipped name ≡ true
      → find_directory id (name ∷ names) ≡ find_directory id names
  unfolding find_directory
  find_directory_skip id name names e = rw (e, find_directory) refl

  find_directory_enter :
      (id : BlobId) (name : Bytes) (names : List Bytes)
      → is_skipped name ≡ false
      → find_directory id (name ∷ names) ≡ (
          load_tree id >>= λ tree.
          subtree_id (find (some tree) name) >>= λ sub. find_directory sub names)
  unfolding find_directory
  find_directory_enter id name names e = rw (e, find_directory) refl

  found_node :
      (o : Option Node) (sub : BlobId)
      → subtree_id o ≡ ok sub
      → (node : Node) × (o ≡ some node) × (node.type ≡ dir_type) × (node.subtree ≡ some sub)
  unfolding subtree_id
  found_node none sub h = cc
  found_node (some node) sub h =
      let (typed, known) = subtree_id-ok node sub h in (node, refl, typed, known)

  module _ (sorted : (id : BlobId) (t : Tree) → load_tree id ≡ ok t → IsSorted t.nodes) where
    find_directory-Leads :
        (id end : BlobId) (names : List Bytes)
        → find_directory id names ≡ ok end
        → Leads id names end
    unfolding find_directory
    find_directory-Leads id end [] h =
        subst (λ e. Leads id [] e) (ok-injective id end h) (arrived id)
    find_directory-Leads id end (name ∷ names) h = elim (Bool-cases (is_skipped name)) [
      | inl e ↦
          skip id end name names e
            (find_directory-Leads id end names (sym (find_directory_skip id name names e) ∙ h))
      | inr e ↦
          let (t, loaded, after) =
            >>=-eq-ok (load_tree id) _ (sym (find_directory_enter id name names e) ∙ h) in
          let (sub, entered, rest) = >>=-eq-ok (subtree_id (find (some t) name)) _ after in
          let (node, found, typed, known) = found_node (find (some t) name) sub entered in
          enter id sub end name names t node e loaded
            (sym (find-entry t name (sorted id t loaded)) ∙ found) typed known
            (find_directory-Leads sub end names rest)
    ]

    Leads-find_directory :
        {id end : BlobId} {names : List Bytes}
        → Leads id names end
        → find_directory id names ≡ ok end
    unfolding find_directory
    Leads-find_directory (arrived id) = refl
    Leads-find_directory (skip id end name names e l) =
        find_directory_skip id name names e ∙ Leads-find_directory l
    Leads-find_directory (enter id sub end name names t node e loaded found typed known l) =
        let found' = find-entry t name (sorted id t loaded) ∙ found in
        find_directory_enter id name names e
        ∙ rw (loaded, found', ok-subtree_id node sub typed known) (Leads-find_directory l)

    -- Where every tree that loads has sorted names, FindTreeDirectory returns a tree exactly when
    -- the parts of the cleaned path, without those that are "" or ".", name directories that lead
    -- to that tree from the given one.
    pub find_tree_directory-Leads :
        (clean : Bytes → Bytes) (id end : BlobId) (dir : Bytes)
        → (find_tree_directory clean (some id) dir ≡ ok end)
          ↔ Leads id (split slash (clean dir)) end
    unfolding find_tree_directory
    find_tree_directory-Leads clean id end dir =
        (λ h. find_directory-Leads id end (split slash (clean dir)) h, λ l. Leads-find_directory l)
