-- ===== src/Tree/Builder.antt =====
-- TreeJSONBuilder of internal/restic/tree.go. json.Marshal of a node is `marshal`.
use restic.Prelude.{
  ◌≡◌, ◌∙◌, refl, sym, ap, subst, Bool, true, false, not, List, [], ◌∷◌, ◌++◌, append_assoc,
  append-nil, arith, if◌then◌else◌, All, bytes_eq, Result, ok, err, ◌>>=◌, >>=-eq-ok,
}
use restic.Prelude.Order.{bytes_lt, bytes_lt-ne-nil}
use restic.Blob.{Bytes}
use restic.Node.{Node}
use restic.Tree.{TreeError, not_ordered, IsSorted}
use restic.Tree.Search.{All-weaken}

pub record TreeJsonBuilder : Type 0 where
  pub buf : Bytes
  pub last_name : Bytes

-- {"nodes":[
abbrev pub json_start : Bytes
json_start = b'{' ∷ b'"' ∷ b'n' ∷ b'o' ∷ b'd' ∷ b'e' ∷ b's' ∷ b'"' ∷ b':' ∷ b'[' ∷ []

-- ]} and a newline
abbrev pub json_end : Bytes
json_end = b']' ∷ b'}' ∷ 10 ∷ []

unfoldable pub new_tree_json_builder : TreeJsonBuilder
new_tree_json_builder = record { buf = json_start; last_name = [] }

write_comma : TreeJsonBuilder → TreeJsonBuilder
write_comma b = if not (bytes_eq b.last_name []) then record b { buf = b.buf ++ b',' ∷ [] } else b

module _ (marshal : Node → Result TreeError Bytes) where
  write_node :
      TreeJsonBuilder → Result TreeError Bytes → TreeJsonBuilder × Result TreeError (Unit {0})
  write_node b (err e) = (b, err e)
  write_node b (ok val) = (record b { buf = b.buf ++ val }, ok tt)

  unfoldable pub add_node : TreeJsonBuilder → Node → TreeJsonBuilder × Result TreeError (Unit {0})
  unfolding write_comma write_node
  add_node b node =
      if not (bytes_lt b.last_name node.name)
      then (b, err (not_ordered node.name))
      else write_node (record (write_comma b) { last_name = node.name }) (marshal node)

unfoldable pub finalize : TreeJsonBuilder → TreeJsonBuilder × Bytes
finalize b = (record b { buf = [] }, b.buf ++ json_end)

module _ (marshal : Node → Result TreeError Bytes) where
  -- A caller that adds the nodes and stops at the first error.
  pub add_nodes : TreeJsonBuilder → List Node → Result TreeError TreeJsonBuilder
  add_nodes b [] = ok b
  add_nodes b (node ∷ nodes) = do
    let (b', added) = add_node marshal b node
    _ ← added
    add_nodes b' nodes

  add_node-order :
      (b : TreeJsonBuilder) (node : Node)
      → (add_node marshal b node).1 ≡ ok tt
      → (bytes_lt b.last_name node.name ≡ true)
        × ((add_node marshal b node).0.last_name ≡ node.name)
  unfolding add_node write_comma write_node
  add_node-order b node h = ground arith

  add_nodes-order :
      (b end : TreeJsonBuilder) (nodes : List Node)
      → add_nodes b nodes ≡ ok end
      → All (λ (y : Node). bytes_lt b.last_name y.name ≡ true) nodes × IsSorted nodes
  unfolding add_nodes
  add_nodes-order b end [] h = (tt, tt)
  add_nodes-order b end (x ∷ xs) h =
      let (done, added, after) = >>=-eq-ok (add_node marshal b x).1 _ h in
      let (smaller, last) = add_node-order b x added in
      let (above, sorted) = add_nodes-order (add_node marshal b x).0 end xs after in
      let above' : All (λ (y : Node). bytes_lt x.name y.name ≡ true) xs =
        subst (λ n. All (λ (y : Node). bytes_lt n y.name ≡ true) xs) last above in
      ((smaller, All-weaken b.last_name x.name xs smaller above'), (above', sorted))

  module _ (text : Node → Bytes) where
    -- The nodes after the first, each with a comma before it.
    pub further : List Node → Bytes
    further [] = []
    further (x ∷ xs) = b',' ∷ (text x ++ further xs)

    -- The nodes, with commas between them.
    pub joined : List Node → Bytes
    joined [] = []
    joined (x ∷ xs) = text x ++ further xs

    add_node-json :
        (b : TreeJsonBuilder) (x : Node)
        → marshal x ≡ ok (text x)
        → bytes_lt b.last_name x.name ≡ true
        → add_node marshal b x
          ≡ (record { buf = (write_comma b).buf ++ text x; last_name = x.name }, ok tt)
    unfolding add_node write_comma write_node
    add_node-json b x made smaller = rw (smaller, made) (ground arith)

    add_nodes-json :
        (b : TreeJsonBuilder) (nodes : List Node)
        → bytes_eq b.last_name [] ≡ false
        → All (λ (n : Node). marshal n ≡ ok (text n)) nodes
        → All (λ (y : Node). bytes_lt b.last_name y.name ≡ true) nodes
        → IsSorted nodes
        → (end : TreeJsonBuilder) × (add_nodes b nodes ≡ ok end)
          × (end.buf ≡ b.buf ++ further nodes)
    unfolding add_nodes further write_comma
    add_nodes-json b [] begun made above sorted = (b, refl, sym (append-nil b.buf))
    add_nodes-json b (x ∷ xs) begun made above sorted =
        let c : TreeJsonBuilder = record {
          buf = (b.buf ++ b',' ∷ []) ++ text x;
          last_name = x.name;
        } in
        let step : add_node marshal b x ≡ (c, ok tt) =
          add_node-json b x made.0 above.0
          ∙ ap
              (λ (k : Bool). (
                record {
                  buf = (if not k then record b { buf = b.buf ++ b',' ∷ [] } else b).buf ++ text x;
                  last_name = x.name;
                },
                ok tt,
              ))
              begun in
        let (end, added, written) =
          add_nodes-json c xs (bytes_lt-ne-nil b.last_name x.name above.0) made.1 sorted.0
            sorted.1 in
        (
          end,
          rw step added,
          written
              ∙ append_assoc (b.buf ++ b',' ∷ []) (text x) (further xs)
              ∙ append_assoc b.buf (b',' ∷ []) (text x ++ further xs),
        )

    -- For nodes that json.Marshal can encode: when their names are not empty and each is smaller
    -- than the names after it, a new builder accepts all of them, and its result is the JSON of the
    -- tree, which is the encoded nodes in their order, with commas between them. If a new builder
    -- accepts all of them, then their names are such.
    pub builder-json :
        (nodes : List Node)
        → All (λ (n : Node). marshal n ≡ ok (text n)) nodes
        → (All (λ (y : Node). bytes_lt [] y.name ≡ true) nodes × IsSorted nodes
            → (end : TreeJsonBuilder) × (add_nodes new_tree_json_builder nodes ≡ ok end)
              × ((finalize end).1 ≡ json_start ++ (joined nodes ++ json_end)))
          × ((end : TreeJsonBuilder)
              → add_nodes new_tree_json_builder nodes ≡ ok end
              → All (λ (y : Node). bytes_lt [] y.name ≡ true) nodes × IsSorted nodes)
    unfolding add_nodes joined new_tree_json_builder finalize write_comma bytes_eq
    builder-json [] made = (λ _. (new_tree_json_builder, refl, refl), λ end e. (tt, tt))
    builder-json (x ∷ xs) made = (
      λ h.
          let (above, sorted) = h in
          let c : TreeJsonBuilder = record { buf = json_start ++ text x; last_name = x.name } in
          let step : add_node marshal new_tree_json_builder x ≡ (c, ok tt) =
            add_node-json new_tree_json_builder x made.0 above.0 in
          let (end, added, written) =
            add_nodes-json c xs (bytes_lt-ne-nil [] x.name above.0) made.1 sorted.0 sorted.1 in
          (
            end,
            rw step added,
            ap (λ (t : Bytes). t ++ json_end) written
                ∙ append_assoc (json_start ++ text x) (further xs) json_end
                ∙ append_assoc json_start (text x) (further xs ++ json_end)
                ∙ ap (λ (t : Bytes). json_start ++ t)
                    (sym (append_assoc (text x) (further xs) json_end)),
          ),
      λ end e. add_nodes-order new_tree_json_builder end (x ∷ xs) e,
    )
