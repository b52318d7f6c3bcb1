-- ===== src/Tree/Search.antt =====
-- The search for a name among the nodes of a tree, and the place where Insert puts a node.
use restic.Prelude.{
  ℕ, zero, suc, ◌+◌, ◌-◌, ◌/◌, ◌≤◌, ◌<◌, ◌≡◌, ◌∙◌, refl, ap, ap₂, inl, inr, Bool, true, false,
  Option, none, some, List, [], ◌∷◌, ◌++◌, arith, ltb, leb, if◌then◌else◌, length, get_elem?, take,
  drop, length-append, take-append_left, drop-length, append-nil, Bool-cases, bytes_eq,
  bytes_eq_iff, All,
}
use restic.Prelude.Order.{bytes_lt, bytes_lt_trans, bytes_lt-eq}
use restic.Blob.{Bytes}
use restic.Node.{Node}
use restic.Tree.{search_loop, sort_search, at_least, copy_into, found_at, insert_at, IsSorted}

-- What is smaller than a name is smaller than the names after it.
pub All-weaken :
    (a b : Bytes) (xs : List Node)
    → bytes_lt a b ≡ true
    → All (λ (y : Node). bytes_lt b y.name ≡ true) xs
    → All (λ (y : Node). bytes_lt a y.name ≡ true) xs
All-weaken a b [] h sorted = tt
All-weaken a b (x ∷ xs) h sorted =
    (bytes_lt_trans a b x.name h sorted.0, All-weaken a b xs h sorted.1)

-- How many nodes at the front have smaller names.
pub rank : Bytes → List Node → ℕ
rank name [] = 0
rank name (x ∷ xs) = if bytes_lt x.name name then suc (rank name xs) else 0

pub rank-le : (name : Bytes) (xs : List Node) → rank name xs ≤ length xs
unfolding rank
rank-le name [] = omega arith
rank-le name (x ∷ xs) = ground (arith, rank-le name xs)

-- A test that turns from false to true at r is searched for r.
pub search_loop-threshold :
    (f : ℕ → Bool) (n r : ℕ)
    → ((k : ℕ) → k < n → f k ≡ leb r k)
    → (fuel i j : ℕ) → i ≤ r
    → r ≤ j
    → j ≤ n
    → j - i ≤ fuel
    → search_loop f fuel i j ≡ r
unfolding search_loop
search_loop-threshold f n r cut zero i j lo hi le enough = omega arith
search_loop-threshold f n r cut (suc fuel) i j lo hi le enough = elim (Bool-cases (ltb i j)) [
  | inr e ↦ rw (e, search_loop) (ground arith)
  | inl e ↦
      let h : ℕ = (i + j) / 2 in
      let within : (i ≤ h) × (h < j) = ground arith in
      let value : f h ≡ leb r h = cut h (omega arith) in
      elim (Bool-cases (leb r h)) [
        | inl g ↦
            rw (e, search_loop, value, g)
              (search_loop-threshold f n r cut fuel i h lo (ground arith) (omega arith)
                (omega arith))
        | inr g ↦
            rw (e, search_loop, value, g)
              (search_loop-threshold f n r cut fuel (suc h) j (ground arith) hi le (omega arith))
      ]
]

-- After a node whose name is not smaller, none is.
at_least-all :
    (name : Bytes) (x : Node) (xs : List Node) (k : ℕ)
    → bytes_lt x.name name ≡ false
    → All (λ (y : Node). bytes_lt x.name y.name ≡ true) xs
    → k < length xs
    → at_least xs name k ≡ true
unfolding at_least
at_least-all name x [] k h sorted lt = absurd (omega arith)
at_least-all name x (y ∷ ys) zero h sorted lt = elim (Bool-cases (bytes_lt y.name name)) [
  | inr e ↦ ground arith
  | inl e ↦ let bad = bytes_lt_trans x.name y.name name sorted.0 e in absurd (ground arith)
]
at_least-all name x (y ∷ ys) (suc k) h sorted lt = at_least-all name x ys k h sorted.1 (omega arith)

at_least-rank :
    (name : Bytes) (xs : List Node) (k : ℕ)
    → IsSorted xs
    → k < length xs
    → at_least xs name k ≡ leb (rank name xs) k
unfolding at_least rank
at_least-rank name [] k sorted lt = absurd (omega arith)
at_least-rank name (x ∷ xs) zero sorted lt = ground arith
at_least-rank name (x ∷ xs) (suc k) sorted lt = elim (Bool-cases (bytes_lt x.name name)) [
  | inl e ↦ rw e (at_least-rank name xs k sorted.1 (omega arith) ∙ ground arith)
  | inr e ↦ rw e (at_least-all name x xs k e sorted.0 (omega arith) ∙ ground arith)
]

pub sort_search-rank :
    (name : Bytes) (xs : List Node)
    → IsSorted xs
    → sort_search (length xs) (at_least xs name) ≡ rank name xs
unfolding sort_search
sort_search-rank name xs sorted =
    search_loop-threshold (at_least xs name) (length xs) (rank name xs)
      (λ k lt. at_least-rank name xs k sorted lt) (length xs) 0 (length xs) (omega arith)
      (rank-le name xs) (omega arith) (omega arith)

-- The entry of a name, by going through all nodes.
unfoldable pub entry : Bytes → List Node → Option Node
entry name [] = none
entry name (x ∷ xs) = if bytes_eq x.name name then some x else entry name xs

entry-none :
    (name : Bytes) (x : Node) (xs : List Node)
    → bytes_lt x.name name ≡ false
    → All (λ (y : Node). bytes_lt x.name y.name ≡ true) xs
    → entry name xs ≡ none
unfolding entry
entry-none name x [] h sorted = refl
entry-none name x (y ∷ ys) h sorted = ground (
  arith,
  bytes_eq_iff y.name name,
  bytes_lt_trans x.name y.name name,
  entry-none name x ys h sorted.1,
)

found_at_entry :
    (xs ys : List Node) (name : Bytes) (i j : ℕ)
    → get_elem? xs i ≡ get_elem? ys j
    → (found_at xs name i).1 ≡ (found_at ys name j).1
unfolding found_at
found_at_entry xs ys name i j h = rw (h, found_at) (ground arith)

-- The node at the rank has the name, or no node has it.
entry-rank :
    (name : Bytes) (xs : List Node)
    → IsSorted xs
    → entry name xs ≡ (found_at xs name (rank name xs)).1
unfolding entry rank found_at
entry-rank name [] sorted = refl
entry-rank name (x ∷ xs) sorted = elim (Bool-cases (bytes_lt x.name name)) [
  | inl e ↦
      rw (e, bytes_lt-eq x.name name e)
        (entry-rank name xs sorted.1
          ∙ found_at_entry xs (x ∷ xs) name (rank name xs) (suc (rank name xs)) refl)
  | inr e ↦ rw (e, entry-none name x xs e sorted.0) (ground arith)
]

pub found_at-rank :
    (name : Bytes) (xs : List Node)
    → IsSorted xs
    → found_at xs name (rank name xs) ≡ (rank name xs, entry name xs)
unfolding found_at
found_at-rank name xs sorted = rw (entry-rank name xs sorted) (ground arith)

-- Insertion by going through all nodes.
unfoldable pub insert_sorted : Node → List Node → List Node
insert_sorted node [] = node ∷ []
insert_sorted node (x ∷ xs) =
    if bytes_lt x.name node.name then x ∷ insert_sorted node xs else node ∷ x ∷ xs

insert_at-cons {ℓ} :
    {A : Type ℓ} (pos : ℕ) (a x : A) (xs : List A)
    → insert_at (suc pos) a (x ∷ xs) ≡ x ∷ insert_at pos a xs
unfolding insert_at copy_into
insert_at-cons pos a x xs =
    let ys = xs ++ a ∷ [] in
    let d : suc (length ys) - suc (suc pos) ≡ length ys - suc pos = omega arith in
    let e : suc (suc pos) + length (drop pos ys) ≡ suc (suc pos + length (drop pos ys)) =
      omega arith in
    rw (d, e) refl

insert_at-zero {ℓ} : {A : Type ℓ} (a : A) (xs : List A) → insert_at 0 a xs ≡ a ∷ xs
unfolding insert_at copy_into
insert_at-zero a [] = refl
insert_at-zero a (x ∷ xs) =
    let ys = xs ++ a ∷ [] in
    let d : suc (length ys) - 1 ≡ length (x ∷ xs) = omega (arith, length-append xs (a ∷ [])) in
    let front : take (length (x ∷ xs)) ((x ∷ xs) ++ a ∷ []) ≡ x ∷ xs =
      take-append_left (x ∷ xs) (a ∷ []) (length (x ∷ xs)) refl in
    let back : drop (1 + length (x ∷ ys)) (x ∷ ys) ≡ [] =
      drop-length (1 + length (x ∷ ys)) (x ∷ ys) (omega arith) in
    rw d (ap₂ (λ p q. a ∷ (p ++ q)) front back ∙ ap (λ t. a ∷ t) (append-nil (x ∷ xs)))

pub insert_at-rank :
    (node : Node) (xs : List Node) → insert_at (rank node.name xs) node xs ≡ insert_sorted node xs
unfolding rank insert_sorted
insert_at-rank node [] = insert_at-zero node []
insert_at-rank node (x ∷ xs) = elim (Bool-cases (bytes_lt x.name node.name)) [
  | inl e ↦
      rw e (insert_at-cons (rank node.name xs) node x xs ∙ ap (λ t. x ∷ t) (insert_at-rank node xs))
  | inr e ↦ rw e (insert_at-zero node (x ∷ xs))
]
