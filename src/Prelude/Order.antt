-- ===== src/Prelude/Order.antt =====
-- Go's order on strings: byte by byte, a prefix first.
use restic.Prelude.{
  ℕ, ◌≡◌, refl, Bool, true, false, List, [], ◌∷◌, arith, ltb, ◌==◌, if◌then◌else◌, bytes_eq,
  bytes_eq_iff,
}

unfoldable pub bytes_lt : List ℕ → List ℕ → Bool
bytes_lt [] [] = false
bytes_lt [] (y ∷ ys) = true
bytes_lt (x ∷ xs) [] = false
bytes_lt (x ∷ xs) (y ∷ ys) = if ltb x y then true else (if x == y then bytes_lt xs ys else false)

pub bytes_lt_irrefl : (xs : List ℕ) → bytes_lt xs xs ≡ false
unfolding bytes_lt
bytes_lt_irrefl [] = ground arith
bytes_lt_irrefl (x ∷ xs) = ground (arith, bytes_lt_irrefl xs)

pub bytes_lt_trans :
    (xs ys zs : List ℕ) → bytes_lt xs ys ≡ true → bytes_lt ys zs ≡ true → bytes_lt xs zs ≡ true
unfolding bytes_lt
bytes_lt_trans [] [] zs h k = ground arith
bytes_lt_trans [] (y ∷ ys) [] h k = ground arith
bytes_lt_trans [] (y ∷ ys) (z ∷ zs) h k = ground arith
bytes_lt_trans (x ∷ xs) [] zs h k = ground arith
bytes_lt_trans (x ∷ xs) (y ∷ ys) [] h k = ground arith
bytes_lt_trans (x ∷ xs) (y ∷ ys) (z ∷ zs) h k = ground (arith, bytes_lt_trans xs ys zs)

pub bytes_lt_asym : (xs ys : List ℕ) → bytes_lt xs ys ≡ true → bytes_lt ys xs ≡ false
unfolding bytes_lt
bytes_lt_asym [] [] h = ground arith
bytes_lt_asym [] (y ∷ ys) h = ground arith
bytes_lt_asym (x ∷ xs) [] h = ground arith
bytes_lt_asym (x ∷ xs) (y ∷ ys) h = ground (arith, bytes_lt_asym xs ys)

-- Of two texts neither of which is smaller, each is the other.
pub bytes_lt_antisym : (xs ys : List ℕ) → bytes_lt xs ys ≡ false → bytes_lt ys xs ≡ false → xs ≡ ys
unfolding bytes_lt
bytes_lt_antisym [] [] h k = ground arith
bytes_lt_antisym [] (y ∷ ys) h k = ground arith
bytes_lt_antisym (x ∷ xs) [] h k = ground arith
bytes_lt_antisym (x ∷ xs) (y ∷ ys) h k = ground (arith, bytes_lt_antisym xs ys)

pub bytes_lt-eq : (xs ys : List ℕ) → bytes_lt xs ys ≡ true → bytes_eq xs ys ≡ false
bytes_lt-eq xs ys h = ground (arith, bytes_eq_iff xs ys, bytes_lt_irrefl xs)

pub bytes_lt-ne-nil : (xs ys : List ℕ) → bytes_lt xs ys ≡ true → bytes_eq ys [] ≡ false
unfolding bytes_lt bytes_eq
bytes_lt-ne-nil [] [] h = ground arith
bytes_lt-ne-nil (x ∷ xs) [] h = ground arith
bytes_lt-ne-nil xs (y ∷ ys) h = refl
