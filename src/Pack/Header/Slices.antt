-- ===== src/Pack/Header/Slices.antt =====
-- Slices within their bounds.
use restic.Prelude.{ℕ, ◌≤◌, ◌≡◌, arith, length, take, drop, ok}
use restic.Blob.{Bytes}
use restic.Pack.Header.{slice_from, slice_to}

pub slice_from_ok : (b : Bytes) (i : ℕ) → i ≤ length b → slice_from b i ≡ ok (drop i b)
unfolding slice_from
slice_from_ok b i h = ground arith

pub slice_to_ok : (b : Bytes) (i : ℕ) → i ≤ length b → slice_to b i ≡ ok (take i b)
unfolding slice_to
slice_to_ok b i h = ground arith
