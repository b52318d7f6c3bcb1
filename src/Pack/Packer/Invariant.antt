-- ===== src/Pack/Packer/Invariant.antt =====
-- What holds of a packer after any blobs were added, whatever the writer answered.
use restic.Prelude.{
  ℕ, ◌+◌, ◌*◌, ◌%◌, ◌^◌, ◌≤◌, ◌<◌, ◌≡◌, ◌⊎◌, ◌∙◌, refl, sym, ap, false, List, [], ◌∷◌, ◌++◌, length,
  arith, All, All-snoc, length-append,
}
use restic.Blob.{Bytes, Blob, BlobId, BlobType, data_blob, tree_blob}
use restic.Pack.{calculate_entry_size, calculate_header_size, add_entry_sizes, max_header_size}
use restic.Pack.Header.Entry.{IsEncodable}
use restic.Pack.Header.RoundTrip.{Contiguous}
use restic.Pack.Packer.{Packer, Writer, new_packer, add, header_full}

-- Where the blob after the last one begins.
abbrev pub end_of : ℕ → List Blob → ℕ
end_of pos [] = pos
end_of pos (b ∷ bs) = end_of ((pos + b.len) % 2 ^ 64) bs

pub record IsConsistent {W : Type 0} (q : Packer W) : Type 0 where
  pub contiguous : Contiguous 0 q.blobs
  pub ends : end_of 0 q.blobs ≡ q.bytes
  pub encodable : All IsEncodable q.blobs

Contiguous-snoc :
    (pos : ℕ) (bs : List Blob) (b : Blob)
    → Contiguous pos bs
    → b.offset ≡ end_of pos bs
    → Contiguous pos (bs ++ b ∷ [])
Contiguous-snoc pos [] b c e = (e, tt)
Contiguous-snoc pos (x ∷ bs) b c e = (c.0, Contiguous-snoc ((pos + x.len) % 2 ^ 64) bs b c.1 e)

end_of-snoc :
    (pos : ℕ) (bs : List Blob) (b : Blob)
    → end_of pos (bs ++ b ∷ []) ≡ (end_of pos bs + b.len) % 2 ^ 64
end_of-snoc pos [] b = refl
end_of-snoc pos (x ∷ bs) b = end_of-snoc ((pos + x.len) % 2 ^ 64) bs b

-- The packers that are reached from a new one by Add, with arguments that callers may give. The
-- writer may write less than it was given, and may fail.
pub data Built {W : Type 0} (write : Writer W) (wr : W) : Packer W → Type 0 where
  start : Built write wr (new_packer wr)
  step :
      {q : Packer W} (t : BlobType) (id : BlobId) (text : Bytes) (uncompressed : ℕ)
      → Built write wr q
      → (t ≡ data_blob) ⊎ (t ≡ tree_blob)
      → length id ≡ 32
      → uncompressed < 2 ^ 32
      → (write text q.wr).0 < 2 ^ 32
      → Built write wr (add write t id text uncompressed q).2

add-IsConsistent :
    {W : Type 0} (write : Writer W) (t : BlobType) (id : BlobId) (text : Bytes) (u : ℕ)
    (q : Packer W)
    → IsConsistent q
    → (t ≡ data_blob) ⊎ (t ≡ tree_blob)
    → length id ≡ 32
    → u < 2 ^ 32
    → (write text q.wr).0 < 2 ^ 32
    → IsConsistent (add write t id text u q).2
unfolding add
add-IsConsistent write t id text u q c ht hid hu hn = record {
  contiguous = Contiguous-snoc 0 q.blobs _ c.contiguous (sym c.ends);
  ends = end_of-snoc 0 q.blobs _ ∙ ap (λ (n : ℕ). (n + (write text q.wr).0) % 2 ^ 64) c.ends;
  encodable =
      All-snoc IsEncodable q.blobs _ c.encodable
        (record { type = ht; id = hid; len = hn; uncompressed = hu });
}

-- In every packer that Adds build, the blobs are encodable, each begins where the one before ends,
-- and the packer's byte count is the end of the last one; a failing writer changes nothing in this.
pub Built-IsConsistent :
    {W : Type 0} (write : Writer W) (wr : W) {q : Packer W} → Built write wr q → IsConsistent q
Built-IsConsistent write wr start = record { contiguous = tt; ends = refl; encodable = tt }
Built-IsConsistent write wr (step {q} t id text u b ht hid hu hn) =
    add-IsConsistent write t id text u q (Built-IsConsistent write wr b) ht hid hu hn

add_entry_sizes-le : (n : ℕ) (bs : List Blob) → add_entry_sizes n bs ≤ n + length bs * 41
unfolding add_entry_sizes
add_entry_sizes-le n [] = omega arith
add_entry_sizes-le n (b ∷ bs) =
    let most : calculate_entry_size b ≤ 41 = unfold calculate_entry_size in ground arith in
    omega (arith, add_entry_sizes-le (n + calculate_entry_size b) bs)

-- While HeaderFull says no, one more blob leaves a header within MaxHeaderSize, the bound that
-- readRecords checks.
pub header_full-add :
    {W : Type 0} (write : Writer W) (t : BlobType) (id : BlobId) (text : Bytes) (u : ℕ)
    (q : Packer W)
    → header_full q ≡ false
    → calculate_header_size (add write t id text u q).2.blobs ≤ max_header_size
unfolding header_full add calculate_header_size
header_full-add write t id text u q h =
    let c = (add write t id text u q).2.blobs in
    ground (
      arith,
      add_entry_sizes-le 36 c,
      length-append q.blobs (
          record {
            handle = record { id = id; type = t };
            len = (write text q.wr).0;
            offset = q.bytes;
            uncompressed = u;
          }
          ∷ []),
    )
