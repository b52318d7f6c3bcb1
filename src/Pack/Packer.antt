-- ===== src/Pack/Packer.antt =====
-- Packer: blobs are written one after another, then the header.
-- The writer, the source of nonces and bytes.NewReader are parameters.
pub mod Invariant
pub mod Finalized
use restic.Prelude.{
  ℕ, zero, suc, ◌+◌, ◌*◌, ◌%◌, ◌^◌, ◌≤◌, Bool, not, ◌||◌, Option, none, some, List, [], ◌∷◌, ◌++◌,
  ◌==◌, ltb, if◌then◌else◌, length, Result, ok, err, ◌>>=◌,
}
use restic.Blob.{Bytes, Blob, BlobId, BlobType, blob_eq}
use restic.Crypto
use restic.Crypto.{Primitives, Key, seal}
use restic.Pack.{
  PackError, crypto, io_error, invalid_header, header_size_mismatch, entry_mismatch,
  wrong_bytes_written, header_size, max_header_size, entry_size, calculate_entry_size,
}
use restic.Pack.Header.{make_header, put_uint32}
use restic.Pack.Reader.{ReaderAt, lift_crypto, list}

-- io.Writer: the number of bytes written, an error, and the writer's next state.
abbrev pub Writer : Type 0 → Type 0
Writer W = Bytes → W → ℕ × Option PackError × W

pub record Packer (W : Type 0) : Type 0 where
  pub blobs : List Blob
  pub bytes : ℕ
  pub wr : W

abbrev pub new_packer : {W : Type 0} → W → Packer W
new_packer wr = record { blobs = []; bytes = 0; wr = wr }

-- Packer.Add: the number of bytes with the entry's size, the error, and the packer.
unfoldable pub add :
    {W : Type 0}
    → Writer W
    → BlobType
    → BlobId
    → Bytes
    → ℕ
    → Packer W
    → ℕ × Option PackError × Packer W
add write t id text uncompressed_length p =
    let (n, e, wr) = write text p.wr in
    let c : Blob = record {
      handle = record { id = id; type = t };
      len = n;
      offset = p.bytes;
      uncompressed = uncompressed_length;
    } in
    (
      n + calculate_entry_size c,
      e,
      record { blobs = p.blobs ++ c ∷ []; bytes = (p.bytes + n) % 2 ^ 64; wr = wr },
    )

-- Packer.HeaderFull
unfoldable pub header_full : {W : Type 0} → Packer W → Bool
header_full p = ltb max_header_size (header_size + (length p.blobs + 1) * entry_size)

same_entries : List Blob → List Blob → Result PackError (Unit {0})
same_entries [] _ = ok tt
same_entries (_ ∷ _) [] = err entry_mismatch
same_entries (d ∷ ds) (e ∷ es) =
    let rest = same_entries ds es in if not (blob_eq d e) then err entry_mismatch else rest

-- The end of Finalize, from the writer's answer.
header_written :
    {W : Type 0}
    → Bytes
    → Packer W
    → ℕ × Option PackError × W
    → Result PackError (Unit {0}) × Packer W
header_written header q (n, some e, wr) = (err e, record q { wr = wr })
header_written header q (n, none, wr) =
    if not (n == length header)
    then (err wrong_bytes_written, record q { wr = wr })
    else (ok tt, record q { bytes = (q.bytes + length header) % 2 ^ 64; wr = wr })

header_checked :
    {W : Type 0}
    → Writer W
    → Packer W
    → Result PackError Bytes
    → Result PackError (Unit {0}) × Packer W
header_checked write q (ok header) = header_written header q (write header q.wr)
header_checked write q (err e) = (err e, q)

module _ (p : Primitives) (k : Key) where
  -- The encrypted header: the nonce, the sealed header, and the length of both.
  unfoldable pub encrypted_header : Bytes → List Blob → Result PackError Bytes
  encrypted_header nonce blobs = do
    header ← make_header blobs
    sealed ← lift_crypto (seal p k nonce nonce header [])
    ok (sealed ++ put_uint32 (length sealed))

module _ (p : Primitives) (k : Key) (new_reader : Bytes → ReaderAt) where
  unfoldable pub verify_header : Bytes → List Blob → Result PackError (Unit {0})
  unfolding same_entries
  verify_header header expected = do
    (decoded, hdr_size) ← list p k (new_reader header) (length header)
    (if not (hdr_size == length header % 2 ^ 32)
        then err invalid_header
        else if not (length decoded == length expected)
        then err header_size_mismatch
        else same_entries decoded expected)

  unfoldable pub finalize :
      {W : Type 0} → Writer W → Bytes → Packer W → Result PackError (Unit {0}) × Packer W
  unfolding header_checked header_written
  finalize write nonce q =
      header_checked write q (do
        header ← encrypted_header p k nonce q.blobs
        _ ← verify_header header q.blobs
        ok header)
