-- ===== src/Pack.antt =====
-- internal/repository/pack/pack.go: the sizes and the errors of pack files.
-- The children encode and parse the header, read it from a file, and write a pack.
pub mod Header
pub mod Reader
pub mod Packer
use restic.Prelude.{ℕ, ◌+◌, ◌*◌, Bool, List, [], ◌∷◌, not, ◌==◌, if◌then◌else◌, bytes_eq}
use restic.Blob.{BlobId, Blob, PackedBlob}
use restic.Crypto

abbrev pub header_length_size : ℕ
header_length_size = 4

-- A type byte, two lengths and the ID; a plain entry has one length.
abbrev pub entry_size : ℕ
entry_size = 1 + 2 * header_length_size + 32

abbrev pub plain_entry_size : ℕ
plain_entry_size = 1 + header_length_size + 32

abbrev pub header_size : ℕ
header_size = header_length_size + Crypto.extension

abbrev pub max_header_size : ℕ
max_header_size = 16 * 1024 * 1024 + header_length_size

abbrev pub min_file_size : ℕ
min_file_size = plain_entry_size + Crypto.extension + header_length_size

abbrev pub eager_entries : ℕ
eager_entries = 15

-- The errors that pack.go returns, those of the crypto layer and of the reader or writer, and a
-- slice out of range.
pub data PackError : Type 0 where
  invalid_blob_type invalid_type entry_too_short : PackError
  length_zero length_too_short larger_than_file larger_than_max : PackError
  file_too_short invalid_header header_size_mismatch entry_mismatch : PackError
  wrong_bytes_written io_error out_of_range : PackError
  crypto : Crypto.Failure → PackError

-- CalculateEntrySize
unfoldable pub calculate_entry_size : Blob → ℕ
calculate_entry_size b = if not (b.uncompressed == 0) then entry_size else plain_entry_size

add_entry_sizes : ℕ → List Blob → ℕ
add_entry_sizes size [] = size
add_entry_sizes size (b ∷ bs) = add_entry_sizes (size + calculate_entry_size b) bs

-- CalculateHeaderSize
unfoldable pub calculate_header_size : List Blob → ℕ
unfolding add_entry_sizes
calculate_header_size blobs = add_entry_sizes header_size blobs

-- Size: the map from packs to sizes after the blobs of a list, in the order of first use.
unfoldable pub add_size : Bool → PackedBlob → List (BlobId × ℕ) → List (BlobId × ℕ)
add_size only_hdr b [] =
    (
      b.pack_id,
      (if not only_hdr then header_size + b.len else header_size) + calculate_entry_size b.blob,
    )
    ∷ []
add_size only_hdr b ((id, size) ∷ rest) =
    if bytes_eq id b.pack_id
    then (id, (if not only_hdr then size + b.len else size) + calculate_entry_size b.blob) ∷ rest
    else (id, size) ∷ add_size only_hdr b rest

unfoldable pub sizes_of : Bool → List PackedBlob → List (BlobId × ℕ) → List (BlobId × ℕ)
sizes_of only_hdr [] sizes = sizes
sizes_of only_hdr (b ∷ bs) sizes = sizes_of only_hdr bs (add_size only_hdr b sizes)
