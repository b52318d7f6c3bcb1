-- ===== src/Samples/Packs.antt =====
-- A key, a writer and a reader over lists, and what sealing and packing do on them.
use restic.Prelude.{
  ℕ, ◌+◌, ◌%◌, ◌^◌, ◌≤◌, ◌≡◌, refl, false, inl, inr, none, List, [], ◌∷◌, ◌++◌, arith, length, take,
  drop, replicate, All, ok, bytes_eq, bytes_eq_iff,
}
use restic.Blob.{Bytes, Blob, data_blob, tree_blob}
use restic.Crypto.{Primitives, IsStandard, Key, key_valid, valid_nonce, seal, open_sealed}
use restic.Crypto.Laws.{open_sealed-seal, seal-open_sealed}
use restic.Pack.{calculate_entry_size, calculate_header_size, max_header_size}
use restic.Pack.Header.{put_uint32, make_header, parse_header}
use restic.Pack.Header.Entry.{IsEncodable}
use restic.Pack.Header.RoundTrip.{parse_header-make_header}
use restic.Pack.Header.Safe.{Ends}
use restic.Pack.Reader.{ReaderAt, Reads, list, read_header}
use restic.Pack.Reader.Found.{read_header-found}
use restic.Pack.Reader.Safe.{list-Ends}
use restic.Pack.Packer.{Writer, Packer, new_packer, add, finalize, header_full}
use restic.Pack.Packer.Finalized.{IsWritable, finalize-list}
use restic.Pack.Packer.Invariant.{
  IsConsistent, Built, start, step, Built-IsConsistent, header_full-add,
}

abbrev toy : Primitives
toy = record {
  aes_encrypt = λ k b. b;
  ctr_xor = λ k iv s. s;
  poly1305_sum = λ m k. replicate 16 7;
  poly1305_verify = λ tag m k. bytes_eq tag (replicate 16 7);
}

abbrev toy-IsStandard : IsStandard toy
toy-IsStandard = record {
  ctr_length = λ k iv s. refl;
  ctr_twice = λ k iv s. refl;
  sum_length = λ m k. refl;
  verify_iff = λ tag m k. bytes_eq_iff tag (replicate 16 7);
}

abbrev key : Key
key = record {
  mac = record { k = replicate 16 1; r = replicate 16 2 };
  encryption = replicate 32 3;
}

abbrev nonce : Bytes
nonce = replicate 16 5

abbrev data_of_pack : Blob
data_of_pack = record {
  handle = record { id = replicate 32 9; type = data_blob };
  len = 3;
  offset = 0;
  uncompressed = 0;
}

abbrev tree_of_pack : Blob
tree_of_pack = record {
  handle = record { id = replicate 32 8; type = tree_blob };
  len = 2;
  offset = 3;
  uncompressed = 70;
}

abbrev blobs : List Blob
blobs = data_of_pack ∷ tree_of_pack ∷ []

abbrev blobs-IsEncodable : All IsEncodable blobs
blobs-IsEncodable = (
  record { type = inl refl; id = refl; len = omega arith; uncompressed = omega arith },
  (record { type = inr refl; id = refl; len = omega arith; uncompressed = omega arith }, tt),
)

open_sealed-seal_example :
    (c : Bytes) × (seal toy key (1 ∷ []) nonce (2 ∷ 3 ∷ []) [] ≡ ok ((1 ∷ []) ++ c))
    × (length c ≡ 2 + 16)
    × (open_sealed toy key (4 ∷ []) nonce c ≡ ok ((4 ∷ []) ++ 2 ∷ 3 ∷ []))
unfolding key_valid valid_nonce
open_sealed-seal_example =
    open_sealed-seal toy toy-IsStandard key (1 ∷ []) (4 ∷ []) nonce (2 ∷ 3 ∷ []) refl refl refl

opens_sealed : open_sealed toy key [] nonce (2 ∷ 3 ∷ replicate 16 7) ≡ ok (2 ∷ 3 ∷ [])
unfolding open_sealed key_valid valid_nonce bytes_eq
opens_sealed = refl

seal-open_sealed_example : seal toy key [] nonce (2 ∷ 3 ∷ []) [] ≡ ok (2 ∷ 3 ∷ replicate 16 7)
seal-open_sealed_example =
    seal-open_sealed toy toy-IsStandard key nonce (2 ∷ 3 ∷ replicate 16 7) (2 ∷ 3 ∷ []) opens_sealed

parse_header-make_header_example :
    (header : Bytes) × (make_header blobs ≡ ok header)
    × (calculate_header_size blobs ≡ length header + 36)
    × (parse_header header ≡ ok blobs)
parse_header-make_header_example =
    parse_header-make_header blobs blobs-IsEncodable (refl, (refl, tt))

-- A reader of bytes in memory.
abbrev reader_of : Bytes → ReaderAt
reader_of b off n = ok (take n (drop off b))

abbrev reader_of-Reads : (b : Bytes) → Reads (reader_of b) b
reader_of-Reads b = record { at = λ off n h. refl }

abbrev before_header : Bytes
before_header = replicate 40 6

abbrev some_header : Bytes
some_header = replicate 40 1

abbrev file_with_header : Bytes
file_with_header = before_header ++ (some_header ++ put_uint32 (length some_header))

read_header-found_example :
    read_header (reader_of file_with_header) (length file_with_header) ≡ ok some_header
unfolding put_uint32
read_header-found_example =
    read_header-found (reader_of file_with_header) before_header some_header
      (reader_of-Reads file_with_header) (omega arith) (omega arith) (omega arith)

list-Ends_example : Ends (λ _. Unit {0}) (list toy key (reader_of (replicate 80 255)) 80)
list-Ends_example =
    list-Ends (reader_of (replicate 80 255)) (replicate 80 255) (reader_of-Reads (replicate 80 255))
      toy key

-- A writer that takes all bytes and counts its calls.
abbrev counting : Writer ℕ
counting b w = (length b, none, w + 1)

abbrev two_blobs : Packer ℕ
two_blobs = record { blobs = blobs; bytes = 5; wr = 2 }

blobs-IsWritable : IsWritable key nonce blobs
unfolding key_valid valid_nonce calculate_header_size calculate_entry_size
blobs-IsWritable = record {
  key = refl;
  nonce_length = refl;
  nonce_valid = refl;
  encodable = blobs-IsEncodable;
  contiguous = (refl, (refl, tt));
  nonempty = λ h. cc;
  small = omega arith;
}

-- A writer into memory.
abbrev appending : Writer Bytes
appending b w = (length b, none, w ++ b)

abbrev in_memory : Packer Bytes
in_memory = record { blobs = blobs; bytes = 5; wr = 1 ∷ 2 ∷ 3 ∷ 4 ∷ 5 ∷ [] }

finalize-list_example :
    (header : Bytes) × (wr' : Bytes) × (finalize toy key reader_of appending nonce in_memory
      ≡ (ok tt, record in_memory { bytes = (5 + calculate_header_size blobs) % 2 ^ 64; wr = wr' }))
    × (wr' ≡ in_memory.wr ++ header)
    × (length header ≡ calculate_header_size blobs)
    × ((rd : ReaderAt) → Reads rd wr' → (n : ℕ) × (list toy key rd (length wr') ≡ ok (blobs, n)))
finalize-list_example =
    finalize-list toy toy-IsStandard key reader_of reader_of-Reads appending (λ w. w) nonce
      in_memory blobs-IsWritable (λ b w. (w ++ b, refl, refl))

abbrev one_added :
    Built counting 0 (add counting data_blob (replicate 32 9) (1 ∷ 2 ∷ []) 0 (new_packer 0)).2
one_added =
    step data_blob (replicate 32 9) (1 ∷ 2 ∷ []) 0 start (inl refl) refl (omega arith) (omega arith)

Built-IsConsistent_example :
    IsConsistent (add counting data_blob (replicate 32 9) (1 ∷ 2 ∷ []) 0 (new_packer 0)).2
Built-IsConsistent_example = Built-IsConsistent counting 0 one_added

has_room : header_full two_blobs ≡ false
unfolding header_full
has_room = refl

header_full-add_example :
    calculate_header_size (add counting tree_blob (replicate 32 4) (7 ∷ []) 0 two_blobs).2.blobs
    ≤ max_header_size
header_full-add_example =
    header_full-add counting tree_blob (replicate 32 4) (7 ∷ []) 0 two_blobs has_room
