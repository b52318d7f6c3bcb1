-- ===== src/Pack/Header.antt =====
-- makeHeader, parseHeaderEntry and the loop of List: the plain header of a pack.
pub mod Slices
pub mod Entry
pub mod RoundTrip
pub mod Safe
use restic.Prelude.{
  ℕ, zero, suc, ◌+◌, ◌*◌, ◌/◌, ◌%◌, ◌^◌, Bool, true, false, ◌&&◌, ◌||◌, not, List, [], ◌∷◌, ◌++◌,
  ◌==◌, ltb, if◌then◌else◌, length, take, drop, Result, ok, err, ◌>>=◌,
}
use restic.Blob.{Bytes, Blob, BlobType, invalid_blob, data_blob, tree_blob, type_eq}
use restic.Pack.{
  PackError, invalid_blob_type, invalid_type, entry_too_short, out_of_range, entry_size,
  plain_entry_size,
}

-- b[i:] and b[:i]; a bound beyond the end panics.
unfoldable pub slice_from : Bytes → ℕ → Result PackError Bytes
slice_from b i = if ltb (length b) i then err out_of_range else ok (drop i b)

unfoldable pub slice_to : Bytes → ℕ → Result PackError Bytes
slice_to b i = if ltb (length b) i then err out_of_range else ok (take i b)

-- binary.LittleEndian.PutUint32(_, uint32(n))
unfoldable pub put_uint32 : ℕ → Bytes
put_uint32 n =
    let m = n % 2 ^ 32 in
    (m % 256) ∷ (m / 256 % 256) ∷ (m / 65536 % 256) ∷ (m / 16777216 % 256) ∷ []

-- binary.LittleEndian.Uint32 of the first four bytes
unfoldable pub uint32 : Bytes → Result PackError ℕ
uint32 (a ∷ b ∷ c ∷ d ∷ _) = ok (a + 256 * b + 65536 * c + 16777216 * d)
uint32 _ = err out_of_range

-- The switch of makeHeader.
pub entry_type : Blob → Result PackError ℕ
entry_type b =
    if type_eq b.type data_blob && b.uncompressed == 0
    then ok 0
    else if type_eq b.type tree_blob && b.uncompressed == 0
    then ok 1
    else if type_eq b.type data_blob && not (b.uncompressed == 0)
    then ok 2
    else if type_eq b.type tree_blob && not (b.uncompressed == 0)
    then ok 3
    else err invalid_blob_type

-- What a round of the loop appends after the type byte.
pub entry_body : Blob → Bytes
entry_body b =
    put_uint32 b.len
    ++ ((if not (b.uncompressed == 0) then put_uint32 b.uncompressed else []) ++ b.id)

make_header_loop : Bytes → List Blob → Result PackError Bytes
make_header_loop buf [] = ok buf
make_header_loop buf (b ∷ bs) = do t ← entry_type b; make_header_loop (buf ++ (t ∷ entry_body b)) bs

unfoldable pub make_header : List Blob → Result PackError Bytes
unfolding make_header_loop entry_type entry_body put_uint32 type_eq
make_header blobs = make_header_loop [] blobs

-- The two switches of parseHeaderEntry: the blob type that a type byte stands for.
pub blob_type_of : ℕ → Result PackError BlobType
blob_type_of t =
    if t == 0 || t == 2
    then ok data_blob
    else if t == 1 || t == 3
    then ok tree_blob
    else err invalid_type

first_byte : Bytes → Result PackError ℕ
first_byte [] = err out_of_range
first_byte (t ∷ _) = ok t

-- What follows the type byte; b.ID is filled from what is left, since copy stops at 32 bytes.
parse_plain : BlobType → ℕ → Bytes → Result PackError (Blob × ℕ)
parse_plain type len rest = ok (
  record {
    handle = record { id = take 32 rest; type = type };
    len = len;
    offset = 0;
    uncompressed = 0;
  },
  plain_entry_size,
)

parse_compressed : BlobType → ℕ → ℕ → Bytes → Result PackError (Blob × ℕ)
parse_compressed type l len rest = if ltb l entry_size then err entry_too_short else (do
  uncompressed ← uint32 (take 4 rest)
  ok (
    record {
      handle = record { id = take 32 (drop 4 rest); type = type };
      len = len;
      offset = 0;
      uncompressed = uncompressed;
    },
    entry_size,
  ))

parse_typed : ℕ → Bytes → Result PackError (Blob × ℕ)
parse_typed tpe p = do
  type ← blob_type_of tpe
  len ← uint32 (take 4 (drop 1 p))
  (if tpe == 2 || tpe == 3
      then parse_compressed type (length p) len (drop 5 p)
      else parse_plain type len (drop 5 p))

unfoldable pub parse_header_entry : Bytes → Result PackError (Blob × ℕ)
unfolding parse_typed parse_compressed parse_plain blob_type_of first_byte uint32
parse_header_entry p =
    if ltb (length p) plain_entry_size
    then err entry_too_short
    else (do tpe ← first_byte p; parse_typed tpe p)

-- The loop of List: `pos` is a uint, and every entry takes at least 37 bytes off `buf`.
parse_entries : ℕ → ℕ → Bytes → List Blob → Result PackError (List Blob)
parse_entries fuel pos [] entries = ok entries
parse_entries zero pos (_ ∷ _) entries = err out_of_range
parse_entries (suc fuel) pos (c ∷ buf) entries = do
  (entry, size) ← parse_header_entry (c ∷ buf)
  rest ← slice_from (c ∷ buf) size
  parse_entries fuel ((pos + entry.len) % 2 ^ 64) rest
      (entries ++ (record entry { offset = pos }) ∷ [])

unfoldable pub parse_header : Bytes → Result PackError (List Blob)
unfolding parse_entries parse_header_entry
parse_header buf = parse_entries (length buf) 0 buf []
