-- ===== src/Pack/Reader.antt =====
-- readRecords, readHeader and List: the header at the end of a pack file.
-- An io.ReaderAt is a parameter: a function of an offset and a count of bytes. Sizes are natural
-- numbers, since a negative int64 is no size of a file.
pub mod Found
pub mod Safe
use restic.Prelude.{
  ℕ, ◌+◌, ◌*◌, ◌-◌, ◌%◌, ◌^◌, ◌≤◌, ◌≡◌, List, [], ◌==◌, ltb, leb, if◌then◌else◌, length, take, drop,
  Result, ok, err, ◌>>=◌,
}
use restic.Blob.{Bytes, Blob}
use restic.Crypto
use restic.Crypto.{Primitives, Key, open_sealed}
use restic.Pack.{
  PackError, length_zero, length_too_short, larger_than_file, larger_than_max, file_too_short,
  invalid_header, out_of_range, crypto, header_length_size, header_size, max_header_size,
  min_file_size, entry_size, eager_entries,
}
use restic.Pack.Header.{slice_from, slice_to, uint32, parse_header}

abbrev pub ReaderAt : Type 0
ReaderAt = ℕ → ℕ → Result PackError Bytes

-- Documented behaviour of ReadAt: a range inside the file is read without an error.
pub record Reads (rd : ReaderAt) (content : Bytes) : Type 0 where
  pub at : (off n : ℕ) → off + n ≤ length content → rd off n ≡ ok (take n (drop off content))

-- The guards on the header length, in the order of the switch.
check_header_length : ℕ → ℕ → Result PackError ℕ
check_header_length hlen size =
    if hlen == 0
    then err length_zero
    else if ltb hlen Crypto.extension
    then err length_too_short
    else if ltb size (hlen + header_length_size)
    then err larger_than_file
    else if ltb (max_header_size - header_length_size) hlen
    then err larger_than_max
    else ok hlen

-- The tail of readRecords, from the bytes that were read.
records_of : ℕ → ℕ → Bytes → Result PackError (Bytes × ℕ)
records_of size bufsize b = do
  last ←
      (if ltb (length b) header_length_size
        then err out_of_range
        else slice_from b (length b - header_length_size))
  n ← uint32 last
  hlen ← check_header_length n size
  let rest = take (length b - header_length_size) b
  let total = hlen + header_length_size
  kept ←
      (if ltb total bufsize
        then (if ltb (length rest) hlen
            then err out_of_range
            else slice_from rest (length rest - hlen))
        else ok rest)
  ok (kept, total)

unfoldable pub read_records : ReaderAt → ℕ → ℕ → Result PackError (Bytes × ℕ)
unfolding records_of check_header_length
read_records rd size bufsize =
    let n = if ltb size bufsize then size else bufsize in rd (size - n) n >>= records_of size n

abbrev pub eager_size : ℕ
eager_size = eager_entries * entry_size + header_size

unfoldable pub read_header : ReaderAt → ℕ → Result PackError Bytes
read_header rd size = if ltb size min_file_size then err file_too_short else (do
  (b, c) ← read_records rd size eager_size
  (if leb c eager_size then ok b else (do (all, _) ← read_records rd size c; ok all)))

-- An error of the crypto layer, passed on by the pack layer.
abbrev pub lift_crypto : Result Crypto.Failure Bytes → Result PackError Bytes
lift_crypto (ok b) = ok b
lift_crypto (err e) = err (crypto e)

unfoldable pub list : Primitives → Key → ReaderAt → ℕ → Result PackError (List Blob × ℕ)
list p k rd size = do
  buf ← read_header rd size
  (if ltb (length buf) Crypto.extension then err invalid_header else (do
    nonce ← slice_to buf Crypto.iv_size
    sealed ← slice_from buf Crypto.iv_size
    plain ← lift_crypto (open_sealed p k [] nonce sealed)
    entries ← parse_header plain
    ok (entries, (header_length_size + length buf % 2 ^ 32) % 2 ^ 32)))
