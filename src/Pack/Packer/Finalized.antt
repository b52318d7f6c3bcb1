-- ===== src/Pack/Packer/Finalized.antt =====
-- A finalized pack can be listed: its header is found, opened and parsed.
use restic.Prelude.{
  ℕ, ◌+◌, ◌%◌, ◌^◌, ◌≤◌, ◌≡◌, ◌≢◌, ◌∙◌, refl, sym, ap, subst, true, false, none, List, [], ◌∷◌,
  ◌++◌, ◌==◌, ltb, length, ok, arith, All, length-append, take-append_left, drop-append_left,
  ==_refl,
}
use restic.Blob.{Bytes, Blob, blob_eq_refl}
use restic.Crypto.{Primitives, IsStandard, Key, key_valid, valid_nonce, open_sealed}
use restic.Crypto.Laws.{open_sealed-seal}
use restic.Pack.{calculate_entry_size, calculate_header_size, add_entry_sizes, max_header_size}
use restic.Pack.Header.{parse_header, put_uint32}
use restic.Pack.Header.Slices.{slice_from_ok, slice_to_ok}
use restic.Pack.Header.Entry.{IsEncodable, length-put_uint32}
use restic.Pack.Header.RoundTrip.{Contiguous, parse_header-make_header}
use restic.Pack.Reader.{ReaderAt, Reads, list}
use restic.Pack.Reader.Found.{read_header-found}
use restic.Pack.Packer.{Packer, Writer, same_entries, verify_header, encrypted_header, finalize}

add_entry_sizes-ge : (n : ℕ) (bs : List Blob) → n ≤ add_entry_sizes n bs
unfolding add_entry_sizes
add_entry_sizes-ge n [] = omega arith
add_entry_sizes-ge n (b ∷ bs) = omega (arith, add_entry_sizes-ge (n + calculate_entry_size b) bs)

-- A header with an entry makes a file that is long enough.
calculate_header_size-ge : (bs : List Blob) → bs ≢ [] → 73 ≤ calculate_header_size bs
unfolding calculate_header_size add_entry_sizes
calculate_header_size-ge [] h = absurd (h refl)
calculate_header_size-ge (b ∷ bs) h =
    let least : 37 ≤ calculate_entry_size b = unfold calculate_entry_size in ground arith in
    omega (arith, add_entry_sizes-ge (36 + calculate_entry_size b) bs)

same_entries_refl : (bs : List Blob) → same_entries bs bs ≡ ok tt
unfolding same_entries
same_entries_refl [] = refl
same_entries_refl (b ∷ bs) = rw (blob_eq_refl b, same_entries_refl bs) refl

-- What the blobs of a packer and the nonce must be for Finalize to write a header.
pub record IsWritable (k : Key) (nonce : Bytes) (bs : List Blob) : Type 0 where
  pub key : key_valid k ≡ true
  pub nonce_length : length nonce ≡ 16
  pub nonce_valid : valid_nonce nonce ≡ true
  pub encodable : All IsEncodable bs
  pub contiguous : Contiguous 0 bs
  pub nonempty : bs ≢ []
  pub small : calculate_header_size bs ≤ max_header_size

module _ (p : Primitives) (std : IsStandard p) (k : Key) where
  -- The encrypted header of the blobs, and how it is listed at the end of any file.
  record Sealed (nonce : Bytes) (bs : List Blob) : Type 0 where
    sealed : Bytes
    made : encrypted_header p k nonce bs ≡ ok (sealed ++ put_uint32 (length sealed))
    size : length sealed + 4 ≡ calculate_header_size bs
    listed :
        (rd : ReaderAt) (before : Bytes)
        → Reads rd (before ++ (sealed ++ put_uint32 (length sealed)))
        → list p k rd (length (before ++ (sealed ++ put_uint32 (length sealed))))
          ≡ ok (bs, (4 + length sealed % 2 ^ 32) % 2 ^ 32)

  -- List on a file that ends in nonce, sealed header and length, given what the parts do.
  list-sealed :
      (nonce c header : Bytes) (bs : List Blob) (rd : ReaderAt) (before : Bytes)
      → Reads rd (before ++ ((nonce ++ c) ++ put_uint32 (length (nonce ++ c))))
      → length nonce ≡ 16
      → length c ≡ length header + 16
      → 37 ≤ length header
      → length header ≤ 16777184
      → open_sealed p k [] nonce c ≡ ok header
      → parse_header header ≡ ok bs
      → list p k rd (length (before ++ ((nonce ++ c) ++ put_uint32 (length (nonce ++ c)))))
        ≡ ok (bs, (4 + length (nonce ++ c) % 2 ^ 32) % 2 ^ 32)
  unfolding list
  list-sealed nonce c header bs rd before reads hn hc lo hi opens parses =
      rw
        (
          read_header-found rd before (nonce ++ c) reads (omega (arith, total))
              (omega (arith, total))
              (omega (
                arith,
                total,
                length-append before ((nonce ++ c) ++ put_uint32 (length (nonce ++ c))),
                length-append (nonce ++ c) (put_uint32 (length (nonce ++ c))),
                length-put_uint32 (length (nonce ++ c)),
              )),
          long,
          slice_to_ok (nonce ++ c) 16 (omega (arith, total)),
          slice_from_ok (nonce ++ c) 16 (omega (arith, total)),
          take-append_left nonce c 16 (sym hn),
          drop-append_left nonce c 16 (sym hn),
          opens,
          parses,
        )
        refl
    where
      total : length (nonce ++ c) ≡ length header + 32
      total = omega (arith, length-append nonce c)

      long : ltb (length (nonce ++ c)) 32 ≡ false
      long = ground (arith, total)

  encrypted_header-Sealed :
      (nonce : Bytes) (bs : List Blob) → IsWritable k nonce bs → Sealed nonce bs
  unfolding encrypted_header
  encrypted_header-Sealed nonce bs w =
      let (header, made, size, parsed) = parse_header-make_header bs w.encodable w.contiguous in
      let (c, sealing, long, opening) =
        open_sealed-seal p std k nonce [] nonce header w.key w.nonce_length w.nonce_valid in
      let least : 73 ≤ calculate_header_size bs = calculate_header_size-ge bs w.nonempty in
      let hn = w.nonce_length in
      let most = w.small in
      record {
        sealed = nonce ++ c;
        made = rw (made, sealing) refl;
        size = omega (arith, length-append nonce c);
        listed = λ rd before reads.
            list-sealed nonce c header bs rd before reads hn long (omega arith) (omega arith)
              opening parsed;
      }

  module _ (new_reader : Bytes → ReaderAt) (reads : (b : Bytes) → Reads (new_reader b) b) where
    verify_header-Sealed :
        (nonce : Bytes) (bs : List Blob) (s : Sealed nonce bs)
        → length s.sealed + 4 ≤ max_header_size
        → verify_header p k new_reader (s.sealed ++ put_uint32 (length s.sealed)) bs ≡ ok tt
    unfolding verify_header
    verify_header-Sealed nonce bs s small =
        rw
          (
            s.listed (new_reader (s.sealed ++ put_uint32 (length s.sealed))) [] (reads _),
            sizes,
            ==_refl (length bs),
            same_entries_refl bs,
          )
          refl
      where
        sizes :
            ((4 + length s.sealed % 2 ^ 32) % 2 ^ 32
              == length (s.sealed ++ put_uint32 (length s.sealed)) % 2 ^ 32)
            ≡ true
        sizes = ground (
          arith,
          length-append s.sealed (put_uint32 (length s.sealed)),
          length-put_uint32 (length s.sealed),
        )

    -- Finalize, on a packer whose blobs are writable and with a writer that takes all bytes and
    -- appends them to its content, succeeds and adds the bytes that CalculateHeaderSize counts: that
    -- many bytes are appended to what the writer holds. List, on a file with the writer's content
    -- then, returns exactly the packer's blobs, whatever was written before.
    pub finalize-list :
        {W : Type 0} (write : Writer W) (written : W → Bytes) (nonce : Bytes) (q : Packer W)
        → IsWritable k nonce q.blobs
        → ((b : Bytes) (w : W)
            → (w' : W) × (write b w ≡ (length b, none, w')) × (written w' ≡ written w ++ b))
        → (header : Bytes) × (wr' : W) × (finalize p k new_reader write nonce q ≡ (
          ok tt,
          record q { bytes = (q.bytes + calculate_header_size q.blobs) % 2 ^ 64; wr = wr' },
        ))
          × (written wr' ≡ written q.wr ++ header)
          × (length header ≡ calculate_header_size q.blobs)
          × ((rd : ReaderAt)
              → Reads rd (written wr')
              → (n : ℕ) × (list p k rd (length (written wr')) ≡ ok (q.blobs, n)))
    unfolding finalize
    finalize-list write written nonce q w writes =
        let s = encrypted_header-Sealed nonce q.blobs w in
        let header = s.sealed ++ put_uint32 (length s.sealed) in
        let small = w.small in
        let size : length header ≡ calculate_header_size q.blobs =
          let size' = s.size in
          omega (
            arith,
            length-append s.sealed (put_uint32 (length s.sealed)),
            length-put_uint32 (length s.sealed),
          ) in
        let (wr', taken, appended) = writes header q.wr in
        (
          header,
          wr',
          rw
              (
                s.made,
                verify_header-Sealed nonce q.blobs s (let size' = s.size in omega arith),
                taken,
              )
              (rw (==_refl (length header), size) refl),
          appended,
          size,
          λ rd r. (
            _,
            ap (λ (file : Bytes). list p k rd (length file)) appended
                ∙ s.listed rd (written q.wr) (subst (Reads rd) appended r),
          ),
        )
