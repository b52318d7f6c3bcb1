-- ===== src/Pack/Reader/Found.antt =====
-- The header that ends a file is found, whether the eager read covers it or not.
use restic.Prelude.{
  ℕ, ◌+◌, ◌-◌, ◌^◌, ◌≤◌, ◌<◌, ◌≡◌, ◌∙◌, refl, sym, ap, true, false, [], ◌++◌, ltb, leb,
  if◌then◌else◌, length, drop, Result, ok, err, ◌>>=◌, arith, ◌⊎◌, inl, inr, Bool-cases,
  length-append, take-append_left, drop-append_left, drop-append_le, drop-append_ge, drop-length,
  leb→le, leb→lt, length-drop, take-length, append_assoc, ltb→le,
}
use restic.Blob.{Bytes}
use restic.Pack.{PackError, out_of_range}
use restic.Pack.Header.{slice_from, uint32, put_uint32}
use restic.Pack.Header.Slices.{slice_from_ok}
use restic.Pack.Header.Entry.{uint32-put_uint32, length-put_uint32}
use restic.Pack.Reader.{
  ReaderAt, Reads, check_header_length, records_of, read_records, eager_size, read_header,
}

uint32-put : (n : ℕ) → n < 2 ^ 32 → uint32 (put_uint32 n) ≡ ok n
unfolding put_uint32
uint32-put n h = uint32-put_uint32 n [] h

-- What readRecords makes of bytes that end in the header's length.
keep_end : ℕ → ℕ → Bytes → Result PackError (Bytes × ℕ)
unfolding slice_from
keep_end h bufsize body =
    (if ltb (h + 4) bufsize
      then (if ltb (length body) h then err out_of_range else slice_from body (length body - h))
      else ok body)
    >>= λ kept. ok (kept, h + 4)

check_header_length_ok :
    (h size : ℕ) → 32 ≤ h → h ≤ 16777216 → h + 4 ≤ size → check_header_length h size ≡ ok h
unfolding check_header_length
check_header_length_ok h size lo hi fits = ground arith

records_of-end :
    (h size bufsize : ℕ) (body : Bytes)
    → 32 ≤ h
    → h ≤ 16777216
    → h + 4 ≤ size
    → records_of size bufsize (body ++ put_uint32 h) ≡ keep_end h bufsize body
unfolding records_of keep_end
records_of-end h size bufsize body lo hi fits =
    rw
      (
        enough,
        slice_from_ok (body ++ put_uint32 h) (length (body ++ put_uint32 h) - 4) (omega arith),
        drop-append_left body (put_uint32 h) (length (body ++ put_uint32 h) - 4)
            (omega (arith, long)),
        uint32-put h (omega arith),
        check_header_length_ok h size lo hi fits,
        take-append_left body (put_uint32 h) (length (body ++ put_uint32 h) - 4)
            (omega (arith, long)),
      )
      refl
  where
    long : length (body ++ put_uint32 h) ≡ length body + 4
    long = omega (arith, length-append body (put_uint32 h), length-put_uint32 h)

    enough : ltb (length (body ++ put_uint32 h)) 4 ≡ false
    enough = ground (arith, long)

-- keep_end, where the bytes read begin before the header and where they begin inside it.
keep_end-whole :
    (before header : Bytes) (bufsize : ℕ)
    → (ltb (length header + 4) bufsize ≡ true) ⊎ (before ≡ [])
    → keep_end (length header) bufsize (before ++ header) ≡ ok (header, length header + 4)
unfolding keep_end
keep_end-whole before header bufsize h = elim (Bool-cases (ltb (length header + 4) bufsize)) [
  | inl t ↦
      rw
        (
          t,
          enough,
          slice_from_ok (before ++ header) (length (before ++ header) - length header)
              (omega arith),
          drop-append_left before header (length (before ++ header) - length header)
              (omega (arith, length-append before header)),
        )
        refl
  | inr t ↦ rw t (
      ap (λ (b : Bytes). ok (b, length header + 4))
        (elim h [ inl e ↦ cc | inr e ↦ ap (λ (b : Bytes). b ++ header) e ]))
]
  where
    enough : ltb (length (before ++ header)) (length header) ≡ false
    enough = ground (arith, length-append before header)

keep_end-part :
    (h bufsize : ℕ) (body : Bytes) → bufsize < h + 4 → keep_end h bufsize body ≡ ok (body, h + 4)
unfolding keep_end
keep_end-part h bufsize body lt = ground arith

-- A file that ends in a header and its length, and a reader of it.
module _ (rd : ReaderAt) (before header : Bytes) where
  abbrev content : Bytes
  content = before ++ (header ++ put_uint32 (length header))

  module _ (reads : Reads rd content) (lo : 32 ≤ length header)
      (hi : length header ≤ 16777216) where
    length-content : length content ≡ length before + length header + 4
    length-content = omega (
      arith,
      length-append before (header ++ put_uint32 (length header)),
      length-append header (put_uint32 (length header)),
      length-put_uint32 (length header),
    )

    -- A read of the last `n` bytes.
    read_end :
        (n : ℕ)
        → n ≤ length content
        → rd (length content - n) n ≡ ok (drop (length content - n) content)
    read_end n le =
        reads.at (length content - n) n (omega arith)
        ∙ ap ok (
            take-length n (drop (length content - n) content)
              (omega (arith, length-drop (length content - n) content)))

    read_records-whole :
        (bufsize : ℕ)
        → length header + 4 ≤ bufsize
        → read_records rd (length content) bufsize ≡ ok (header, length header + 4)
    unfolding read_records
    read_records-whole bufsize le =
        rw (read_end n inside, split)
          (records_of-end (length header) (length content) n
              (drop (length content - n) before ++ header) lo hi
              (omega (arith, covers, inside, length-content))
            ∙ keep_end-whole (drop (length content - n) before) header n whole)
      where
        n : ℕ
        n = if ltb (length content) bufsize then length content else bufsize

        covers : length header + 4 ≤ n
        covers = ground (arith, length-content)

        inside : n ≤ length content
        inside = ground arith

        split :
            drop (length content - n) content
            ≡ (drop (length content - n) before ++ header) ++ put_uint32 (length header)
        split =
            drop-append_le (length content - n) before (header ++ put_uint32 (length header))
              (omega (arith, covers, inside, length-content))
            ∙ sym (
                append_assoc (drop (length content - n) before) header (put_uint32 (length header)))

        whole : (ltb (length header + 4) n ≡ true) ⊎ (drop (length content - n) before ≡ [])
        whole = elim (Bool-cases (ltb (length header + 4) n)) [
          | inl t ↦ inl t
          | inr t ↦ inr (
              drop-length (length content - n) before
                (let e = ltb→le _ _ t in omega (arith, covers, inside, length-content)))
        ]

    read_records-part :
        (bufsize : ℕ)
        → 4 ≤ bufsize
        → bufsize < length header + 4
        → (b : Bytes) × (read_records rd (length content) bufsize ≡ ok (b, length header + 4))
    unfolding read_records
    read_records-part bufsize lo4 lt = (
      body,
      rw (small, read_end bufsize (omega (arith, length-content)), split)
          (records_of-end (length header) (length content) bufsize body lo hi
              (omega (arith, length-content))
            ∙ keep_end-part (length header) bufsize body lt),
    )
      where
        small : (if ltb (length content) bufsize then length content else bufsize) ≡ bufsize
        small = ground (arith, length-content)

        k : ℕ
        k = length header + 4 - bufsize

        body : Bytes
        body = drop k header

        split : drop (length content - bufsize) content ≡ body ++ put_uint32 (length header)
        split =
            drop-append_ge k before (header ++ put_uint32 (length header))
              (length content - bufsize) (omega (arith, length-content))
            ∙ drop-append_le k header (put_uint32 (length header)) (omega arith)

    -- readHeader returns the header, with one read or with two.
    pub read_header-found : 73 ≤ length content → read_header rd (length content) ≡ ok header
    unfolding read_header
    read_header-found big = elim (Bool-cases (leb (length header + 4) eager_size)) [
      | inl t ↦ rw (long_enough, read_records-whole eager_size (leb→le _ _ t), t) refl
      | inr t ↦
          let (b, e) = read_records-part eager_size (omega arith) (leb→lt _ _ t) in
          rw (long_enough, e, t, read_records-whole (length header + 4) (omega arith)) refl
    ]
      where
        long_enough : ltb (length content) 73 ≡ false
        long_enough = ground arith
