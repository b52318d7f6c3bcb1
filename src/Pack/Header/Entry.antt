-- ===== src/Pack/Header/Entry.antt =====
-- One entry of the header: what the parser reads from what the writer wrote, and its length.
use restic.Prelude.{
  ℕ, suc, ◌+◌, ◌*◌, ◌/◌, ◌%◌, ◌^◌, ◌≤◌, ◌<◌, ◌≡◌, refl, sym, ◌∙◌, ap, true, false, ◌||◌, not, ◌∷◌,
  ◌++◌, ◌==◌, ltb, length, take, drop, ok, arith, ◌⊎◌, inl, inr, length-append, take-append_left,
  Bool-cases, append_assoc,
}
use restic.Blob.{Bytes, Blob, BlobType, data_blob, tree_blob, type_eq}
use restic.Pack.{entry_size, plain_entry_size, calculate_entry_size}
use restic.Pack.Header.{
  put_uint32, uint32, entry_type, entry_body, blob_type_of, parse_typed, parse_plain,
  parse_compressed, parse_header_entry,
}

-- What a blob must be for the header to hold it: one of the two types, an ID of 32 bytes, and
-- lengths that fit a uint32.
pub record IsEncodable (b : Blob) : Type 0 where
  pub type : (b.type ≡ data_blob) ⊎ (b.type ≡ tree_blob)
  pub id : length b.id ≡ 32
  pub len : b.len < 2 ^ 32
  pub uncompressed : b.uncompressed < 2 ^ 32

digits4 :
    (n : ℕ)
    → n < 2 ^ 32
    → n % 256 + 256 * (n / 256 % 256) + 65536 * (n / 65536 % 256) + 16777216 * (n / 16777216 % 256)
      ≡ n
digits4 n h = omega arith

pub uint32-put_uint32 :
    (n : ℕ) (rest : Bytes) → n < 2 ^ 32 → uint32 (take 4 (put_uint32 n ++ rest)) ≡ ok n
unfolding uint32 put_uint32
uint32-put_uint32 n rest h =
    let e : n % 2 ^ 32 ≡ n = omega arith in
    ap ok (
      ap
        (λ (m : ℕ).
          m % 256
          + 256 * (m / 256 % 256)
          + 65536 * (m / 65536 % 256)
          + 16777216 * (m / 16777216 % 256))
        e
      ∙ digits4 n h)

drop-put_uint32 : (n : ℕ) (rest : Bytes) → drop 4 (put_uint32 n ++ rest) ≡ rest
unfolding put_uint32
drop-put_uint32 n rest = refl

pub length-put_uint32 : (n : ℕ) → length (put_uint32 n) ≡ 4
unfolding put_uint32
length-put_uint32 n = refl

module _ (t len : ℕ) (type : BlobType) (id rest : Bytes) (typed : blob_type_of t ≡ ok type)
    (id32 : length id ≡ 32) (fits : len < 2 ^ 32) where
  parse_typed-plain :
      (t == 2 || t == 3) ≡ false
      → parse_typed t (t ∷ (put_uint32 len ++ (id ++ rest)))
        ≡ ok (
          record {
            handle = record { id = id; type = type };
            len = len;
            offset = 0;
            uncompressed = 0;
          },
          plain_entry_size,
        )
  unfolding parse_typed parse_plain
  parse_typed-plain h =
      rw
        (
          typed,
          uint32-put_uint32 len (id ++ rest) fits,
          h,
          drop-put_uint32 len (id ++ rest),
          take-append_left id rest 32 (sym id32),
        )
        refl

  parse_typed-compressed :
      (u : ℕ)
      → u < 2 ^ 32
      → (t == 2 || t == 3) ≡ true
      → parse_typed t (t ∷ (put_uint32 len ++ (put_uint32 u ++ (id ++ rest))))
        ≡ ok (
          record {
            handle = record { id = id; type = type };
            len = len;
            offset = 0;
            uncompressed = u;
          },
          entry_size,
        )
  unfolding parse_typed parse_compressed
  parse_typed-compressed u fu h =
      rw
        (
          typed,
          uint32-put_uint32 len (put_uint32 u ++ (id ++ rest)) fits,
          h,
          long,
          drop-put_uint32 len (put_uint32 u ++ (id ++ rest)),
          uint32-put_uint32 u (id ++ rest) fu,
          drop-put_uint32 u (id ++ rest),
          take-append_left id rest 32 (sym id32),
        )
        refl
    where
      long :
          ltb (length (t ∷ (put_uint32 len ++ (put_uint32 u ++ (id ++ rest))))) entry_size ≡ false
      long = ground (
        arith,
        length-append (put_uint32 len) (put_uint32 u ++ (id ++ rest)),
        length-append (put_uint32 u) (id ++ rest),
        length-append id rest,
        length-put_uint32 len,
        length-put_uint32 u,
      )

-- The bytes of an entry, by whether the blob is compressed.
entry_body-plain :
    (b : Blob) (rest : Bytes)
    → (b.uncompressed == 0) ≡ true
    → entry_body b ++ rest ≡ put_uint32 b.len ++ (b.id ++ rest)
unfolding entry_body
entry_body-plain b rest h = rw (h, append_assoc) refl

entry_body-compressed :
    (b : Blob) (rest : Bytes)
    → (b.uncompressed == 0) ≡ false
    → entry_body b ++ rest ≡ put_uint32 b.len ++ (put_uint32 b.uncompressed ++ (b.id ++ rest))
unfolding entry_body
entry_body-compressed b rest h =
    rw (h, append_assoc (put_uint32 b.len), append_assoc (put_uint32 b.uncompressed)) refl

pub length-entry_body :
    (b : Blob) → IsEncodable b → suc (length (entry_body b)) ≡ calculate_entry_size b
unfolding entry_body calculate_entry_size
length-entry_body b e =
    let i = e.id in
    ground (
      arith,
      length-append (put_uint32 b.len) b.id,
      length-append (put_uint32 b.len) (put_uint32 b.uncompressed ++ b.id),
      length-append (put_uint32 b.uncompressed) b.id,
      length-put_uint32 b.len,
      length-put_uint32 b.uncompressed,
    )

-- The type byte says whether the entry is compressed, and gives the blob type back.
pub record TypeByte (b : Blob) : Type 0 where
  pub byte : ℕ
  pub encoded : entry_type b ≡ ok byte
  pub decoded : blob_type_of byte ≡ ok b.type
  pub compressed : (byte == 2 || byte == 3) ≡ not (b.uncompressed == 0)

pub entry_type_lem : (b : Blob) → IsEncodable b → TypeByte b
unfolding entry_type blob_type_of type_eq
entry_type_lem b e = elim e.type [
  | inl d ↦ elim (Bool-cases (b.uncompressed == 0)) [
    | inl z ↦ record { byte = 0; encoded = rw (d, z); decoded = rw d; compressed = rw z }
    | inr z ↦ record { byte = 2; encoded = rw (d, z); decoded = rw d; compressed = rw z }
  ]
  | inr d ↦ elim (Bool-cases (b.uncompressed == 0)) [
    | inl z ↦ record { byte = 1; encoded = rw (d, z); decoded = rw d; compressed = rw z }
    | inr z ↦ record { byte = 3; encoded = rw (d, z); decoded = rw d; compressed = rw z }
  ]
]

parse_typed-entry :
    (b : Blob) (e : IsEncodable b) (rest : Bytes)
    → parse_typed (entry_type_lem b e).byte ((entry_type_lem b e).byte ∷ (entry_body b ++ rest))
      ≡ ok (record b { offset = 0 }, calculate_entry_size b)
unfolding calculate_entry_size
parse_typed-entry b e rest =
    let t = entry_type_lem b e in
    elim (Bool-cases (b.uncompressed == 0)) [
      | inl z ↦ rw (entry_body-plain b rest z) (
          parse_typed-plain t.byte b.len b.type b.id rest t.decoded e.id e.len
            (t.compressed ∙ ap not z)
          ∙ ground arith)
      | inr z ↦ rw (entry_body-compressed b rest z) (
          parse_typed-compressed t.byte b.len b.type b.id rest t.decoded e.id e.len b.uncompressed
            e.uncompressed (t.compressed ∙ ap not z)
          ∙ ground arith)
    ]

pub parse_header_entry-entry :
    (b : Blob) (e : IsEncodable b) (rest : Bytes)
    → parse_header_entry ((entry_type_lem b e).byte ∷ (entry_body b ++ rest))
      ≡ ok (record b { offset = 0 }, calculate_entry_size b)
unfolding parse_header_entry
parse_header_entry-entry b e rest =
    rw long (unfold calculate_entry_size in parse_typed-entry b e rest)
  where
    long : ltb (suc (length (entry_body b ++ rest))) plain_entry_size ≡ false
    long =
        let n = length-entry_body b e in
        let m : plain_entry_size ≤ calculate_entry_size b =
          unfold calculate_entry_size in ground arith in
        ground (arith, length-append (entry_body b) rest)
