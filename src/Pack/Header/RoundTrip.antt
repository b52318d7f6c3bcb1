-- ===== src/Pack/Header/RoundTrip.antt =====
-- Parsing gives back the blobs that a header was made of.
use restic.Prelude.{
  ℕ, zero, suc, ◌+◌, ◌%◌, ◌^◌, ◌≤◌, ◌≡◌, sym, ◌∙◌, ap, List, [], ◌∷◌, ◌++◌, length, drop, ok, arith,
  All, length-append, drop-append_left, append-nil, append_assoc,
}
use restic.Blob.{Bytes, Blob}
use restic.Pack.{calculate_entry_size, calculate_header_size, add_entry_sizes}
use restic.Pack.Header.{entry_body, make_header_loop, make_header, parse_entries, parse_header}
use restic.Pack.Header.Slices.{slice_from_ok}
use restic.Pack.Header.Entry.{
  length-entry_body, entry_type_lem, parse_header_entry-entry, IsEncodable,
}

-- Every blob begins where the one before it ends; offsets are machine words.
abbrev pub Contiguous : ℕ → List Blob → Type 0
Contiguous pos [] = Unit
Contiguous pos (b ∷ bs) = (b.offset ≡ pos) × Contiguous ((pos + b.len) % 2 ^ 64) bs

-- The bytes of a header, with how they are made, measured and parsed.
record Encoded (bs : List Blob) : Type 0 where
  bytes : Bytes
  made : (buf : Bytes) → make_header_loop buf bs ≡ ok (buf ++ bytes)
  size : (n : ℕ) → add_entry_sizes n bs ≡ n + length bytes
  parsed :
      (fuel pos : ℕ) (acc : List Blob)
      → length bytes ≤ fuel
      → Contiguous pos bs
      → parse_entries fuel pos bytes acc ≡ ok (acc ++ bs)

Encoded-nil : Encoded []
unfolding make_header_loop add_entry_sizes parse_entries
Encoded-nil = record {
  bytes = [];
  made = λ buf. ap ok (sym (append-nil buf));
  size = λ n. omega arith;
  parsed = λ fuel pos acc h c. ap ok (sym (append-nil acc));
}

parse_entries-cons :
    (b : Blob) (e : IsEncodable b) (rest : Bytes) (fuel pos : ℕ) (acc : List Blob)
    → b.offset ≡ pos
    → parse_entries (suc fuel) pos ((entry_type_lem b e).byte ∷ (entry_body b ++ rest)) acc
      ≡ parse_entries fuel ((pos + b.len) % 2 ^ 64) rest (acc ++ b ∷ [])
unfolding parse_entries
parse_entries-cons b e rest fuel pos acc h =
    rw
      (
        parse_header_entry-entry b e rest,
        slice_from_ok ((entry_type_lem b e).byte ∷ (entry_body b ++ rest)) (calculate_entry_size b)
            (omega (arith, length-append (entry_body b) rest, length-entry_body b e)),
      )
      (ap
          (λ (o : ℕ).
            parse_entries fuel ((pos + b.len) % 2 ^ 64)
              (drop (calculate_entry_size b) ((entry_type_lem b e).byte ∷ (entry_body b ++ rest)))
              (acc ++ record b { offset = o } ∷ []))
          (sym h)
        ∙ ap (λ (r : Bytes). parse_entries fuel ((pos + b.len) % 2 ^ 64) r (acc ++ b ∷ [])) dropped)
  where
    dropped :
        drop (calculate_entry_size b) ((entry_type_lem b e).byte ∷ (entry_body b ++ rest)) ≡ rest
    dropped =
        drop-append_left ((entry_type_lem b e).byte ∷ entry_body b) rest (calculate_entry_size b)
          (sym (length-entry_body b e))

Encoded-parsed :
    (b : Blob) (bs : List Blob) (e : IsEncodable b) (r : Encoded bs) (fuel pos : ℕ)
    (acc : List Blob)
    → suc (length (entry_body b ++ r.bytes)) ≤ fuel
    → Contiguous pos (b ∷ bs)
    → parse_entries fuel pos ((entry_type_lem b e).byte ∷ (entry_body b ++ r.bytes)) acc
      ≡ ok (acc ++ b ∷ bs)
Encoded-parsed b bs e r zero pos acc h c = absurd (omega arith)
Encoded-parsed b bs e r (suc fuel) pos acc h c =
    parse_entries-cons b e r.bytes fuel pos acc c.0
    ∙ r.parsed fuel _ (acc ++ b ∷ []) (omega (arith, length-append (entry_body b) r.bytes)) c.1
    ∙ ap ok (append_assoc acc (b ∷ []) bs)

Encoded-cons : (b : Blob) (bs : List Blob) → IsEncodable b → Encoded bs → Encoded (b ∷ bs)
unfolding make_header_loop add_entry_sizes
Encoded-cons b bs e r =
    let t = entry_type_lem b e in
    record {
      bytes = t.byte ∷ (entry_body b ++ r.bytes);
      made = λ buf.
          rw (t.encoded, r.made (buf ++ (t.byte ∷ entry_body b)))
            (ap ok (append_assoc buf (t.byte ∷ entry_body b) r.bytes));
      size = λ n. omega (
        arith,
        r.size (n + calculate_entry_size b),
        length-append (entry_body b) r.bytes,
        length-entry_body b e,
      );
      parsed = Encoded-parsed b bs e r;
    }

Encoded-all : (bs : List Blob) → All IsEncodable bs → Encoded bs
Encoded-all [] h = Encoded-nil
Encoded-all (b ∷ bs) h = Encoded-cons b bs h.0 (Encoded-all bs h.1)

-- A header of encodable, contiguous blobs is made without an error, has the size that
-- CalculateHeaderSize adds for its entries, and parses to the same blobs.
pub parse_header-make_header :
    (bs : List Blob)
    → All IsEncodable bs
    → Contiguous 0 bs
    → (header : Bytes) × (make_header bs ≡ ok header)
      × (calculate_header_size bs ≡ length header + 36)
      × (parse_header header ≡ ok bs)
unfolding make_header parse_header calculate_header_size
parse_header-make_header bs h c =
    let e = Encoded-all bs h in
    (e.bytes, e.made [], omega (arith, e.size 36), e.parsed (length e.bytes) 0 [] (omega arith) c)
