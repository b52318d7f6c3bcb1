-- ===== src/Pack/Reader/Safe.antt =====
-- Listing any file, damaged or not, ends without a panic.
use restic.Prelude.{
  ℕ, ◌+◌, ◌-◌, ◌≤◌, ◌≡◌, refl, false, [], ltb, leb, if◌then◌else◌, length, take, drop, arith,
  Result, ok, err, length-drop, length-take_le, ltb→lt, Bool-cases, inl, inr, ltb→le,
}
use restic.Blob.{Bytes}
use restic.Crypto.{Primitives, Key, open_sealed}
use restic.Pack.{PackError, out_of_range}
use restic.Pack.Header.{slice_from, uint32, parse_header}
use restic.Pack.Header.Slices.{slice_from_ok, slice_to_ok}
use restic.Pack.Header.Safe.{Ends, Ends-bind, uint32-Ends, parse_header-Ends}
use restic.Pack.Reader.{
  ReaderAt, Reads, check_header_length, records_of, read_records, eager_size, read_header,
  lift_crypto, list,
}

-- Bytes that are long enough to hold a nonce and a tag, with the header's total size.
abbrev Records : Bytes × ℕ → Type 0
Records (b, total) = (32 ≤ length b) × (36 ≤ total) × (total ≤ 16777220)

Ends-weaken :
    {A : Type 0} {P Q : A → Type 0} (r : Result PackError A)
    → Ends P r
    → ((a : A) → P a → Q a)
    → Ends Q r
Ends-weaken (ok a) h f = f a h
Ends-weaken (err e) h f = h

check_header_length-Ends :
    (h size : ℕ) → Ends (λ n. (n ≡ h) × (32 ≤ n) × (n ≤ 16777216)) (check_header_length h size)
unfolding check_header_length
check_header_length-Ends h size = ground arith

slice_from-Ends : (b : Bytes) (i : ℕ) → i ≤ length b → Ends (λ c. c ≡ drop i b) (slice_from b i)
unfolding slice_from
slice_from-Ends b i h = ground arith

records_of-Ends :
    (size n : ℕ) (b : Bytes) → length b ≡ n → 36 ≤ n → Ends Records (records_of size n b)
unfolding records_of
records_of-Ends size n b h lo = rw (enough) (
    Ends-bind (λ c. c ≡ drop (length b - 4) b) Records (slice_from b (length b - 4)) _
      (slice_from-Ends b (length b - 4) (omega arith))
      λ c e.
        Ends-bind (λ _. Unit) Records (uint32 c) _
          (uint32-Ends c (rw e (omega (arith, length-drop (length b - 4) b))))
          λ v _.
            Ends-bind (λ m. (m ≡ v) × (32 ≤ m) × (m ≤ 16777216)) Records
              (check_header_length v size) _ (check_header_length-Ends v size)
              λ m g.
                Ends-bind (λ k. 32 ≤ length k) Records (keep m) (λ k. ok (k, m + 4))
                  (keep-Ends m g.1) λ k lk. (lk, omega arith, omega arith))
  where
    enough : ltb (length b) 4 ≡ false
    enough = ground arith

    rest : Bytes
    rest = take (length b - 4) b

    long : length rest ≡ length b - 4
    long = length-take_le (length b - 4) b (omega arith)

    keep : ℕ → Result PackError Bytes
    keep m =
        if ltb (m + 4) n
        then (if ltb (length rest) m then err out_of_range else slice_from rest (length rest - m))
        else ok rest

    keep-Ends : (m : ℕ) → 32 ≤ m → Ends (λ k. 32 ≤ length k) (keep m)
    keep-Ends m lm = elim (Bool-cases (ltb (m + 4) n)) [
      | inl t ↦
          let lt = ltb→lt (m + 4) n t in
          let fits : ltb (length rest) m ≡ false = ground (arith, long) in
          rw (t, fits)
            (Ends-weaken (slice_from rest (length rest - m))
              (slice_from-Ends rest (length rest - m) (omega arith))
              λ c e. rw e (omega (arith, long, length-drop (length rest - m) rest)))
      | inr t ↦ rw t (omega (arith, long))
    ]

open_sealed-Ends :
    (p : Primitives) (k : Key) (nonce c : Bytes)
    → length nonce ≡ 16
    → Ends (λ _. Unit) (lift_crypto (open_sealed p k [] nonce c))
unfolding open_sealed
open_sealed-Ends p k nonce c h = ground arith

-- The reader that is given, and a file of any content.
module _ (rd : ReaderAt) (content : Bytes) (reads : Reads rd content) where
  read_records-Ends :
      (bufsize : ℕ)
      → 36 ≤ bufsize
      → 36 ≤ length content
      → Ends Records (read_records rd (length content) bufsize)
  unfolding read_records
  read_records-Ends bufsize lo lc = rw (reads.at (length content - n) n (omega (arith, within))) (
      records_of-Ends (length content) n (take n (drop (length content - n) content))
        (length-take_le n (drop (length content - n) content)
          (omega (arith, within, length-drop (length content - n) content)))
        (ground arith))
    where
      n : ℕ
      n = if ltb (length content) bufsize then length content else bufsize

      within : n ≤ length content
      within = ground arith

  read_header-Ends : Ends (λ b. 32 ≤ length b) (read_header rd (length content))
  unfolding read_header
  read_header-Ends = elim (Bool-cases (ltb (length content) 73)) [
    | inl t ↦ rw t refl
    | inr t ↦
        let le = ltb→le (length content) 73 t in
        rw t (
          Ends-bind Records (λ b. 32 ≤ length b) (read_records rd (length content) eager_size) _
            (read_records-Ends eager_size (omega arith) (omega arith))
            λ (b, c) h. elim (Bool-cases (leb c eager_size)) [
              | inl s ↦ rw s h.0
              | inr s ↦ rw s (
                  Ends-bind Records (λ b. 32 ≤ length b) (read_records rd (length content) c) _
                    (read_records-Ends c (let l = h.1 in omega arith) (omega arith)) λ a r. r.0)
            ])
  ]

  -- List ends with entries or with an error that it returns: on no content does it panic, by a
  -- slice out of range or a nonce of the wrong length.
  pub list-Ends : (p : Primitives) (k : Key) → Ends (λ _. Unit) (list p k rd (length content))
  unfolding list
  list-Ends p k =
      Ends-bind (λ b. 32 ≤ length b) (λ _. Unit) (read_header rd (length content)) _
        read_header-Ends
        λ b h.
          let long : ltb (length b) 32 ≡ false = ground arith in
          rw (long, slice_to_ok b 16 (omega arith), slice_from_ok b 16 (omega arith))
            (Ends-bind (λ _. Unit) (λ _. Unit)
              (lift_crypto (open_sealed p k [] (take 16 b) (drop 16 b))) _
              (open_sealed-Ends p k (take 16 b) (drop 16 b) (length-take_le 16 b (omega arith)))
              λ plain _.
                Ends-bind (λ _. Unit) (λ _. Unit) (parse_header plain) _ (parse_header-Ends plain)
                  λ bs _. tt)
