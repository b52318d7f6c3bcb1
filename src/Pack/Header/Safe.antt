-- ===== src/Pack/Header/Safe.antt =====
-- Parsing any bytes, damaged or not, ends with blobs or an error, and never with a panic.
use restic.Prelude.{
  ℕ, zero, suc, ◌+◌, ◌%◌, ◌^◌, ◌≤◌, ◌≡◌, refl, true, false, Bool, List, [], ◌∷◌, ◌++◌, ltb, length,
  take, drop, arith, Result, ok, err, ◌>>=◌, length-drop, length-take_le, Bool-cases, inl, inr,
  ltb→le,
}
use restic.Blob.{Bytes, Blob, BlobType}
use restic.Crypto
use restic.Pack.{PackError, out_of_range, crypto}
use restic.Pack.Header.Slices.{slice_from_ok}
use restic.Pack.Header.{
  uint32, blob_type_of, parse_plain, parse_compressed, parse_typed, parse_header_entry,
  parse_entries, parse_header,
}

-- The errors that stand for a panic of the program, or for spent fuel.
abbrev pub is_panic : PackError → Bool
is_panic out_of_range = true
is_panic (crypto Crypto.panic_key) = true
is_panic (crypto Crypto.panic_additional_data) = true
is_panic (crypto Crypto.panic_nonce_length) = true
is_panic (crypto Crypto.panic_nonce) = true
is_panic _ = false

-- A value of which `P` holds, or an error that the program returns.
abbrev pub Ends {ℓ} : {A : Type ℓ} → (A → Type 0) → Result PackError A → Type 0
Ends P (ok a) = P a
Ends P (err e) = is_panic e ≡ false

pub Ends-bind {ℓ κ} :
    {A : Type ℓ} {B : Type κ} (Mid : A → Type 0) (Last : B → Type 0) (first : Result PackError A)
    (next : A → Result PackError B)
    → Ends Mid first
    → ((value : A) → Mid value → Ends Last (next value))
    → Ends Last (first >>= next)
Ends-bind Mid Last (err e) next same go = same
Ends-bind Mid Last (ok value) next mid go = go value mid

pub uint32-Ends : (b : Bytes) → 4 ≤ length b → Ends (λ _. Unit) (uint32 b)
unfolding uint32
uint32-Ends [] h = absurd (omega arith)
uint32-Ends (_ ∷ []) h = absurd (omega arith)
uint32-Ends (_ ∷ _ ∷ []) h = absurd (omega arith)
uint32-Ends (_ ∷ _ ∷ _ ∷ []) h = absurd (omega arith)
uint32-Ends (_ ∷ _ ∷ _ ∷ _ ∷ _) h = tt

blob_type_of-Ends : (t : ℕ) → Ends (λ _. Unit) (blob_type_of t)
unfolding blob_type_of
blob_type_of-Ends t = ground arith

-- The size of an entry, at least 37 and within the bytes that are there.
abbrev Takes : ℕ → Blob × ℕ → Type 0
Takes l (b, size) = (37 ≤ size) × (size ≤ l)

parse_compressed-Ends :
    (type : BlobType) (l len : ℕ) (rest : Bytes)
    → 5 + length rest ≡ l
    → 37 ≤ l
    → Ends (Takes l) (parse_compressed type l len rest)
unfolding parse_compressed
parse_compressed-Ends type l len rest h lo = elim (Bool-cases (ltb l 41)) [
  | inl t ↦ rw t refl
  | inr t ↦ rw t (
      Ends-bind (λ _. Unit) (Takes l) (uint32 (take 4 rest)) _
        (uint32-Ends (take 4 rest)
          (let le = ltb→le l 41 t in omega (arith, length-take_le 4 rest (omega arith))))
        λ u _. let le = ltb→le l 41 t in (omega arith, omega arith))
]

parse_typed-Ends : (t : ℕ) (p : Bytes) → 37 ≤ length p → Ends (Takes (length p)) (parse_typed t p)
unfolding parse_typed parse_plain
parse_typed-Ends t p h =
    Ends-bind (λ _. Unit) (Takes (length p)) (blob_type_of t) _ (blob_type_of-Ends t)
      λ type _.
        Ends-bind (λ _. Unit) (Takes (length p)) (uint32 (take 4 (drop 1 p))) _
          (uint32-Ends (take 4 (drop 1 p)) (
            omega (
              arith,
              length-take_le 4 (drop 1 p) (omega (arith, length-drop 1 p)),
              length-drop 1 p,
            )))
          λ len _. ground (
            arith,
            parse_compressed-Ends type (length p) len (drop 5 p) (omega (arith, length-drop 5 p)) h,
          )

parse_header_entry-Ends : (p : Bytes) → Ends (Takes (length p)) (parse_header_entry p)
unfolding parse_header_entry
parse_header_entry-Ends [] = refl
parse_header_entry-Ends (t ∷ p) = elim (Bool-cases (ltb (suc (length p)) 37)) [
  | inl short ↦ rw short refl
  | inr long ↦ rw long (parse_typed-Ends t (t ∷ p) (ltb→le _ _ long))
]

parse_entries-Ends :
    (fuel pos : ℕ) (buf : Bytes) (acc : List Blob)
    → length buf ≤ fuel
    → Ends (λ _. Unit) (parse_entries fuel pos buf acc)
unfolding parse_entries
parse_entries-Ends fuel pos [] acc h = tt
parse_entries-Ends zero pos (c ∷ buf) acc h = absurd (omega arith)
parse_entries-Ends (suc fuel) pos (c ∷ buf) acc h =
    Ends-bind (Takes (length (c ∷ buf))) (λ _. Unit) (parse_header_entry (c ∷ buf)) _
      (parse_header_entry-Ends (c ∷ buf))
      λ (b, size) takes. rw (slice_from_ok (c ∷ buf) size takes.1) (
        parse_entries-Ends fuel ((pos + b.len) % 2 ^ 64) (drop size (c ∷ buf))
          (acc ++ (record b { offset = pos }) ∷ [])
          (let lo = takes.0 in omega (arith, length-drop size (c ∷ buf))))

pub parse_header-Ends : (buf : Bytes) → Ends (λ _. Unit) (parse_header buf)
unfolding parse_header
parse_header-Ends buf = parse_entries-Ends (length buf) 0 buf [] (omega arith)
