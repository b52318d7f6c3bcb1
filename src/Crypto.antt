-- ===== src/Crypto.antt =====
-- internal/crypto/crypto.go: sealing and opening of authenticated ciphertexts.
-- AES, its counter mode and Poly1305 are not part of the repository: they are the fields of
-- `Primitives`, with what Go documents of them.
pub mod Laws
use Prim.Native.Nat.{bit_or}
use restic.Prelude.{
  ℕ, ◌+◌, ◌-◌, ◌≡◌, ◌↔◌, Bool, true, false, ◌&&◌, not, List, [], ◌∷◌, ◌++◌, ◌==◌, ltb, length, take,
  drop, replicate, if◌then◌else◌, Result, ok, err,
}
use restic.Blob.{Bytes}

abbrev pub iv_size : ℕ
iv_size = 16

abbrev pub mac_size : ℕ
mac_size = 16

abbrev pub extension : ℕ
extension = 32

pub record Primitives : Type 0 where
  -- cipher.Block.Encrypt of one block under a 16-byte key
  pub aes_encrypt : Bytes → Bytes → Bytes
  -- cipher.NewCTR(c, iv).XORKeyStream(_, src)
  pub ctr_xor : Bytes → Bytes → Bytes → Bytes
  -- poly1305.Sum and poly1305.Verify: message, then the 32-byte key
  pub poly1305_sum : Bytes → Bytes → Bytes
  pub poly1305_verify : Bytes → Bytes → Bytes → Bool

-- Documented behaviour: a stream cipher XORs a key stream into the text, a tag has 16 bytes, and
-- Verify accepts exactly the tag of the message.
pub record IsStandard (p : Primitives) : Type 0 where
  pub ctr_length : (k iv s : Bytes) → length (p.ctr_xor k iv s) ≡ length s
  pub ctr_twice : (k iv s : Bytes) → p.ctr_xor k iv (p.ctr_xor k iv s) ≡ s
  pub sum_length : (m k : Bytes) → length (p.poly1305_sum m k) ≡ 16
  pub verify_iff :
      (tag m k : Bytes) → (p.poly1305_verify tag m k ≡ true) ↔ (tag ≡ p.poly1305_sum m k)

pub record MacKey : Type 0 where
  pub k : Bytes
  pub r : Bytes

pub record Key : Type 0 where
  pub mac : MacKey
  pub encryption : Bytes

-- The panics of Seal and Open, then the errors of Open.
pub data Failure : Type 0 where
  panic_key panic_additional_data panic_nonce_length panic_nonce : Failure
  invalid_key invalid_nonce too_short unauthenticated : Failure

some_nonzero : Bytes → Bool
some_nonzero [] = false
some_nonzero (b ∷ bs) = if not (b == 0) then true else some_nonzero bs

-- MACKey.Valid
mac_key_valid : MacKey → Bool
unfolding some_nonzero
mac_key_valid m = if not (some_nonzero m.k) then false else some_nonzero m.r

-- EncryptionKey.Valid, and Key.Valid
encryption_key_valid : Bytes → Bool
unfolding some_nonzero
encryption_key_valid = some_nonzero

unfoldable pub key_valid : Key → Bool
unfolding encryption_key_valid mac_key_valid
key_valid k = encryption_key_valid k.encryption && mac_key_valid k.mac

or_all : ℕ → Bytes → ℕ
or_all sum [] = sum
or_all sum (b ∷ bs) = or_all (bit_or sum b) bs

unfoldable pub valid_nonce : Bytes → Bool
unfolding or_all
valid_nonce nonce = ltb 0 (or_all 0 nonce)

-- copy(m[:], mac) fills an array of 16 zero bytes.
mac_array : Bytes → Bytes
mac_array mac = take mac_size (mac ++ replicate (mac_size - length mac) 0)

module _ (p : Primitives) where
  -- r || AES_k(nonce)
  poly1305_prepare_key : Bytes → MacKey → Bytes
  poly1305_prepare_key nonce key = key.r ++ p.aes_encrypt key.k nonce

  poly1305_mac : Bytes → Bytes → MacKey → Bytes
  unfolding poly1305_prepare_key
  poly1305_mac msg nonce key = p.poly1305_sum msg (poly1305_prepare_key nonce key)

  poly1305_verify : Bytes → Bytes → MacKey → Bytes → Bool
  unfolding poly1305_prepare_key mac_array
  poly1305_verify msg nonce key mac =
      p.poly1305_verify (mac_array mac) msg (poly1305_prepare_key nonce key)

  -- Seal returns dst followed by ciphertext and tag.
  unfoldable pub seal : Key → Bytes → Bytes → Bytes → Bytes → Result Failure Bytes
  unfolding poly1305_mac
  seal k dst nonce plaintext additional_data =
      if not (key_valid k)
      then err panic_key
      else if ltb 0 (length additional_data)
      then err panic_additional_data
      else if not (length nonce == iv_size)
      then err panic_nonce_length
      else if not (valid_nonce nonce)
      then err panic_nonce
      else (let c = p.ctr_xor k.encryption nonce plaintext in
          ok (dst ++ (c ++ poly1305_mac c nonce k.mac)))

  unfoldable pub open_sealed : Key → Bytes → Bytes → Bytes → Result Failure Bytes
  unfolding poly1305_verify
  open_sealed k dst nonce ciphertext =
      if not (key_valid k)
      then err invalid_key
      else if not (length nonce == iv_size)
      then err panic_nonce_length
      else if not (valid_nonce nonce)
      then err invalid_nonce
      else if ltb (length ciphertext) mac_size
      then err too_short
      else (let l = length ciphertext - mac_size in
          let ct = take l ciphertext in
          let mac = drop l ciphertext in
          if not (poly1305_verify ct nonce k.mac mac)
          then err unauthenticated
          else ok (dst ++ p.ctr_xor k.encryption nonce ct))
