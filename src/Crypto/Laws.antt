-- ===== src/Crypto/Laws.antt =====
-- What sealing and opening promise together.
use restic.Prelude.{
  ◌+◌, ◌-◌, ◌≤◌, ◌≡◌, refl, sym, ◌↔◌, true, [], ◌++◌, arith, length, take, drop, ok, length-append,
  take-append_left, drop-append_left, take-append-drop, ap, length-drop, ◌∙◌,
}
use restic.Blob.{Bytes}
use restic.Crypto.{
  Primitives, IsStandard, MacKey, Key, key_valid, valid_nonce, seal, open_sealed, mac_array,
  poly1305_mac, poly1305_verify, poly1305_prepare_key,
}

mac_array-full : (mac : Bytes) → length mac ≡ 16 → mac_array mac ≡ mac
unfolding mac_array
mac_array-full mac h = take-append_left mac _ 16 (sym h)

module _ (p : Primitives) (std : IsStandard p) where
  length-poly1305_mac :
      (msg nonce : Bytes) (key : MacKey) → length (poly1305_mac p msg nonce key) ≡ 16
  unfolding poly1305_mac
  length-poly1305_mac msg nonce key = std.sum_length msg _

  poly1305_verify_lem :
      (msg nonce mac : Bytes) (key : MacKey)
      → poly1305_verify p msg nonce key mac
        ≡ p.poly1305_verify (mac_array mac) msg (poly1305_prepare_key p nonce key)
  unfolding poly1305_verify
  poly1305_verify_lem msg nonce mac key = refl

  poly1305_verify_iff :
      (msg nonce mac : Bytes) (key : MacKey)
      → length mac ≡ 16
      → (poly1305_verify p msg nonce key mac ≡ true) ↔ (mac ≡ poly1305_mac p msg nonce key)
  poly1305_verify_iff msg nonce mac key h =
      rw (poly1305_verify_lem, mac_array-full mac h)
        (unfold poly1305_mac in std.verify_iff mac msg (poly1305_prepare_key p nonce key))

  -- What a successful Seal returns.
  seal_ok :
      (k : Key) (dst nonce plaintext : Bytes)
      → key_valid k ≡ true
      → length nonce ≡ 16
      → valid_nonce nonce ≡ true
      → seal p k dst nonce plaintext []
        ≡ ok (
            dst
            ++ (p.ctr_xor k.encryption nonce plaintext
                ++ poly1305_mac p (p.ctr_xor k.encryption nonce plaintext) nonce k.mac))
  unfolding seal
  seal_ok k dst nonce plaintext hk hn hv = ground arith

  -- What Open returns on a text that is followed by a tag.
  open_sealed_tag :
      (k : Key) (dst nonce ct mac : Bytes)
      → key_valid k ≡ true
      → length nonce ≡ 16
      → valid_nonce nonce ≡ true
      → mac ≡ poly1305_mac p ct nonce k.mac
      → open_sealed p k dst nonce (ct ++ mac) ≡ ok (dst ++ p.ctr_xor k.encryption nonce ct)
  unfolding open_sealed
  open_sealed_tag k dst nonce ct mac hk hn hv hm =
      let hl : length mac ≡ 16 = rw hm (length-poly1305_mac ct nonce k.mac) in
      let e : length (ct ++ mac) - 16 ≡ length ct = omega (arith, length-append ct mac) in
      ground (
        arith,
        e,
        length-append ct mac,
        take-append_left ct mac (length (ct ++ mac) - 16) e,
        drop-append_left ct mac (length (ct ++ mac) - 16) e,
        (poly1305_verify_iff ct nonce mac k.mac hl).1 hm,
      )

  -- Under a valid key and nonce, Seal appends to dst a ciphertext that is 16 bytes longer than the
  -- text, and Open gives the text back, appended to its own dst.
  pub open_sealed-seal :
      (k : Key) (dst dst' nonce plaintext : Bytes)
      → key_valid k ≡ true
      → length nonce ≡ 16
      → valid_nonce nonce ≡ true
      → (c : Bytes) × (seal p k dst nonce plaintext [] ≡ ok (dst ++ c))
        × (length c ≡ length plaintext + 16)
        × (open_sealed p k dst' nonce c ≡ ok (dst' ++ plaintext))
  open_sealed-seal k dst dst' nonce plaintext hk hn hv =
      let ct = p.ctr_xor k.encryption nonce plaintext in
      let tag = poly1305_mac p ct nonce k.mac in
      (
        ct ++ tag,
        seal_ok k dst nonce plaintext hk hn hv,
        omega (
          arith,
          length-append ct tag,
          std.ctr_length k.encryption nonce plaintext,
          length-poly1305_mac ct nonce k.mac,
        ),
        open_sealed_tag k dst' nonce ct tag hk hn hv refl
            ∙ ap (λ t. ok (dst' ++ t)) (std.ctr_twice k.encryption nonce plaintext),
      )

  -- The guards that a successful Open has passed.
  record Opened (k : Key) (nonce c plaintext : Bytes) : Type 0 where
    key : key_valid k ≡ true
    nonce_length : length nonce ≡ 16
    nonce_valid : valid_nonce nonce ≡ true
    long : 16 ≤ length c
    tag : poly1305_verify p (take (length c - 16) c) nonce k.mac (drop (length c - 16) c) ≡ true
    text : plaintext ≡ p.ctr_xor k.encryption nonce (take (length c - 16) c)

  open_sealed_inv :
      (k : Key) (nonce c plaintext : Bytes)
      → open_sealed p k [] nonce c ≡ ok plaintext
      → Opened k nonce c plaintext
  unfolding open_sealed
  open_sealed_inv k nonce c plaintext h = record {
    key = ground arith;
    nonce_length = ground arith;
    nonce_valid = ground arith;
    long = ground arith;
    tag = ground arith;
    text = ground arith;
  }

  -- Whatever Open accepts is what Seal makes of the text that Open returns: no other ciphertext
  -- passes under the key and the nonce.
  pub seal-open_sealed :
      (k : Key) (nonce c plaintext : Bytes)
      → open_sealed p k [] nonce c ≡ ok plaintext
      → seal p k [] nonce plaintext [] ≡ ok c
  seal-open_sealed k nonce c plaintext h =
      let o = open_sealed_inv k nonce c plaintext h in
      let n = length c - 16 in
      let twice : p.ctr_xor k.encryption nonce plaintext ≡ take n c =
        ap (p.ctr_xor k.encryption nonce) o.text ∙ std.ctr_twice k.encryption nonce (take n c) in
      let tagged : drop n c ≡ poly1305_mac p (take n c) nonce k.mac =
        (poly1305_verify_iff (take n c) nonce (drop n c) k.mac
            (let long = o.long in omega (arith, length-drop n c))).0
          o.tag in
      seal_ok k [] nonce plaintext o.key o.nonce_length o.nonce_valid
      ∙ ap ok (
          ap (λ t. t ++ poly1305_mac p t nonce k.mac) twice
          ∙ ap (λ t. take n c ++ t) (sym tagged)
          ∙ take-append-drop n c)
