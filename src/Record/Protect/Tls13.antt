-- ===== src/Record/Protect/Tls13.antt =====
-- A TLS 1.3 record comes back as it was sent.
use goktls.Base.{
  ℕ, ◌+◌, ◌-◌, ◌^◌, ◌≤◌, ◌≡◌, ◌≢◌, List, [], ◌∷◌, ◌++◌, Option, none, some, arith, length,
  length-append,
}
use goktls.Cipher.{Aead, Ops, aead, xor_nonce, inner_nonce}
use goktls.Protocol.{version_tls13, record_type_application_data}
use goktls.Record.HalfConn.{HalfConn}
use goktls.Record.Protect.ContentType.{find_content_type-padded}
use goktls.Record.Protect.{
  ok, uint16_be, aead_seal, encrypt_aead, encrypt, open_aead, inner_plaintext, decrypt,
}
use goktls.Record.Seq.{IsSeq, value, inc_seq-value}

-- What the library's AEADs promise: Open gives back what Seal was given, under the same key, nonce
-- and additional data, and Seal adds its overhead.
pub record AeadLaws (ops : Ops) : Type 0 where
  pub unseal-seal :
      (h : ℕ) (nonce plaintext ad : List ℕ)
      → ops.unseal h nonce (ops.seal h nonce plaintext ad) ad ≡ some plaintext
  pub length-seal :
      (h : ℕ) (nonce plaintext ad : List ℕ)
      → length (ops.seal h nonce plaintext ad) ≡ length plaintext + ops.overhead h

-- The content type that stands behind the content is found, in a plaintext of the allowed size.
inner_plaintext-lem :
    (payload : List ℕ) (typ : ℕ)
    → typ ≢ 0
    → length payload ≤ 16384
    → inner_plaintext version_tls13 record_type_application_data (payload ++ typ ∷ [])
      ≡ ok (payload, typ)
unfolding inner_plaintext
inner_plaintext-lem payload typ h bound =
    ground (arith, length-append payload (typ ∷ []), find_content_type-padded payload typ 0 h)

module _ (ops : Ops) (laws : AeadLaws ops) (rand : ℕ → Option (List ℕ)) (hc : HalfConn) (a : Aead)
    (is_aead : hc.cipher ≡ aead a) (tls13 : hc.version ≡ version_tls13) (no_mac : hc.mac ≡ none)
    (seq_ok : IsSeq hc.seq) (not_last : value hc.seq ≢ 2 ^ 64 - 1) where
  -- On a TLS 1.3 state whose cipher is an AEAD that masks its nonce, with no MAC and an eight-byte
  -- sequence number below 2^64 - 1, and for AEADs that keep to their laws: what encrypt makes of a
  -- payload of at most 2^14 bytes and of a header of five bytes with a type that is not zero,
  -- decrypt on the same state gives back with its type, and both end in the same next state, whose
  -- sequence number is one higher.
  pub decrypt-encrypt_tls13 :
      (typ v1 v2 l1 l2 : ℕ) (payload : List ℕ)
      → a.form ≡ xor_nonce
      → typ ≢ 0
      → length payload ≤ 16384
      → (rec : List ℕ) × (hc' : HalfConn) × (encrypt ops rand hc
            (typ ∷ v1 ∷ v2 ∷ l1 ∷ l2 ∷ [])
            payload
          ≡ ok (rec, hc'))
        × (decrypt ops hc rec ≡ ok (record { plaintext = payload; typ = typ; state = hc' }))
        × (value hc'.seq ≡ value hc.seq + 1)
  unfolding encrypt decrypt encrypt_aead open_aead
  decrypt-encrypt_tls13 typ v1 v2 l1 l2 payload form typ_ok bound =
      let (seq', next, counted, _) = inc_seq-value hc.seq seq_ok not_last in
      let header : List ℕ = 23 ∷ v1 ∷ v2 ∷ uint16_be (length payload + 1 + ops.overhead a.handle) in
      let sealed : List ℕ = aead_seal ops a hc.seq (payload ++ typ ∷ []) header in
      let sealed_length =
        laws.length-seal a.handle (inner_nonce a hc.seq) (payload ++ typ ∷ []) header in
      let plain_length = length-append payload (typ ∷ []) in
      let opened = laws.unseal-seal a.handle (inner_nonce a hc.seq) (payload ++ typ ∷ []) header in
      let inner = inner_plaintext-lem payload typ typ_ok bound in
      (
        header ++ sealed,
        record hc { seq = seq' },
        ground (arith, sealed_length, plain_length),
        rw (tls13, is_aead, form) (ground (arith, opened, inner)),
        counted,
      )
