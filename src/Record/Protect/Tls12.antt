-- ===== src/Record/Protect/Tls12.antt =====
-- An AEAD record of TLS 1.2 comes back as it was sent.
use goktls.Base.{
  ℕ, ◌+◌, ◌-◌, ◌%◌, ◌^◌, ◌≤◌, ◌≡◌, ◌≢◌, ◌∙◌, refl, ap, sym, false, List, [], ◌∷◌, ◌++◌, Option,
  none, arith, length, take, drop, length-append, ◌==◌, ltb, take_of_length-le, append_assoc,
  take-length-append, drop-length-append,
}
use goktls.Cipher.{Aead, Ops, aead, prefix_nonce, inner_nonce}
use goktls.Protocol.{version_tls13}
use goktls.Record.HalfConn.{HalfConn}
use goktls.Record.Protect.Tls13.{AeadLaws}
use goktls.Record.Protect.{
  ok, uint16_be, aead_seal, open_aead, encrypt_aead, encrypt, decrypt, nonce_or_seq,
  inner_plaintext,
}
use goktls.Record.Seq.{IsSeq, value, inc_seq-value}

nonce_or_seq_self : (seq : List ℕ) → nonce_or_seq seq seq ≡ seq
nonce_or_seq_self [] = refl
nonce_or_seq_self (b ∷ bs) = refl

module _ (ops : Ops) (laws : AeadLaws ops) (rand : ℕ → Option (List ℕ)) (hc : HalfConn) (a : Aead)
    (is_aead : hc.cipher ≡ aead a) (older : hc.version ≢ version_tls13) (no_mac : hc.mac ≡ none)
    (seq_ok : IsSeq hc.seq) (not_last : value hc.seq ≢ 2 ^ 64 - 1) where
  older_test : (hc.version == version_tls13) ≡ false
  older_test = ground arith

  inner_older :
      (typ : ℕ) (payload : List ℕ) → inner_plaintext hc.version typ payload ≡ ok (payload, typ)
  unfolding inner_plaintext
  inner_older typ payload = rw older_test

  -- The record's body opened: the explicit nonce is taken off, and the length in the additional data
  -- is again that of the payload.
  open_explicit :
      (typ v1 v2 : ℕ) (payload size : List ℕ)
      → length payload ≤ 16384
      → ops.overhead a.handle ≤ 2 ^ 16
      → let sealed =
          aead_seal ops a hc.seq payload (hc.seq ++ typ ∷ v1 ∷ v2 ∷ uint16_be (length payload)) in
        open_aead ops hc a 8 ((typ ∷ v1 ∷ v2 ∷ size) ++ (hc.seq ++ sealed)) (hc.seq ++ sealed)
        ≡ ok (record {
          payload = sealed;
          plaintext = payload;
          padding_len = 0;
          padding_good = 255;
          cipher = hc.cipher;
        })
  unfolding open_aead
  open_explicit typ v1 v2 payload size bound small =
      let ad : List ℕ = hc.seq ++ typ ∷ v1 ∷ v2 ∷ uint16_be (length payload) in
      let sealed : List ℕ = aead_seal ops a hc.seq payload ad in
      let sealed_length = laws.length-seal a.handle (inner_nonce a hc.seq) payload ad in
      let opened = laws.unseal-seal a.handle (inner_nonce a hc.seq) payload ad in
      let front : take 8 (hc.seq ++ sealed) ≡ hc.seq =
        ap (λ (n : ℕ). take n (hc.seq ++ sealed)) (sym seq_ok.size)
        ∙ take-length-append hc.seq sealed in
      let back : drop 8 (hc.seq ++ sealed) ≡ sealed =
        ap (λ (n : ℕ). drop n (hc.seq ++ sealed)) (sym seq_ok.size)
        ∙ drop-length-append hc.seq sealed in
      let long : ltb (length (hc.seq ++ sealed)) 8 ≡ false =
        ground (arith, length-append hc.seq sealed, seq_ok.size) in
      let restored : (length sealed + 2 ^ 16 - ops.overhead a.handle) % 2 ^ 16 ≡ length payload =
        omega (arith, sealed_length) in
      rw
        (
          long,
          front,
          back,
          nonce_or_seq_self hc.seq,
          older_test,
          restored,
          append_assoc hc.seq (typ ∷ v1 ∷ v2 ∷ []) (uint16_be (length payload)),
          opened,
        )
        (rw back refl)

  -- On a state of another version than TLS 1.3 whose cipher is an AEAD that sends its nonce, with
  -- no MAC, an overhead of at most 2^16 and an eight-byte sequence number below 2^64 - 1, and for
  -- AEADs that keep to their laws: what encrypt makes of a payload of at most 2^14 bytes and of
  -- its header, with the payload's length in it, decrypt on the same state gives back with its
  -- type, and both end in the same next state, whose sequence number is one higher.
  pub decrypt-encrypt_tls12_explicit :
      (typ v1 v2 : ℕ) (payload : List ℕ)
      → a.form ≡ prefix_nonce
      → length payload ≤ 16384
      → ops.overhead a.handle ≤ 2 ^ 16
      → (rec : List ℕ) × (hc' : HalfConn) × (encrypt ops rand hc
            (typ ∷ v1 ∷ v2 ∷ uint16_be (length payload))
            payload
          ≡ ok (rec, hc'))
        × (decrypt ops hc rec ≡ ok (record { plaintext = payload; typ = typ; state = hc' }))
        × (value hc'.seq ≡ value hc.seq + 1)
  unfolding encrypt decrypt encrypt_aead
  decrypt-encrypt_tls12_explicit typ v1 v2 payload form bound small =
      let (seq', next, counted, _) = inc_seq-value hc.seq seq_ok not_last in
      let header : List ℕ = typ ∷ v1 ∷ v2 ∷ uint16_be (length payload) in
      let ad : List ℕ = hc.seq ++ header in
      let sealed : List ℕ = aead_seal ops a hc.seq payload ad in
      let sealed_length = laws.length-seal a.handle (inner_nonce a hc.seq) payload ad in
      let opened = laws.unseal-seal a.handle (inner_nonce a hc.seq) payload ad in
      let whole = take_of_length-le 8 hc.seq (omega (arith, seq_ok.size)) in
      let body : List ℕ = hc.seq ++ sealed in
      let own = nonce_or_seq_self hc.seq in
      (
        (typ ∷ v1 ∷ v2 ∷ uint16_be (length body)) ++ body,
        record hc { seq = seq' },
        rw (is_aead, form, whole, older_test, next, own) (ground arith),
        (ground (
          arith,
          older_test,
          inner_older typ payload,
          open_explicit typ v1 v2 payload (uint16_be (length body)) bound small,
        )),
        counted,
      )
