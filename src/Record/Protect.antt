-- ===== src/Record/Protect.antt =====
-- The protection of a record: encrypt and decrypt of conn.go, tls10MAC of cipher_suites.go. A
-- record is its bytes, the five of the header first.
pub mod Alerts
pub mod Values
pub mod Pending
pub mod Block
pub mod ContentType
pub mod Tls13
pub mod Tls12
use goktls.Base.{
  ℕ, ◌+◌, ◌-◌, ◌*◌, ◌/◌, ◌%◌, ◌^◌, Bool, true, false, not, ◌&&◌, ◌||◌, List, [], ◌∷◌, ◌++◌, Option,
  none, some, leb, ltb, ◌==◌, if◌then◌else◌, zero, suc, length, take, drop, get_or, replicate,
  bytes_eq,
}
use goktls.Cipher.{
  Cipher, Aead, Cbc, Ops, absent, stream, aead, cbc, ktls, inner_nonce, aead_explicit_nonce_len,
}
use goktls.Record.HalfConn.{HalfConn, explicit_nonce_len, is_absent}
use goktls.Record.Padding.{extract_padding, round_up}
use goktls.Record.Seq.{inc_seq}
use goktls.Protocol.{
  version_tls13, max_plaintext, record_header_len, record_type_change_cipher_spec,
  record_type_application_data, alert_bad_record_mac, alert_unexpected_message,
  alert_record_overflow,
}

-- How a call ends: with a value, an alert as the error, another error, or a panic.
pub data Result {ℓ} (A : Type ℓ) : Type ℓ where
  ok : A → Result A
  alert : ℕ → Result A
  io_error : ℕ → Result A
  panic : Result A

infixl 5 ◌>>=◌
abbrev pub ◌>>=◌ {ℓ κ} : {A : Type ℓ} {B : Type κ} → Result A → (A → Result B) → Result B
ok a >>= f = f a
alert n >>= f = alert n
io_error n >>= f = io_error n
panic >>= f = panic

-- A nil dereference or an explicit panic.
abbrev pub or_panic {ℓ} : {A : Type ℓ} → Option A → Result A
or_panic none = panic
or_panic (some a) = ok a

-- byte(n>>8), byte(n).
abbrev pub uint16_be : ℕ → List ℕ
uint16_be n = n / 256 % 256 ∷ n % 256 ∷ []

-- `record[3] = byte(n >> 8); record[4] = byte(n)`.
abbrev pub set_length : List ℕ → ℕ → List ℕ
set_length rec n = (take 3 rec ++ uint16_be n) ++ drop 5 rec

-- incSeq at the end of both functions.
abbrev advance : HalfConn → Result HalfConn
advance hc = do seq ← or_panic (inc_seq hc.seq); ok (record hc { seq = seq })

-- The nonce is the explicit one, or the sequence number.
abbrev pub nonce_or_seq : List ℕ → List ℕ → List ℕ
nonce_or_seq [] seq = seq
nonce_or_seq (b ∷ bs) seq = b ∷ bs

abbrev random_nonce : (ℕ → Option (List ℕ)) → ℕ → Result (List ℕ)
random_nonce rand n = elim (rand n) [ none ↦ io_error 0 | some bytes ↦ ok bytes ]

-- The explicit nonce of a record to be sent: the sequence number for AEADs with less than 16
-- bytes of it, else random bytes. `rand` is io.ReadFull on the random source.
explicit_nonce : (ℕ → Option (List ℕ)) → HalfConn → ℕ → Result (List ℕ)
explicit_nonce rand hc n = elim hc.cipher [
  | cbc c ↦ random_nonce rand n
  | _ ↦ if ltb n 16 then ok (take n hc.seq) else random_nonce rand n
]

module _ (ops : Ops) where
  -- tls10MAC without its extra data, which does not change the result.
  abbrev pub tls10_mac : ℕ → List ℕ → List ℕ → List ℕ → List ℕ
  tls10_mac h seq header payload = ops.mac h ((seq ++ header) ++ payload)

  -- Seal of prefixNonceAEAD and of xorNonceAEAD, and Open.
  abbrev pub aead_seal : Aead → List ℕ → List ℕ → List ℕ → List ℕ
  aead_seal a nonce plaintext ad = ops.seal a.handle (inner_nonce a nonce) plaintext ad

  abbrev pub aead_open : Aead → List ℕ → List ℕ → List ℕ → Option (List ℕ)
  aead_open a nonce ciphertext ad = ops.unseal a.handle (inner_nonce a nonce) ciphertext ad

  -- The AEAD case of encrypt, with the header and the explicit nonce in `rec`.
  pub encrypt_aead : HalfConn → Aead → List ℕ → List ℕ → List ℕ → List ℕ
  encrypt_aead hc a rec nonce payload =
      if hc.version == version_tls13
      then (let header =
            record_type_application_data
            ∷ (take 2 (drop 1 rec) ++ uint16_be (length payload + 1 + ops.overhead a.handle)) in
          header ++ aead_seal a nonce ((drop 5 rec ++ payload) ++ get_or rec 0 0 ∷ []) header)
      else rec ++ aead_seal a nonce payload (hc.seq ++ take 5 rec)

  -- The CBC case: payload, MAC and padding, encrypted behind the header and the explicit nonce.
  pub encrypt_cbc : HalfConn → Cbc → ℕ → List ℕ → List ℕ → List ℕ → List ℕ × HalfConn
  encrypt_cbc hc c mac rec nonce payload =
      let digest = tls10_mac mac hc.seq (take 5 rec) payload in
      let plaintext_len = length payload + length digest in
      let padding_len = c.block_size - plaintext_len % c.block_size in
      let handle = if length nonce == 0 then c.handle else ops.set_iv c.handle nonce in
      let (dst, handle') =
        ops.crypt_blocks handle
          ((payload ++ digest) ++ replicate padding_len ((padding_len - 1) % 256)) in
      (rec ++ dst, record hc { cipher = cbc (record c { handle = handle' }) })

  -- The stream case: the keystream runs over the payload, then over the MAC.
  pub encrypt_stream : HalfConn → ℕ → ℕ → List ℕ → List ℕ → List ℕ × HalfConn
  encrypt_stream hc h mac rec payload =
      let digest = tls10_mac mac hc.seq (take 5 rec) payload in
      let (body, h') = ops.xor_key_stream h payload in
      let (tail, h'') = ops.xor_key_stream h' digest in
      ((rec ++ body) ++ tail, record hc { cipher = stream h'' })

  encrypt_body : HalfConn → List ℕ → List ℕ → List ℕ → Result (List ℕ × HalfConn)
  encrypt_body hc rec nonce payload = elim hc.cipher [
    | absent ↦ panic
    | stream h ↦ or_panic hc.mac >>= λ mac. ok (encrypt_stream hc h mac rec payload)
    | aead a ↦ ok (encrypt_aead hc a rec (nonce_or_seq nonce hc.seq) payload, hc)
    | cbc c ↦ or_panic hc.mac >>= λ mac. ok (encrypt_cbc hc c mac rec nonce payload)
    | ktls ↦ panic
  ]

  -- encrypt: the record, whose header stands in `header`, and the state after it. A connection
  -- without a cipher keeps its sequence number.
  unfoldable pub encrypt :
      (ℕ → Option (List ℕ)) → HalfConn → List ℕ → List ℕ → Result (List ℕ × HalfConn)
  unfolding explicit_nonce encrypt_body explicit_nonce_len
  encrypt rand hc header payload = elim hc.cipher [
    | absent ↦ ok (header ++ payload, hc)
    | _ ↦ do
      n ← or_panic (explicit_nonce_len hc)
      nonce ← if n == 0 then ok [] else explicit_nonce rand hc n
      (protected, hc') ← encrypt_body hc (header ++ nonce) nonce payload
      hc'' ← advance hc'
      ok (set_length protected (length protected - record_header_len), hc'')
  ]

-- What decrypt returns: the plaintext, the type of the record, and the state.
pub record Decrypted : Type 0 where
  pub plaintext : List ℕ
  pub typ : ℕ
  pub state : HalfConn

-- The loop of TLS 1.3 that looks for the content type from the end on; `none` is the alert for a
-- plaintext of zeros alone.
pub find_content_type : List ℕ → ℕ → Option (List ℕ × ℕ)
find_content_type plaintext zero = none
find_content_type plaintext (suc i) =
    let rest = find_content_type plaintext i in
    if not (get_or plaintext i 0 == 0) then some (take i plaintext, get_or plaintext i 0) else rest

-- The checks that follow the opening of a record, in TLS 1.3. An empty plaintext has no loop to run,
-- and its record keeps the outer type.
pub inner_plaintext : ℕ → ℕ → List ℕ → Result (List ℕ × ℕ)
unfolding find_content_type
inner_plaintext version typ plaintext =
    if not (version == version_tls13)
    then ok (plaintext, typ)
    else if not (typ == record_type_application_data)
    then alert alert_unexpected_message
    else if ltb (max_plaintext + 1) (length plaintext)
    then alert alert_record_overflow
    else if length plaintext == 0
    then ok (plaintext, typ)
    else elim (find_content_type plaintext (length plaintext)) [
      | none ↦ alert alert_unexpected_message
      | some (content, inner) ↦ ok (content, inner)
    ]

-- What the cipher leaves for the MAC: the payload, the plaintext, the padding's length and flag, and
-- the cipher's next state.
pub record Opened : Type 0 where
  pub payload : List ℕ
  pub plaintext : List ℕ
  pub padding_len : ℕ
  pub padding_good : ℕ
  pub cipher : Cipher

module _ (ops : Ops) where
  -- The AEAD case of decrypt, on the record and its payload.
  pub open_aead : HalfConn → Aead → ℕ → List ℕ → List ℕ → Result Opened
  open_aead hc a nonce_len rec payload =
      if ltb (length payload) nonce_len
      then alert alert_bad_record_mac
      else (let nonce = nonce_or_seq (take nonce_len payload) hc.seq in
          let body = drop nonce_len payload in
          let n = (length body + 2 ^ 16 - ops.overhead a.handle) % 2 ^ 16 in
          let ad =
            if hc.version == version_tls13
            then take 5 rec
            else (hc.seq ++ take 3 rec) ++ uint16_be n in
          elim (aead_open ops a nonce body ad) [
            | none ↦ alert alert_bad_record_mac
            | some plaintext ↦ ok (record {
              payload = body;
              plaintext = plaintext;
              padding_len = 0;
              padding_good = 255;
              cipher = hc.cipher;
            })
          ])

  -- The CBC case.
  pub open_cbc : HalfConn → Cbc → ℕ → ℕ → List ℕ → Result Opened
  open_cbc hc c mac nonce_len payload =
      let min_payload = nonce_len + round_up (ops.mac_size mac + 1) c.block_size in
      if not (length payload % c.block_size == 0) || ltb (length payload) min_payload
      then alert alert_bad_record_mac
      else (let handle =
            if nonce_len == 0 then c.handle else ops.set_iv c.handle (take nonce_len payload) in
          let (body, handle') = ops.crypt_blocks handle (drop nonce_len payload) in
          let (padding_len, padding_good) = extract_padding body in
          ok (record {
            payload = body;
            plaintext = [];
            padding_len = padding_len;
            padding_good = padding_good;
            cipher = cbc (record c { handle = handle' });
          }))

  open_body : HalfConn → ℕ → List ℕ → List ℕ → Result Opened
  open_body hc nonce_len rec payload = elim hc.cipher [
    | absent ↦ ok (record {
      payload = payload;
      plaintext = payload;
      padding_len = 0;
      padding_good = 255;
      cipher = absent;
    })
    | stream h ↦ ok (record {
      payload = (ops.xor_key_stream h payload).0;
      plaintext = [];
      padding_len = 0;
      padding_good = 255;
      cipher = stream (ops.xor_key_stream h payload).1;
    })
    | aead a ↦ open_aead hc a nonce_len rec payload
    | cbc c ↦ or_panic hc.mac >>= λ mac. open_cbc hc c mac nonce_len payload
    | ktls ↦ panic
  ]

  -- The check of the MAC, with the padding's flag: the plaintext in front of both.
  check_mac : HalfConn → Option ℕ → List ℕ → Opened → List ℕ → Result (List ℕ)
  check_mac hc none rec o plaintext = ok plaintext
  check_mac hc (some mac) rec o plaintext =
      let size = ops.mac_size mac in
      if ltb (length o.payload) size
      then alert alert_bad_record_mac
      else (let n = length o.payload - size - o.padding_len in
          let remote = take size (drop n o.payload) in
          let local = tls10_mac ops mac hc.seq (take 3 rec ++ uint16_be n) (take n o.payload) in
          if bytes_eq local remote && not (o.padding_good == 0)
          then ok (take n o.payload)
          else alert alert_bad_record_mac)

  -- decrypt.
  unfoldable pub decrypt : HalfConn → List ℕ → Result Decrypted
  unfolding open_body check_mac explicit_nonce_len
  decrypt hc rec =
      let typ = get_or rec 0 0 in
      let payload = drop record_header_len rec in
      if (hc.version == version_tls13) && (typ == record_type_change_cipher_spec)
      then ok (record { plaintext = payload; typ = typ; state = hc })
      else do
        nonce_len ← or_panic (explicit_nonce_len hc)
        o ← open_body hc nonce_len rec payload
        (plaintext, typ') ←
            if is_absent hc.cipher
            then ok (o.plaintext, typ)
            else inner_plaintext hc.version typ o.plaintext
        plaintext' ← check_mac hc hc.mac rec o plaintext
        hc' ← advance (record hc { cipher = o.cipher })
        ok (record { plaintext = plaintext'; typ = typ'; state = hc' })
