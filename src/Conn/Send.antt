-- ===== src/Conn/Send.antt =====
-- Sending records: maxPayloadSizeForWrite, write, flush, writeRecordLocked and sendAlertLocked of
-- conn.go, and the errors that they leave behind.
pub mod Fragments
pub mod Plain
pub mod Room
use goktls.Base.{
  ℕ, zero, suc, ◌+◌, ◌-◌, ◌*◌, ◌/◌, ◌%◌, Bool, true, false, not, ◌&&◌, ◌||◌, List, [], ◌∷◌, ◌++◌,
  Option, none, some, leb, ltb, ◌==◌, if◌then◌else◌, length, take, drop,
}
use goktls.Cipher.{Cipher, Ops, absent, stream, aead, cbc, ktls, is_ktls}
use goktls.Conn.{Conn, Sent, bytes, control, Network, Outcome, returns, panics}
use goktls.Protocol.{
  version_tls10, version_tls12, version_tls13, max_plaintext, record_header_len,
  record_type_change_cipher_spec, record_type_alert, record_type_handshake,
  record_type_application_data, alert_level_warning, alert_level_error, alert_close_notify,
  alert_no_renegotiation,
}
use goktls.Record.HalfConn.{
  HalfConn, ConnError, op_local, alert, message, set_error, change_cipher_spec, explicit_nonce_len,
}
use goktls.Record.Protect.{Result, uint16_be, encrypt}

abbrev pub tcp_mss_estimate : ℕ
tcp_mss_estimate = 1208

abbrev pub record_size_boost_threshold : ℕ
record_size_boost_threshold = 131072

-- The MAC's size; a nil MAC panics.
abbrev mac_size : Ops → HalfConn → Option ℕ
mac_size ops hc = elim hc.mac [ none ↦ none | some h ↦ some (ops.mac_size h) ]

-- payloadBytes: what is left of a TCP segment for the payload; `none` is a panic. A block size is a
-- power of two, so that `& ^(blockSize - 1)` rounds down to a multiple of it. No cipher suite has an
-- overhead near 1208 bytes, below which the int of the code would be negative.
unfoldable pub payload_bytes : Ops → HalfConn → ℕ → Option ℕ
payload_bytes ops hc vers =
    let inner = if vers == version_tls13 then 1 else 0 in
    elim (explicit_nonce_len hc) [
      | none ↦ none
      | some nonce ↦
          let room = tcp_mss_estimate - record_header_len - nonce in
          elim hc.cipher [
            | absent ↦ some (room - inner)
            | stream h ↦ elim (mac_size ops hc) [ none ↦ none | some m ↦ some (room - m - inner) ]
            | aead a ↦ some (room - ops.overhead a.handle - inner)
            | cbc c ↦ elim (mac_size ops hc) [
              | none ↦ none
              | some m ↦ some (room / c.block_size * c.block_size - 1 - m - inner)
            ]
            | ktls ↦ none
          ]
    ]

-- maxPayloadSizeForWrite; `none` is a panic.
unfoldable pub max_payload_size_for_write : Ops → Conn → ℕ → Option (ℕ × Conn)
max_payload_size_for_write ops c typ =
    if c.dynamic_record_sizing_disabled || not (typ == record_type_application_data)
    then some (max_plaintext, c)
    else if leb record_size_boost_threshold c.bytes_sent
    then some (max_plaintext, c)
    else elim (payload_bytes ops c.out c.vers) [
      | none ↦ none
      | some payload ↦
          let c' = record c { packets_sent = c.packets_sent + 1 } in
          if ltb 1000 c.packets_sent
          then some (max_plaintext, c')
          else if ltb max_plaintext (payload * (c.packets_sent + 1))
          then some (max_plaintext, c')
          else some (payload * (c.packets_sent + 1), c')
    ]

-- write: with buffering the bytes wait in sendBuf.
unfoldable pub write : Network → Conn → List ℕ → ℕ × Option ConnError × Conn
write net c block =
    if c.buffering
    then (length block, none, record c { send_buf = c.send_buf ++ block })
    else (let (n, e) = net.write_answer c.sent block in
        (n, e, record c { sent = bytes block ∷ c.sent; bytes_sent = c.bytes_sent + n }))

-- flush.
unfoldable pub flush : Network → Conn → ℕ × Option ConnError × Conn
flush net c = elim c.send_buf [
  | [] ↦ (0, none, c)
  | b ∷ bs ↦
      let (n, e) = net.write_answer c.sent (b ∷ bs) in
      (
        n,
        e,
        record c {
          sent = bytes (b ∷ bs) ∷ c.sent;
          bytes_sent = c.bytes_sent + n;
          send_buf = [];
          buffering = false;
        },
      )
]

-- The version in the header.
abbrev pub record_version : ℕ → ℕ
record_version vers =
    if vers == 0 then version_tls10 else if vers == version_tls13 then version_tls12 else vers

abbrev pub header_of : ℕ → ℕ → ℕ → List ℕ
header_of typ vers m = typ ∷ (uint16_be (record_version vers) ++ uint16_be m)

-- What writeRecordLocked returns: a number of bytes and an error.
abbrev pub WriteResult : Type 0
WriteResult = Outcome (ℕ × Option ConnError)

module _ (ops : Ops) (net : Network) where
  -- One round of the loop over the data: a record of at most `max` bytes of payload.
  unfoldable pub send_fragment : Conn → ℕ → List ℕ → Outcome (Option ConnError)
  send_fragment c typ payload =
      elim (encrypt ops net.rand c.out (header_of typ c.vers (length payload)) payload) [
        | Result.ok (block, out) ↦
            let (n, e, c') = write net (record c { out = out }) block in returns e c'
        | Result.alert a ↦ returns (some (alert a)) c
        | Result.io_error n ↦ returns (some (message n)) c
        | Result.panic ↦ panics
      ]

  -- The loop `for len(data) > 0`, with the bytes written so far. The fuel is the number of rounds
  -- left, and `none` says that it is spent.
  unfoldable pub send_fragments : ℕ → Conn → ℕ → List ℕ → ℕ → Option WriteResult
  send_fragments fuel c typ [] n = some (returns (n, none) c)
  send_fragments zero c typ (b ∷ bs) n = none
  send_fragments (suc fuel) c typ (b ∷ bs) n = elim (max_payload_size_for_write ops c typ) [
    | none ↦ some panics
    | some (max, c') ↦
        let payload = take max (b ∷ bs) in
        elim (send_fragment c' typ payload) [
          | panics ↦ some panics
          | returns (some e) c'' ↦ some (returns (n, some e) c'')
          | returns none c'' ↦ send_fragments fuel c'' typ (drop max (b ∷ bs)) (n + length payload)
        ]
  ]

  -- The loop with one round for each byte. It spends that fuel only where no payload fits into a
  -- record, and the loop of the code has no end; such a call does not return, as one that panics.
  unfoldable pub send_data : Conn → ℕ → List ℕ → WriteResult
  unfolding send_fragments
  send_data c typ block = elim (send_fragments (length block) c typ block 0) [
    | none ↦ panics
    | some r ↦ r
  ]

  -- The part of writeRecordLocked for the kernel's cipher.
  unfoldable pub send_ktls : Conn → ℕ → List ℕ → WriteResult
  send_ktls c typ block =
      if ((typ == record_type_alert) || (typ == record_type_handshake))
        || (typ == record_type_change_cipher_spec)
      then returns (net.control_answer c.sent typ block)
          (record c { sent = control typ block ∷ c.sent })
      else if typ == record_type_application_data
      then (let (n, e, c') = write net c block in returns (n, e) c')
      else panics

  -- writeRecordLocked without the change of the cipher at its end.
  unfoldable pub send_record : Conn → ℕ → List ℕ → WriteResult
  send_record c typ block =
      if is_ktls c.out.cipher then send_ktls c typ block else send_data c typ block

  abbrev alert_level : ℕ → ℕ
  alert_level a =
      if (a == alert_no_renegotiation) || (a == alert_close_notify)
      then alert_level_warning
      else alert_level_error

  -- sendAlertLocked. An alert is no ChangeCipherSpec, so send_record is all of writeRecordLocked.
  unfoldable pub send_alert_locked : Conn → ℕ → Outcome (Option ConnError)
  send_alert_locked c a = elim (send_record c record_type_alert (alert_level a ∷ a ∷ [])) [
    | panics ↦ panics
    | returns (n, e) c' ↦
        if a == alert_close_notify
        then returns e c'
        else (let (out, kept) = set_error c'.out (some (op_local a)) in
            returns kept (record c' { out = out }))
  ]

  -- The error of changeCipherSpec is sent as the alert that it is.
  report_change : ℕ → Conn → Option ConnError → WriteResult
  unfolding send_alert_locked
  report_change n c none = returns (n, none) c
  report_change n c (some (alert a)) = elim (send_alert_locked c a) [
    | panics ↦ panics
    | returns e c' ↦ returns (n, e) c'
  ]
  report_change n c (some _) = panics

  -- The end of writeRecordLocked: a ChangeCipherSpec before TLS 1.3 changes the cipher.
  unfoldable pub change_after_send : ℕ → ℕ → Conn → WriteResult
  unfolding report_change
  change_after_send typ n c =
      if (typ == record_type_change_cipher_spec) && not (c.vers == version_tls13)
      then report_change n (record c { out = (change_cipher_spec c.out).0 })
          (change_cipher_spec c.out).1
      else returns (n, none) c

  -- writeRecordLocked: the number of bytes and the error.
  unfoldable pub write_record_locked : Conn → ℕ → List ℕ → WriteResult
  write_record_locked c typ block =
      if is_ktls c.out.cipher then send_ktls c typ block else elim (send_data c typ block) [
        | panics ↦ panics
        | returns (n, some e) c' ↦ returns (n, some e) c'
        | returns (n, none) c' ↦ change_after_send typ n c'
      ]
