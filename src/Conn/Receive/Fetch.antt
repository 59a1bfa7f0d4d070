-- ===== src/Conn/Receive/Fetch.antt =====
-- Getting one record: readFromUntil with its atLeastReader, and the first half of readRecordOrCCS.
use goktls.Base.{
  ℕ, ◌+◌, ◌-◌, ◌*◌, Bool, false, not, ◌&&◌, ◌||◌, List, [], ◌∷◌, ◌++◌, Option, none, some, leb, ltb,
  ◌==◌, if◌then◌else◌, length, take, drop, get_or,
}
use goktls.Cipher.{Ops, is_ktls}
use goktls.Conn.{Conn, Network, Outcome, returns, panics, Arrival, chunk, received, failed}
use goktls.Protocol.{
  version_tls13, max_ciphertext, max_ciphertext_tls13, record_header_len, record_type_alert,
  record_type_handshake, alert_protocol_version, alert_record_overflow,
}
use goktls.Record.HalfConn.{ConnError, eof, unexpected_eof, record_header, net_error, set_error}
use goktls.Record.Protect.{Result, decrypt}
use goktls.Conn.Receive.Errors.{keep, fail_with, warn_and_keep}

-- What atLeastReader makes of a Read's error while bytes are missing, and once none is; an EOF ends
-- ReadFrom without an error.
abbrev early_error : ConnError → ConnError
early_error eof = unexpected_eof
early_error e = e

abbrev late_error : Option ConnError → Option ConnError
late_error none = none
late_error (some eof) = none
late_error (some e) = some e

-- rawInput.ReadFrom(&c.atLeastReader), with `needs` bytes missing.
unfoldable pub read_from : ℕ → List ℕ → List Arrival → List ℕ × Option ConnError × List Arrival
read_from needs raw [] = (raw, some unexpected_eof, [])
read_from needs raw (chunk bytes none ∷ rest) =
    if leb needs (length bytes)
    then (raw ++ bytes, none, rest)
    else read_from (needs - length bytes) (raw ++ bytes) rest
read_from needs raw (chunk bytes (some e) ∷ rest) =
    if leb needs (length bytes)
    then (raw ++ bytes, late_error (some e), rest)
    else (raw ++ bytes, some (early_error e), rest)

-- readFromUntil.
unfoldable pub read_from_until : Conn → ℕ → Option ConnError × Conn
read_from_until c n =
    if leb n (length c.raw_input)
    then (none, c)
    else (let (raw, e, rest) = read_from (n - length c.raw_input) c.raw_input c.incoming in
        (e, record c { raw_input = raw; incoming = rest }))

-- `e, ok := err.(net.Error)` with e.Temporary().
abbrev pub is_temporary : ConnError → Bool
is_temporary (net_error t n) = t
is_temporary _ = false

-- An error of the network is kept unless it is temporary.
unfoldable pub keep_unless_temporary : Conn → ConnError → Conn
keep_unless_temporary c e =
    if is_temporary e then c else record c { input_half = (set_error c.input_half (some e)).0 }

-- At a record's boundary an end of the stream is io.EOF.
unfoldable pub boundary_error : Conn → ConnError → ConnError
boundary_error c unexpected_eof = if length c.raw_input == 0 then eof else unexpected_eof
boundary_error c e = e

pub data Fetched : Type 0 where
  stop : Option ConnError → Fetched
  got : ℕ → List ℕ → Fetched

module _ (ops : Ops) (net : Network) where
  abbrev pub stopped : Outcome (Option ConnError) → Outcome Fetched
  stopped (returns e c) = returns (stop e) c
  stopped panics = panics

  -- The payload is read and the record is decrypted; an error of decrypt is an alert.
  unfoldable pub fetch_body : Conn → ℕ → Outcome Fetched
  fetch_body c n =
      let (failure, c') = read_from_until c (record_header_len + n) in
      elim failure [
        | some e ↦ returns (stop (some e)) (keep_unless_temporary c' e)
        | none ↦
            let c'' = record c' { raw_input = drop (record_header_len + n) c'.raw_input } in
            elim (decrypt ops c'.input_half (take (record_header_len + n) c'.raw_input)) [
              | Result.ok d ↦ returns (got d.typ d.plaintext) (record c'' { input_half = d.state })
              | Result.alert a ↦ stopped (fail_with ops net c'' a)
              | Result.io_error _ ↦ panics
              | Result.panic ↦ panics
            ]
      ]

  -- The tests of the header, on the state with the header in rawInput.
  unfoldable pub check_header : Conn → Outcome Fetched
  check_header c =
      let typ = get_or c.raw_input 0 0 in
      let vers = get_or c.raw_input 1 0 * 256 + get_or c.raw_input 2 0 in
      let n = get_or c.raw_input 3 0 * 256 + get_or c.raw_input 4 0 in
      if not c.handshake_complete && (typ == 0x80)
      then stopped (warn_and_keep ops net c alert_protocol_version (record_header 0))
      else if (c.have_vers && not (c.vers == version_tls13)) && not (vers == c.vers)
      then stopped (warn_and_keep ops net c alert_protocol_version (record_header 1))
      else if not c.have_vers
          && (not ((typ == record_type_alert) || (typ == record_type_handshake)) || leb 0x1000 vers)
      then returns (stop (keep c (some (record_header 2))).0) (keep c (some (record_header 2))).1
      else if ((c.vers == version_tls13) && ltb max_ciphertext_tls13 n) || ltb max_ciphertext n
      then stopped (warn_and_keep ops net c alert_record_overflow (record_header 3))
      else fetch_body c n

  -- A record from the connection.
  unfoldable pub fetch_record : Conn → Outcome Fetched
  fetch_record c =
      let (failure, c') = read_from_until c record_header_len in
      elim failure [
        | some e ↦
            let e' = boundary_error c' e in returns (stop (some e')) (keep_unless_temporary c' e')
        | none ↦ check_header c'
      ]

  -- A record from the kernel; its error is not kept.
  unfoldable pub fetch_ktls : Conn → Outcome Fetched
  fetch_ktls c = elim c.kernel_records [
    | [] ↦ returns (stop (some eof)) c
    | failed e ∷ rest ↦ returns (stop (some e)) (record c { kernel_records = rest })
    | received typ bytes ∷ rest ↦ returns (got typ bytes) (record c { kernel_records = rest })
  ]

  unfoldable pub fetch : Conn → Outcome Fetched
  fetch c = if is_ktls c.input_half.cipher then fetch_ktls c else fetch_record c
