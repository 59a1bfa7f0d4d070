-- ===== src/Conn/Receive/Deliver.antt =====
-- What one record does, by its type: the second half of readRecordOrCCS.
use goktls.Base.{
  ℕ, Bool, not, ◌&&◌, ◌||◌, List, [], ◌∷◌, ◌++◌, Option, none, some, ltb, ◌==◌, if◌then◌else◌,
  length, get_or,
}
use goktls.Cipher.{Ops}
use goktls.Conn.{Conn, Network, Outcome, returns, panics}
use goktls.Protocol.{
  version_tls13, max_plaintext, record_type_change_cipher_spec, record_type_alert,
  record_type_handshake, record_type_application_data, alert_level_warning, alert_level_error,
  alert_close_notify, alert_unexpected_message, alert_decode_error, alert_record_overflow,
}
use goktls.Record.HalfConn.{ConnError, eof, alert, op_remote, change_cipher_spec, is_absent}
use goktls.Conn.Receive.Errors.{keep, fail_with}

-- How the reading of one record ends: with the error that readRecordOrCCS returns, or by dropping
-- the record. `got` is a record's type and data.
pub data Step : Type 0 where
  done : Option ConnError → Step
  retry : Step

-- A message that advances the state resets the count of retries.
unfoldable pub reset_retries : Conn → ℕ → List ℕ → Conn
reset_retries c typ bytes =
    if (not (typ == record_type_alert) && not (typ == record_type_change_cipher_spec))
      && ltb 0 (length bytes)
    then record c { retry_count = 0 }
    else c

module _ (ops : Ops) (net : Network) where
  abbrev pub finished : Outcome (Option ConnError) → Outcome Step
  finished (returns e c) = returns (done e) c
  finished panics = panics

  -- The cases of the switch on the record's type.
  unfoldable pub deliver_alert : Conn → List ℕ → Outcome Step
  deliver_alert c (level ∷ a ∷ []) =
      if a == alert_close_notify
      then returns (done (keep c (some eof)).0) (keep c (some eof)).1
      else if c.vers == version_tls13
      then returns (done (keep c (some (op_remote a))).0) (keep c (some (op_remote a))).1
      else if level == alert_level_warning
      then returns retry c
      else if level == alert_level_error
      then returns (done (keep c (some (op_remote a))).0) (keep c (some (op_remote a))).1
      else finished (fail_with ops net c alert_unexpected_message)
  deliver_alert c _ = finished (fail_with ops net c alert_unexpected_message)

  -- The error of changeCipherSpec is an alert, which is sent.
  unfoldable pub after_change : Conn → Option ConnError → Outcome Step
  after_change c none = returns (done none) c
  after_change c (some (alert a)) = finished (fail_with ops net c a)
  after_change c (some _) = panics

  unfoldable pub deliver_ccs : Bool → Conn → List ℕ → Outcome Step
  deliver_ccs expect c bytes =
      if not (length bytes == 1) || not (get_or bytes 0 0 == 1)
      then finished (fail_with ops net c alert_decode_error)
      else if ltb 0 (length c.hand)
      then finished (fail_with ops net c alert_unexpected_message)
      else if c.vers == version_tls13
      then returns retry c
      else if not expect
      then finished (fail_with ops net c alert_unexpected_message)
      else after_change (record c { input_half = (change_cipher_spec c.input_half).0 })
          (change_cipher_spec c.input_half).1

  unfoldable pub deliver_application : Bool → Conn → List ℕ → Outcome Step
  deliver_application expect c bytes =
      if not c.handshake_complete || expect
      then finished (fail_with ops net c alert_unexpected_message)
      else if length bytes == 0
      then returns retry c
      else returns (done none) (record c { input = bytes })

  unfoldable pub deliver_handshake : Bool → Conn → List ℕ → Outcome Step
  deliver_handshake expect c bytes =
      if (length bytes == 0) || expect
      then finished (fail_with ops net c alert_unexpected_message)
      else returns (done none) (record c { hand = c.hand ++ bytes })

  unfoldable pub deliver : Bool → Conn → ℕ → List ℕ → Outcome Step
  deliver expect c typ bytes =
      if typ == record_type_alert
      then deliver_alert c bytes
      else if typ == record_type_change_cipher_spec
      then deliver_ccs expect c bytes
      else if typ == record_type_application_data
      then deliver_application expect c bytes
      else if typ == record_type_handshake
      then deliver_handshake expect c bytes
      else finished (fail_with ops net c alert_unexpected_message)

  -- The tests between the reading and the switch.
  unfoldable pub handle : Bool → Conn → ℕ → List ℕ → Outcome Step
  handle expect c typ bytes =
      if ltb max_plaintext (length bytes)
      then finished (fail_with ops net c alert_record_overflow)
      else if is_absent c.input_half.cipher && (typ == record_type_application_data)
      then finished (fail_with ops net c alert_unexpected_message)
      else (let c' = reset_retries c typ bytes in
          if ((c.vers == version_tls13) && not (typ == record_type_handshake))
            && ltb 0 (length c.hand)
          then finished (fail_with ops net c' alert_unexpected_message)
          else deliver expect c' typ bytes)
