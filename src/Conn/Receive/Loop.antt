-- ===== src/Conn/Receive/Loop.antt =====
-- readRecordOrCCS as a whole, with retryReadRecord, which calls it again.
use goktls.Base.{ℕ, zero, suc, ◌+◌, Bool, [], Option, none, some, ltb, if◌then◌else◌, length}
use goktls.Cipher.{Ops}
use goktls.Conn.{Conn, Network, Outcome, returns, panics}
use goktls.Protocol.{max_useless_records, alert_unexpected_message}
use goktls.Record.HalfConn.{ConnError, message}
use goktls.Conn.Receive.Errors.{keep, warn_and_keep}
use goktls.Conn.Receive.Fetch.{fetch, stop, got}
use goktls.Conn.Receive.Deliver.{Step, handle, done, retry}

module _ (ops : Ops) (net : Network) where
  -- readRecordOrCCS up to its calls of retryReadRecord.
  unfoldable pub read_one : Bool → Conn → Outcome Step
  read_one expect c = elim c.input_half.err [
    | some e ↦ returns (done (some e)) c
    | none ↦
        if ltb 0 (length c.input)
        then returns (done (keep c (some (message 1))).0) (keep c (some (message 1))).1
        else elim (fetch ops net (record c { input = [] })) [
          | panics ↦ panics
          | returns (stop e) c' ↦ returns (done e) c'
          | returns (got typ bytes) c' ↦ handle ops net expect c' typ bytes
        ]
  ]

  -- readRecordOrCCS with retryReadRecord, which calls it again. The fuel is the number of records
  -- that may be read; `none` says that it is spent.
  unfoldable pub read_record_or_ccs : ℕ → Bool → Conn → Option (Outcome (Option ConnError))
  read_record_or_ccs zero expect c = none
  read_record_or_ccs (suc fuel) expect c = elim (read_one expect c) [
    | panics ↦ some panics
    | returns (done e) c' ↦ some (returns e c')
    | returns retry c' ↦
        let c'' = record c' { retry_count = c'.retry_count + 1 } in
        let again = read_record_or_ccs fuel expect c'' in
        if ltb max_useless_records c''.retry_count
        then some (warn_and_keep ops net c'' alert_unexpected_message (message 2))
        else again
  ]
