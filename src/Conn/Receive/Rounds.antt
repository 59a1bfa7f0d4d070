-- ===== src/Conn/Receive/Rounds.antt =====
-- One round of readRecordOrCCS and retryReadRecord, by how the reading of its record ends.
use goktls.Base.{ℕ, suc, ◌+◌, ◌≡◌, Bool, true, false, Option, some, ltb}
use goktls.Cipher.{Ops}
use goktls.Conn.Receive.Errors.{warn_and_keep}
use goktls.Conn.Receive.Deliver.{done, retry}
use goktls.Conn.Receive.Loop.{read_one, read_record_or_ccs}
use goktls.Conn.{Conn, Network, returns, panics}
use goktls.Protocol.{max_useless_records, alert_unexpected_message}
use goktls.Record.HalfConn.{ConnError, message}

-- The count of retries is raised.
abbrev pub counted : Conn → Conn
counted c = record c { retry_count = c.retry_count + 1 }

module _ (ops : Ops) (net : Network) (fuel : ℕ) (expect : Bool) (c : Conn) where
  pub round_panics :
      read_one ops net expect c ≡ panics
      → read_record_or_ccs ops net (suc fuel) expect c ≡ some panics
  unfolding read_record_or_ccs
  round_panics e = rw (e, read_record_or_ccs)

  module _ (c1 : Conn) where
    pub round_done :
        (e : Option ConnError)
        → read_one ops net expect c ≡ returns (done e) c1
        → read_record_or_ccs ops net (suc fuel) expect c ≡ some (returns e c1)
    unfolding read_record_or_ccs
    round_done e p = rw (p, read_record_or_ccs)

    pub round_gives_up :
        read_one ops net expect c ≡ returns retry c1
        → ltb max_useless_records (c1.retry_count + 1) ≡ true
        → read_record_or_ccs ops net (suc fuel) expect c
          ≡ some (warn_and_keep ops net (counted c1) alert_unexpected_message (message 2))
    unfolding read_record_or_ccs
    round_gives_up p t = rw (p, read_record_or_ccs, t)

    pub round_again :
        read_one ops net expect c ≡ returns retry c1
        → ltb max_useless_records (c1.retry_count + 1) ≡ false
        → read_record_or_ccs ops net (suc fuel) expect c
          ≡ read_record_or_ccs ops net fuel expect (counted c1)
    unfolding read_record_or_ccs
    round_again p t = rw (p, read_record_or_ccs, t)
