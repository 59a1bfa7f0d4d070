-- ===== src/Conn/Receive/Termination.antt =====
-- readRecordOrCCS calls itself through retryReadRecord: how often it can.
use goktls.Base.{ℕ, zero, suc, ◌+◌, ◌<◌, ◌≢◌, Bool, none, arith, ltb, inl, inr, Bool-cases}
use goktls.Cipher.{Ops}
use goktls.Conn.Receive.Steps.{read_one_retry}
use goktls.Conn.Receive.Deliver.{done, retry}
use goktls.Conn.Receive.Loop.{read_one, read_record_or_ccs}
use goktls.Conn.Receive.Rounds.{counted, round_panics, round_done, round_gives_up, round_again}
use goktls.Conn.{Conn, Network, Outcome-cases}
use goktls.Protocol.{max_useless_records}

-- The recursion of readRecordOrCCS and retryReadRecord ends, whatever the peer sends: fuel for one
-- record at least, and for 17 less the count of retries, is never spent.
pub read_record_or_ccs-answers :
    (ops : Ops) (net : Network) (fuel : ℕ) (expect : Bool) (c : Conn)
    → max_useless_records < fuel + c.retry_count
    → 0 < fuel
    → read_record_or_ccs ops net fuel expect c ≢ none
read_record_or_ccs-answers ops net zero expect c h pos = absurd (omega arith)
read_record_or_ccs-answers ops net (suc fuel) expect c h pos =
    elim (Outcome-cases (read_one ops net expect c)) [
      | inl p ↦ rw (round_panics ops net fuel expect c p) (λ z. cc)
      | inr (done e, c1, p) ↦ rw (round_done ops net fuel expect c c1 e p) (λ z. cc)
      | inr (retry, c1, p) ↦
          let (_, (_, _, _, _, same, _, _)) = read_one_retry ops net expect c c1 p in
          elim (Bool-cases (ltb max_useless_records (c1.retry_count + 1))) [
            | inl t ↦ rw (round_gives_up ops net fuel expect c c1 p t) (λ z. cc)
            | inr f ↦ rw (round_again ops net fuel expect c c1 p f) (
                read_record_or_ccs-answers ops net fuel expect (counted c1) (ground (arith, same))
                  (ground (arith, same, f, h)))
          ]
    ]
