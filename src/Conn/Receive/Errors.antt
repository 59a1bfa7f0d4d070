-- ===== src/Conn/Receive/Errors.antt =====
-- Failing: the errors that reading a record keeps, with the alerts that it sends.
use goktls.Base.{ℕ, Option, some}
use goktls.Cipher.{Ops}
use goktls.Conn.Send.{send_alert_locked}
use goktls.Conn.{Conn, Network, Outcome, returns, panics}
use goktls.Record.HalfConn.{ConnError, set_error}

-- `return c.in.setErrorLocked(...)`.
unfoldable pub keep : Conn → Option ConnError → Option ConnError × Conn
keep c e = ((set_error c.input_half e).1, record c { input_half = (set_error c.input_half e).0 })

module _ (ops : Ops) (net : Network) where
  -- `return c.in.setErrorLocked(c.sendAlert(a))`.
  unfoldable pub fail_with : Conn → ℕ → Outcome (Option ConnError)
  fail_with c a = elim (send_alert_locked ops net c a) [
    | panics ↦ panics
    | returns e c' ↦ returns (keep c' e).0 (keep c' e).1
  ]

  -- `c.sendAlert(a)`, its error ignored, then `return c.in.setErrorLocked(e)`.
  unfoldable pub warn_and_keep : Conn → ℕ → ConnError → Outcome (Option ConnError)
  warn_and_keep c a e = elim (send_alert_locked ops net c a) [
    | panics ↦ panics
    | returns _ c' ↦ returns (keep c' (some e)).0 (keep c' (some e)).1
  ]
