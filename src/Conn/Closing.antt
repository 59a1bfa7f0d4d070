-- ===== src/Conn/Closing.antt =====
-- Close, CloseWrite and closeNotify of conn.go.
use goktls.Base.{
  ℕ, ◌+◌, ◌≡◌, ◌⊎◌, refl, Bool, true, false, not, List, ◌∷◌, Option, none, some, if◌then◌else◌,
  arith, inl, inr, Bool-cases, Option-cases, ◌%◌, ◌==◌,
}
use goktls.Cipher.{Ops}
use goktls.Conn.{Conn, Sent, Network, panics, returns, Outcome-cases}
use goktls.Conn.Interlock.{begin_close}
use goktls.Conn.Send.{send_alert_locked}
use goktls.Protocol.{alert_close_notify}
use goktls.Record.HalfConn.{ConnError}

-- The rest of the state that closing uses. `deadlines` are the calls of SetWriteDeadline, in seconds
-- from the call on, and `conn_closes` counts those of c.conn.Close; the newest is the first.
pub record Closing : Type 0 where
  pub conn : Conn
  pub active_call : ℕ
  pub close_notify_sent : Bool
  pub close_notify_err : Option ConnError
  pub deadlines : List ℕ
  pub conn_closes : ℕ

-- net.ErrClosed, errEarlyCloseWrite, the error of the alert with the text that Close puts before it,
-- and errors that are passed on.
pub data CloseError : Type 0 where
  already_closed early_close_write : CloseError
  alert_not_sent passed_on : ConnError → CloseError

-- An error or none, with the state after it; `none` for a panic.
abbrev pub Closed : Type 0
Closed = Option (Option CloseError × Closing)

unfoldable wrapped : (ConnError → CloseError) → Option ConnError → Option CloseError
wrapped f none = none
wrapped f (some e) = some (f e)

unfoldable instead_of : Option CloseError → Option ConnError → Option CloseError
instead_of alert_err none = alert_err
instead_of alert_err (some e) = some (passed_on e)

-- `close_conn` is the answer of c.conn.Close, by what was sent before.
module _ (ops : Ops) (net : Network) (close_conn : List Sent → Option ConnError) where
  unfoldable pub close_notify : Closing → Option (Option ConnError × Closing)
  close_notify s =
      if s.close_notify_sent
      then some (s.close_notify_err, s)
      else elim (send_alert_locked ops net s.conn alert_close_notify) [
        | panics ↦ none
        | returns e c ↦ some (
          e,
          record s {
            conn = c;
            close_notify_sent = true;
            close_notify_err = e;
            deadlines = 0 ∷ 5 ∷ s.deadlines;
          },
        )
      ]

  unfoldable pub close_write : Closing → Closed
  unfolding close_notify wrapped
  close_write s =
      if not s.conn.handshake_complete
      then some (some early_close_write, s)
      else elim (close_notify s) [ none ↦ none | some (e, t) ↦ some (wrapped passed_on e, t) ]

  -- The end of Close: an error of c.conn.Close goes before the one of the alert.
  unfoldable pub close_under : Option CloseError → Closing → Option CloseError × Closing
  unfolding instead_of
  close_under alert_err s =
      (instead_of alert_err (close_conn s.conn.sent), record s { conn_closes = s.conn_closes + 1 })

  -- Close behind its interlock.
  unfoldable pub close_alone : Closing → Closed
  unfolding close_notify close_under wrapped
  close_alone s =
      if s.conn.handshake_complete
      then elim (close_notify s) [
        | none ↦ none
        | some (e, t) ↦ some (close_under (wrapped alert_not_sent e) t)
      ]
      else some (close_under none s)

  unfoldable pub close : Closing → Closed
  unfolding close_alone close_under begin_close
  close s = elim (begin_close s.active_call) [
    | none ↦ some (some already_closed, s)
    | some (x, true) ↦ close_alone (record s { active_call = x })
    | some (x, false) ↦ some (close_under none (record s { active_call = x }))
  ]

  -- What the steps of Close leave alone, and that c.conn.Close is called once.
  close_notify_kept :
      (s t : Closing) (e : Option ConnError)
      → close_notify s ≡ some (e, t)
      → (t.active_call ≡ s.active_call) × (t.conn_closes ≡ s.conn_closes)
  unfolding close_notify
  close_notify_kept s t e made = elim (Bool-cases s.close_notify_sent) [
    | inl sent ↦ (ground (arith), ground arith)
    | inr unsent ↦ elim (Outcome-cases (send_alert_locked ops net s.conn alert_close_notify)) [
      | inl stop ↦ absurd (ground arith)
      | inr (e', c, done) ↦ (ground (arith), ground arith)
    ]
  ]

  close_alone_kept :
      (s t : Closing) (e : Option CloseError)
      → close_alone s ≡ some (e, t)
      → (t.active_call ≡ s.active_call) × (t.conn_closes ≡ s.conn_closes + 1)
  unfolding close_alone close_under
  close_alone_kept s t e made = elim (Bool-cases s.conn.handshake_complete) [
    | inl complete ↦ elim (Option-cases (close_notify s)) [
      | inl stop ↦ absurd (ground arith)
      | inr ((e', t'), done) ↦
          let (kept, count) = close_notify_kept s t' e' done in (ground (arith), ground arith)
    ]
    | inr early ↦ (ground (arith), ground arith)
  ]

  close_closes :
      (s t : Closing) (e : Option CloseError)
      → (s.active_call % 2 == 0) ≡ true
      → close s ≡ some (e, t)
      → ((t.active_call % 2 == 0) ≡ false) × (t.conn_closes ≡ s.conn_closes + 1)
  unfolding close begin_close close_under
  close_closes s t e even made =
      let s' : Closing = record s { active_call = s.active_call + 1 } in
      elim (Bool-cases (s.active_call == 0)) [
        | inl alone ↦
            let made' : close_alone s' ≡ some (e, t) = rw (close, even, alone) at made in
            let (kept, count) = close_alone_kept s' t e made' in (ground (arith), count)
        | inr beside ↦
            let made' : some (close_under none s') ≡ some (e, t) =
              rw (close, even, beside) at made in
            (ground (arith), ground arith)
      ]

  close_refused :
      (s : Closing) → (s.active_call % 2 == 0) ≡ false → close s ≡ some (some already_closed, s)
  unfolding close begin_close
  close_refused s odd = rw (close, odd) refl

  -- A Close that does not panic leaves the connection closed: every Close after it returns
  -- net.ErrClosed and changes nothing. It was refused itself, without a change, or has called
  -- c.conn.Close exactly once.
  pub close_again :
      (s t : Closing) (e : Option CloseError)
      → close s ≡ some (e, t)
      → (close t ≡ some (some already_closed, t))
        × (((e ≡ some already_closed) × (t ≡ s)) ⊎ (t.conn_closes ≡ s.conn_closes + 1))
  close_again s t e made = elim (Bool-cases (s.active_call % 2 == 0)) [
    | inl even ↦ let (odd, count) = close_closes s t e even made in (close_refused t odd, inr count)
    | inr odd ↦
        let refused = close_refused s odd in
        let same : t ≡ s = ground arith in (rw same refused, inl (ground (arith), same))
  ]

  -- A closeNotify that was tried and did not panic gives the same answer when it is tried again, and
  -- sends nothing then: the state stays as it is.
  pub close_notify_again :
      (s t : Closing) (e : Option ConnError)
      → close_notify s ≡ some (e, t)
      → close_notify t ≡ some (e, t)
  unfolding close_notify
  close_notify_again s t e made = elim (Bool-cases s.close_notify_sent) [
    | inl sent ↦ ground (arith)
    | inr unsent ↦ elim (Outcome-cases (send_alert_locked ops net s.conn alert_close_notify)) [
      | inl stop ↦ absurd (ground arith)
      | inr (e', c, done) ↦ ground (arith)
    ]
  ]
