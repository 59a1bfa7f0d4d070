-- ===== src/Conn/Receive/Fetching.antt =====
-- What getting a record leaves alone, and that it does not stop without an error.
use goktls.Base.{
  ℕ, ◌+◌, ◌≡◌, ◌≢◌, List, Option, none, some, arith, get_or, take, drop, ◌*◌, inl, inr, refl,
}
use goktls.Cipher.{Ops}
use goktls.Conn.Receive.Errors.{keep, fail_with, warn_and_keep}
use goktls.Conn.Receive.Fetch.{
  read_from_until, stop, got, stopped, fetch_body, check_header, fetch_record, fetch_ktls, fetch,
}
use goktls.Conn.Send.{send_alert_locked}
use goktls.Conn.{Conn, Network, Outcome, returns, panics, Outcome-cases}
use goktls.Protocol.{alert_close_notify}
use goktls.Record.HalfConn.{ConnError, set_error, record_header}
use goktls.Record.Protect.Alerts.{Fatal-decrypt, Fatal-NoClose}
use goktls.Record.Protect.Pending.{StillPending, decrypt_keeps}
use goktls.Record.Protect.Values.{Result-cases}
use goktls.Record.Protect.{decrypt}

-- What the reading of a record leaves alone.
abbrev pub Same : Conn → Conn → Type 0
Same c c' =
    (c'.hand ≡ c.hand)
    × (c'.input ≡ c.input)
    × (c'.vers ≡ c.vers)
    × (c'.handshake_complete ≡ c.handshake_complete)
    × (c'.retry_count ≡ c.retry_count)
    × StillPending c.input_half c'.input_half
    × (c'.out ≡ c.out)

module _ (ops : Ops) (net : Network) where
  -- An alert other than close_notify that is sent gives an error.
  alert_gives_error :
      (c : Conn) (a : ℕ) {e : Option ConnError} {c' : Conn}
      → a ≢ alert_close_notify
      → send_alert_locked ops net c a ≡ returns e c'
      → e ≢ none
  unfolding send_alert_locked set_error
  alert_gives_error c a h r = ground arith

  pub fail_with_error :
      (c : Conn) (a : ℕ) {e : Option ConnError} {c' : Conn}
      → a ≢ alert_close_notify
      → fail_with ops net c a ≡ returns e c'
      → e ≢ none
  unfolding fail_with keep set_error
  fail_with_error c a h r = elim (Outcome-cases (send_alert_locked ops net c a)) [
    | inl p ↦ absurd (ground (arith, p))
    | inr (none, c1, p) ↦ absurd (alert_gives_error c a h p refl)
    | inr (some x, c1, p) ↦ ground (arith, p)
  ]

  pub warn_and_keep_error :
      (c : Conn) (a : ℕ) (x : ConnError) {e : Option ConnError} {c' : Conn}
      → warn_and_keep ops net c a x ≡ returns e c'
      → e ≢ none
  unfolding warn_and_keep keep set_error
  warn_and_keep_error c a x r = ground arith

  read_from_until_keeps : (c : Conn) (n : ℕ) → Same c (read_from_until c n).1
  unfolding read_from_until
  read_from_until_keeps c n = ground arith

  stopped_got :
      (o : Outcome (Option ConnError)) (typ : ℕ) (bytes : List ℕ) (c' : Conn)
      → stopped ops net o ≢ returns (got typ bytes) c'
  stopped_got (returns e c) typ bytes c' h = absurd (cc h)
  stopped_got panics typ bytes c' h = absurd (cc h)

  fetch_body_keeps :
      (c : Conn) (n typ : ℕ) (bytes : List ℕ) (c' : Conn)
      → fetch_body ops net c n ≡ returns (got typ bytes) c'
      → Same c c'
  unfolding fetch_body
  fetch_body_keeps c n typ bytes c' r =
      let c1 = (read_from_until c (5 + n)).1 in
      elim (Result-cases (decrypt ops c1.input_half (take (5 + n) c1.raw_input))) [
        | inl (d, p) ↦
            let kept = decrypt_keeps ops c1.input_half (take (5 + n) c1.raw_input) d p in
            ground (arith, p, kept, read_from_until_keeps c (5 + n))
        | inr (inl (a, p)) ↦
            let c2 : Conn = record c1 { raw_input = drop (5 + n) c1.raw_input } in
            ground (arith, p, stopped_got (fail_with ops net c2 a) typ bytes c')
        | inr (inr (inl (m, p))) ↦ ground (arith, p)
        | inr (inr (inr p)) ↦ ground (arith, p)
      ]

  check_header_keeps :
      (c : Conn) (typ : ℕ) (bytes : List ℕ) (c' : Conn)
      → check_header ops net c ≡ returns (got typ bytes) c'
      → Same c c'
  unfolding check_header
  check_header_keeps c typ bytes c' r = ground (
    arith,
    fetch_body_keeps c (get_or c.raw_input 3 0 * 256 + get_or c.raw_input 4 0) typ bytes c',
    stopped_got (warn_and_keep ops net c 70 (record_header 0)) typ bytes c',
    stopped_got (warn_and_keep ops net c 70 (record_header 1)) typ bytes c',
    stopped_got (warn_and_keep ops net c 22 (record_header 3)) typ bytes c',
  )

  pub fetch_keeps :
      (c : Conn) (typ : ℕ) (bytes : List ℕ) (c' : Conn)
      → fetch ops net c ≡ returns (got typ bytes) c'
      → Same c c'
  unfolding fetch fetch_ktls fetch_record
  fetch_keeps c typ bytes c' r =
      ground
        (arith, read_from_until_keeps c 5, check_header_keeps (read_from_until c 5).1 typ bytes c')

  -- A reading that stops has an error.
  stopped_stop :
      (o : Outcome (Option ConnError)) (c' : Conn)
      → stopped ops net o ≡ returns (stop none) c'
      → o ≡ returns none c'
  stopped_stop (returns e c) c' h = ground arith
  stopped_stop panics c' h = absurd (cc h)

  warn_stops :
      (c : Conn) (a : ℕ) (x : ConnError) (c' : Conn)
      → stopped ops net (warn_and_keep ops net c a x) ≢ returns (stop none) c'
  warn_stops c a x c' r =
      warn_and_keep_error c a x (stopped_stop (warn_and_keep ops net c a x) c' r) refl

  fail_stops :
      (c : Conn) (a : ℕ) (c' : Conn)
      → a ≢ alert_close_notify
      → stopped ops net (fail_with ops net c a) ≢ returns (stop none) c'
  fail_stops c a c' h r = fail_with_error c a h (stopped_stop (fail_with ops net c a) c' r) refl

  fetch_body_stops :
      (c : Conn) (n : ℕ) (c' : Conn) → fetch_body ops net c n ≢ returns (stop none) c'
  unfolding fetch_body
  fetch_body_stops c n c' r =
      let c1 = (read_from_until c (5 + n)).1 in
      let d = decrypt ops c1.input_half (take (5 + n) c1.raw_input) in
      elim (Result-cases d) [
        | inl (x, p) ↦ ground (arith, p)
        | inr (inl (a, p)) ↦
            let h = Fatal-NoClose (Fatal-decrypt ops c1.input_half (take (5 + n) c1.raw_input)) in
            ground
              (arith, p, h, fail_stops (record c1 { raw_input = drop (5 + n) c1.raw_input }) a c')
        | inr (inr (inl (m, p))) ↦ ground (arith, p)
        | inr (inr (inr p)) ↦ ground (arith, p)
      ]

  check_header_stops : (c c' : Conn) → check_header ops net c ≢ returns (stop none) c'
  unfolding check_header keep set_error
  check_header_stops c c' r = ground (
    arith,
    fetch_body_stops c (get_or c.raw_input 3 0 * 256 + get_or c.raw_input 4 0) c',
    warn_stops c 70 (record_header 0) c',
    warn_stops c 70 (record_header 1) c',
    warn_stops c 22 (record_header 3) c',
  )

  pub fetch_stops : (c c' : Conn) → fetch ops net c ≢ returns (stop none) c'
  unfolding fetch fetch_ktls fetch_record
  fetch_stops c c' r = ground (arith, check_header_stops (read_from_until c 5).1 c')
