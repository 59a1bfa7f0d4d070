-- ===== src/Conn/Receive/Steps.antt =====
-- How the reading of one record may end: which records are dropped, and what the others do.
use goktls.Base.{
  ℕ, ◌<◌, ◌≡◌, ◌≢◌, ◌++◌, List, [], Bool, true, false, Option, none, arith, length, ◌==◌, ◌||◌, inl,
  inr, refl,
}
use goktls.Cipher.{Ops}
use goktls.Conn.Receive.Errors.{keep, fail_with}
use goktls.Conn.Receive.Fetch.{stop, got, fetch}
use goktls.Conn.Receive.Deliver.{
  done, retry, finished, deliver_alert, after_change, deliver_ccs, deliver_application,
  deliver_handshake, deliver, reset_retries, handle,
}
use goktls.Conn.Receive.Loop.{read_one}
use goktls.Conn.{Conn, Network, Outcome, returns, panics, Outcome-cases}
use goktls.Protocol.{
  alert_close_notify, version_tls13, record_type_alert, record_type_change_cipher_spec,
}
use goktls.Record.HalfConn.{ConnError, set_error, change_cipher_spec}
use goktls.Conn.Receive.Fetching.{Same, fail_with_error, fetch_keeps}

module _ (ops : Ops) (net : Network) where
  finished_done :
      (o : Outcome (Option ConnError)) {e : Option ConnError} {c' : Conn}
      → finished ops net o ≡ returns (done e) c'
      → o ≡ returns e c'
  finished_done (returns e c) h = ground arith
  finished_done panics h = absurd (cc h)

  finished_retry :
      (o : Outcome (Option ConnError)) (c' : Conn) → finished ops net o ≢ returns retry c'
  finished_retry (returns e c) c' h = absurd (cc h)
  finished_retry panics c' h = absurd (cc h)

  -- A failure ends neither without an error nor in a retry.
  pub refusal :
      (c : Conn) (a : ℕ) (c' : Conn)
      → a ≢ alert_close_notify
      → finished ops net (fail_with ops net c a) ≢ returns (done none) c'
  refusal c a c' h r = fail_with_error ops net c a h (finished_done (fail_with ops net c a) r) refl

  -- A record that is dropped leaves the state.
  refused :
      (c : Conn) (a : ℕ) (c' : Conn) → finished ops net (fail_with ops net c a) ≢ returns retry c'
  refused c a = finished_retry (fail_with ops net c a)

  alert_retry :
      (c : Conn) (bytes : List ℕ) (c' : Conn)
      → deliver_alert ops net c bytes ≡ returns retry c'
      → c' ≡ c
  unfolding deliver_alert
  alert_retry c bytes c' r = ground (arith, refused c 10 c')

  ccs_retry :
      (expect : Bool) (c : Conn) (bytes : List ℕ) (c' : Conn)
      → deliver_ccs ops net expect c bytes ≡ returns retry c'
      → c' ≡ c
  unfolding deliver_ccs after_change change_cipher_spec
  ccs_retry expect c bytes c' r = ground (
    arith,
    refused c 10 c',
    refused c 50 c',
    refused (record c { input_half = c.input_half }) 80 c',
  )

  application_retry :
      (expect : Bool) (c : Conn) (bytes : List ℕ) (c' : Conn)
      → deliver_application ops net expect c bytes ≡ returns retry c'
      → (c' ≡ c) × (length bytes ≡ 0)
  unfolding deliver_application
  application_retry expect c bytes c' r =
      (ground (arith, refused c 10 c'), ground (arith, refused c 10 c'))

  handshake_retry :
      (expect : Bool) (c : Conn) (bytes : List ℕ) (c' : Conn)
      → deliver_handshake ops net expect c bytes ≢ returns retry c'
  unfolding deliver_handshake
  handshake_retry expect c bytes c' r = ground (arith, refused c 10 c')

  pub alert_done :
      (c : Conn) (bytes : List ℕ) (c' : Conn)
      → deliver_alert ops net c bytes ≢ returns (done none) c'
  unfolding deliver_alert keep set_error
  alert_done c bytes c' r = ground (arith, refusal c 10 c')

  pub ccs_done :
      (expect : Bool) (c : Conn) (bytes : List ℕ) (c' : Conn)
      → deliver_ccs ops net expect c bytes ≡ returns (done none) c'
      → (expect ≡ true)
        × (c.hand ≡ [])
        × (c.vers ≢ version_tls13)
        × (c' ≡ record c { input_half = (change_cipher_spec c.input_half).0 })
        × ((change_cipher_spec c.input_half).1 ≡ none)
  unfolding deliver_ccs after_change change_cipher_spec
  ccs_done expect c bytes c' r = ground (
    arith,
    refusal c 10 c',
    refusal c 50 c',
    refusal (record c { input_half = c.input_half }) 80 c',
  )

  pub application_done :
      (expect : Bool) (c : Conn) (bytes : List ℕ) (c' : Conn)
      → deliver_application ops net expect c bytes ≡ returns (done none) c'
      → (expect ≡ false)
        × (c.handshake_complete ≡ true)
        × (0 < length bytes)
        × (c' ≡ record c { input = bytes })
  unfolding deliver_application
  application_done expect c bytes c' r = ground (arith, refusal c 10 c')

  pub handshake_done :
      (expect : Bool) (c : Conn) (bytes : List ℕ) (c' : Conn)
      → deliver_handshake ops net expect c bytes ≡ returns (done none) c'
      → (expect ≡ false) × (0 < length bytes) × (c' ≡ record c { hand = c.hand ++ bytes })
  unfolding deliver_handshake
  handshake_done expect c bytes c' r = ground (arith, refusal c 10 c')

  -- The types and the lengths of the records that may be dropped.
  abbrev idle : ℕ → List ℕ → Bool
  idle typ bytes =
      ((typ == record_type_alert) || (typ == record_type_change_cipher_spec)) || (length bytes == 0)

  deliver_retry :
      (expect : Bool) (c : Conn) (typ : ℕ) (bytes : List ℕ) (c' : Conn)
      → deliver ops net expect c typ bytes ≡ returns retry c'
      → (c' ≡ c) × (idle typ bytes ≡ true)
  unfolding deliver
  deliver_retry expect c typ bytes c' r = ground (
    arith,
    refused c 10 c',
    alert_retry c bytes c',
    ccs_retry expect c bytes c',
    application_retry expect c bytes c',
    handshake_retry expect c bytes c',
  )

  reset_idle :
      (c : Conn) (typ : ℕ) (bytes : List ℕ) → idle typ bytes ≡ true → reset_retries c typ bytes ≡ c
  unfolding reset_retries
  reset_idle c typ bytes h = ground arith

  handle_retry :
      (expect : Bool) (c : Conn) (typ : ℕ) (bytes : List ℕ) (c' : Conn)
      → handle ops net expect c typ bytes ≡ returns retry c'
      → c' ≡ c
  unfolding handle
  handle_retry expect c typ bytes c' r = ground (
    arith,
    refused c 10 c',
    refused c 22 c',
    refused (reset_retries c typ bytes) 10 c',
    deliver_retry expect (reset_retries c typ bytes) typ bytes c',
    reset_idle c typ bytes,
  )

  pub read_one_retry :
      (expect : Bool) (c c' : Conn)
      → read_one ops net expect c ≡ returns retry c'
      → (c.input ≡ []) × Same (record c { input = [] }) c'
  unfolding read_one
  read_one_retry expect c c' r = elim (Outcome-cases (fetch ops net (record c { input = [] }))) [
    | inl p ↦ absurd (ground (arith, p))
    | inr (stop e, c1, p) ↦ absurd (ground (arith, p))
    | inr (got typ bytes, c1, p) ↦ ground (
      arith,
      p,
      fetch_keeps ops net (record c { input = [] }) typ bytes c1 p,
      handle_retry expect c1 typ bytes c',
    )
  ]
