-- ===== src/Conn/Receive/Contract.antt =====
-- What a call of readRecordOrCCS that returns no error has done: the contract in its comment.
use goktls.Base.{
  ℕ, zero, suc, ◌+◌, ◌==◌, ◌||◌, replicate, ◌<◌, ◌≡◌, ◌≢◌, ◌⊎◌, ◌++◌, List, [], Bool, true, false,
  none, some, arith, length, ltb, inl, inr, Bool-cases, ap, subst, refl, sym, ◌∙◌,
}
use goktls.Cipher.{Ops, absent}
use goktls.Conn.Receive.Fetching.{Same, warn_and_keep_error, fetch_keeps, fetch_stops}
use goktls.Conn.Receive.Steps.{
  read_one_retry, refusal, alert_done, ccs_done, application_done, handshake_done,
}
use goktls.Conn.Receive.Errors.{keep}
use goktls.Conn.Receive.Fetch.{stop, got, fetch}
use goktls.Conn.Receive.Deliver.{done, retry, deliver, reset_retries, handle}
use goktls.Conn.Receive.Loop.{read_one, read_record_or_ccs}
use goktls.Conn.Receive.Rounds.{counted, round_panics, round_done, round_gives_up, round_again}
use goktls.Conn.{Conn, Network, returns, Outcome-cases}
use goktls.Protocol.{max_useless_records, version_tls13}
use goktls.Record.HalfConn.{HalfConn, is_absent, message, set_error, change_cipher_spec}
use goktls.Record.Protect.Pending.{StillPending}

-- c.hand grows, and the cipher that waits goes on waiting.
abbrev pub HandGrows : Bool → Conn → Conn → Type 0
HandGrows expect c c' =
    (expect ≡ false)
    × (bytes : List ℕ) × (0 < length bytes)
    × (c'.hand ≡ c.hand ++ bytes)
    × (c'.input ≡ [])
    × StillPending c.input_half c'.input_half

-- c.input is set, and the cipher that waits goes on waiting.
abbrev pub InputIsSet : Bool → Conn → Conn → Type 0
InputIsSet expect c c' =
    (expect ≡ false)
    × (c.handshake_complete ≡ true)
    × (0 < length c'.input)
    × (c'.hand ≡ c.hand)
    × StillPending c.input_half c'.input_half

-- The cipher of the input, its MAC and its sequence number after a ChangeCipherSpec: those that
-- waited in the half connection before it, of which there was one, and zeros.
abbrev pub IsChanged : HalfConn → HalfConn → Type 0
IsChanged hc hc' =
    (is_absent hc.next_cipher ≡ false)
    × (hc'.cipher ≡ hc.next_cipher)
    × (hc'.mac ≡ hc.next_mac)
    × (hc'.next_cipher ≡ absent)
    × (hc'.next_mac ≡ none)
    × (n : ℕ) × (hc'.seq ≡ replicate n 0)

-- The cipher of c.in is changed, at a message's boundary.
abbrev pub CipherIsChanged : Bool → Conn → Conn → Type 0
CipherIsChanged expect c c' =
    (expect ≡ true)
    × (c.vers ≢ version_tls13)
    × (c.hand ≡ [])
    × (c'.hand ≡ [])
    × (c'.input ≡ [])
    × IsChanged c.input_half c'.input_half

-- One of the three, without a change of the cipher of the output.
abbrev pub Progress : Bool → Conn → Conn → Type 0
Progress expect c c' =
    (HandGrows expect c c' ⊎ (InputIsSet expect c c' ⊎ CipherIsChanged expect c c'))
    × (c'.out ≡ c.out)

change_cipher_spec-IsChanged :
    (hc : HalfConn) → (change_cipher_spec hc).1 ≡ none → IsChanged hc (change_cipher_spec hc).0
unfolding change_cipher_spec
change_cipher_spec-IsChanged hc well =
    elim (Bool-cases (is_absent hc.next_cipher || (hc.version == version_tls13))) [
      | inl refused ↦ absurd (ground arith)
      | inr free ↦ rw free (ground (arith), refl, refl, refl, refl, length hc.seq, refl)
    ]

-- It counts from the state before the record was read.
IsChanged-before :
    (hc hc1 hc' : HalfConn) → StillPending hc hc1 → IsChanged hc1 hc' → IsChanged hc hc'
IsChanged-before hc hc1 hc' (cipher, mac) (some_cipher, c, m, nc, nm, n, s) =
    (sym (ap is_absent cipher) ∙ some_cipher, c ∙ cipher, m ∙ mac, nc, nm, n, s)

module _ (ops : Ops) (net : Network) (expect : Bool) where
  -- What deliver has done if it returns no error.
  abbrev Delivered : Conn → List ℕ → Conn → Type 0
  Delivered c bytes c' =
      ((expect ≡ false) × (0 < length bytes) × (c' ≡ record c { hand = c.hand ++ bytes }))
      ⊎ (((expect ≡ false)
            × (c.handshake_complete ≡ true)
            × (0 < length bytes)
            × (c' ≡ record c { input = bytes }))
          ⊎ ((expect ≡ true)
              × (c.hand ≡ [])
              × (c.vers ≢ version_tls13)
              × (c' ≡ record c { input_half = (change_cipher_spec c.input_half).0 })
              × ((change_cipher_spec c.input_half).1 ≡ none)))

  deliver_done :
      (c : Conn) (typ : ℕ) (bytes : List ℕ) (c' : Conn)
      → deliver ops net expect c typ bytes ≡ returns (done none) c'
      → Delivered c bytes c'
  unfolding deliver
  deliver_done c typ bytes c' r = ground (
    arith,
    refusal ops net c 10 c',
    alert_done ops net c bytes c',
    ccs_done ops net expect c bytes c',
    application_done ops net expect c bytes c',
    handshake_done ops net expect c bytes c',
  )

  handle_done :
      (c : Conn) (typ : ℕ) (bytes : List ℕ) (c' : Conn)
      → handle ops net expect c typ bytes ≡ returns (done none) c'
      → deliver ops net expect (reset_retries c typ bytes) typ bytes ≡ returns (done none) c'
  unfolding handle
  handle_done c typ bytes c' r = ground (
    arith,
    refusal ops net c 10 c',
    refusal ops net c 22 c',
    refusal ops net (reset_retries c typ bytes) 10 c',
  )

  reset_keeps :
      (c : Conn) (typ : ℕ) (bytes : List ℕ)
      → ((reset_retries c typ bytes).hand ≡ c.hand)
        × ((reset_retries c typ bytes).input ≡ c.input)
        × ((reset_retries c typ bytes).vers ≡ c.vers)
        × ((reset_retries c typ bytes).handshake_complete ≡ c.handshake_complete)
        × ((reset_retries c typ bytes).input_half ≡ c.input_half)
        × ((reset_retries c typ bytes).out ≡ c.out)
  unfolding reset_retries
  reset_keeps c typ bytes = ground arith

  Delivered-Progress :
      (c c1 : Conn) (bytes : List ℕ) (c' : Conn)
      → c1.hand ≡ c.hand
      → c1.input ≡ []
      → c1.vers ≡ c.vers
      → c1.handshake_complete ≡ c.handshake_complete
      → StillPending c.input_half c1.input_half
      → c1.out ≡ c.out
      → Delivered c1 bytes c'
      → Progress expect c c'
  Delivered-Progress c c1 bytes c' hand input vers complete pending out (inl (e, b, s)) = (
    inl (e, bytes, b, ground (arith, hand), ground (arith), (ground (arith), ground arith)),
    ground arith,
  )
  Delivered-Progress c c1 bytes c' hand input vers complete pending out (inr (inl (e, h, b, s))) = (
    inr (inl (e, ground (arith), ground (arith), ground (arith), (ground (arith), ground arith))),
    ground arith,
  )
  Delivered-Progress c c1 bytes c' hand input vers complete pending out
        (inr (inr (e, h, v, s, n))) =
      (
        inr (
            inr (
              e,
              ground (arith),
              ground (arith),
              ground (arith),
              ground (arith),
              IsChanged-before c.input_half c1.input_half c'.input_half pending (
                  rw (ap (λ (k : Conn). k.input_half) s)
                    (change_cipher_spec-IsChanged c1.input_half n)),
            )),
        ground arith,
      )

  read_one_done :
      (c c' : Conn) → read_one ops net expect c ≡ returns (done none) c' → Progress expect c c'
  unfolding read_one keep set_error
  read_one_done c c' r = elim (Outcome-cases (fetch ops net (record c { input = [] }))) [
    | inl p ↦ absurd (ground (arith, p))
    | inr (stop e, c1, p) ↦
        absurd (ground (arith, p, fetch_stops ops net (record c { input = [] }) c1))
    | inr (got typ bytes, c1, p) ↦
        let same = fetch_keeps ops net (record c { input = [] }) typ bytes c1 p in
        let reset = reset_keeps c1 typ bytes in
        Delivered-Progress c (reset_retries c1 typ bytes) bytes c' (reset.0 ∙ same.0)
          (reset.1 ∙ same.1) (reset.2 ∙ same.2) (reset.3 ∙ same.3) (rw reset.4 same.5)
          (reset.5 ∙ same.6)
          (deliver_done (reset_retries c1 typ bytes) typ bytes c'
            (handle_done c1 typ bytes c' (ground (arith, p))))
  ]

  -- What was dropped before does not matter.
  Progress-after :
      (c c1 c' : Conn)
      → Same (record c { input = [] }) c1
      → Progress expect (counted c1) c'
      → Progress expect c c'
  Progress-after c c1 c' (hand, input, vers, complete, count, (nc, nm), out)
        (inl (e, bytes, b, g, i, (nc', nm')), out') =
      (
        inl (e, bytes, b, g ∙ ap (λ (h : List ℕ). h ++ bytes) hand, i, (nc' ∙ nc, nm' ∙ nm)),
        out' ∙ out,
      )
  Progress-after c c1 c' (hand, input, vers, complete, count, (nc, nm), out)
        (inr (inl (e, h, b, g, (nc', nm'))), out') =
      (inr (inl (e, sym complete ∙ h, b, g ∙ hand, (nc' ∙ nc, nm' ∙ nm))), out' ∙ out)
  Progress-after c c1 c' (hand, input, vers, complete, count, pending, out)
        (inr (inr (e, v, h, g, i, changed)), out') =
      (
        inr (
            inr (
              e,
              (λ z. v (vers ∙ z)),
              sym hand ∙ h,
              g,
              i,
              IsChanged-before c.input_half c1.input_half c'.input_half pending changed,
            )),
        out' ∙ out,
      )

  -- A call of readRecordOrCCS that returns no error, on any fuel, has done exactly one of three
  -- things, and has left c.out alone: outside of a ChangeCipherSpec c.hand has grown and c.input is
  -- empty; or, outside of one too, the handshake is complete, c.input is set to bytes and c.hand is
  -- as it was; or, where a ChangeCipherSpec is expected before TLS 1.3 and c.hand was and is empty,
  -- c.input is empty, and c.in has the cipher and the MAC that waited in it before the call, with a
  -- sequence number of zeros, and none waits any more. In the first two cases the cipher and the MAC
  -- that wait in c.in are as they were.
  pub read_record_or_ccs-Progress :
      (fuel : ℕ) (c c' : Conn)
      → read_record_or_ccs ops net fuel expect c ≡ some (returns none c')
      → Progress expect c c'
  read_record_or_ccs-Progress zero c c' r = unfold read_record_or_ccs in absurd (cc r)
  read_record_or_ccs-Progress (suc fuel) c c' r = elim (Outcome-cases (read_one ops net expect c)) [
    | inl p ↦ absurd (cc (round_panics ops net fuel expect c p))
    | inr (done none, c1, p) ↦
        subst (λ (k : Conn). Progress expect c k) {x = c1} {y = c'}
          (cc (round_done ops net fuel expect c c1 none p)) (read_one_done c c1 p)
    | inr (done (some e), c1, p) ↦ absurd (cc (round_done ops net fuel expect c c1 (some e) p))
    | inr (retry, c1, p) ↦ elim (Bool-cases (ltb max_useless_records (c1.retry_count + 1))) [
      | inl t ↦ absurd (
          warn_and_keep_error ops net (counted c1) 10 (message 2) {e = none} {c' = c'}
            (cc (round_gives_up ops net fuel expect c c1 p t)) refl)
      | inr f ↦ Progress-after c c1 c' (read_one_retry ops net expect c c1 p).1 (
          read_record_or_ccs-Progress fuel (counted c1) c'
            (sym (round_again ops net fuel expect c c1 p f) ∙ r))
    ]
  ]
