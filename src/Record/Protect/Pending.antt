-- ===== src/Record/Protect/Pending.antt =====
-- What decrypt of conn.go leaves alone in a halfConn: the cipher and the MAC that wait for a
-- ChangeCipherSpec.
use goktls.Base.{
  ℕ, ◌≡◌, ◌&&◌, ◌==◌, Bool, List, Option, none, some, if◌then◌else◌, refl, arith, get_or, drop,
}
use goktls.Cipher.{Cipher, Ops}
use goktls.Protocol.{version_tls13, record_type_change_cipher_spec}
use goktls.Record.HalfConn.{HalfConn, is_absent, explicit_nonce_len}
use goktls.Record.Seq.{inc_seq}
use goktls.Record.Protect.Values.{Always, always, Always-bind, Always-if, Always-holds}
use goktls.Record.Protect.{
  Result, ok, ◌>>=◌, or_panic, inner_plaintext, open_body, check_mac, decrypt, Opened, Decrypted,
}

-- The two are as they were.
abbrev pub StillPending : HalfConn → HalfConn → Type 0
StillPending hc hc' = (hc'.next_cipher ≡ hc.next_cipher) × (hc'.next_mac ≡ hc.next_mac)

module _ (ops : Ops) where
  abbrev Keeps : HalfConn → Decrypted → Type 0
  Keeps hc d = StillPending hc d.state

  kept_at_end :
      (hc : HalfConn) (cipher : Cipher) (typ : ℕ) (p : List ℕ) (next : Option (List ℕ))
      → Always (Keeps hc) (
          or_panic next >>= (λ seq. ok (record hc { cipher = cipher; seq = seq })) >>= λ h.
          ok (record { plaintext = p; typ = typ; state = h }))
  kept_at_end hc cipher typ p none = always λ d e. absurd (cc e)
  kept_at_end hc cipher typ p (some seq) = always λ d e. (ground (arith), ground arith)

  -- The chain of decrypt, by what its parts are.
  keeping_chain :
      (hc : HalfConn) (skip : Bool) (r : Decrypted) (len : Option ℕ) (open_it : ℕ → Result Opened)
      (inner : Opened → Result (List ℕ × ℕ)) (checked : Opened → List ℕ → Result (List ℕ))
      → Keeps hc r
      → Always (Keeps hc) (
          if skip
          then ok r
          else (or_panic len >>= λ n. open_it n >>= λ o. inner o >>= λ x. checked o x.0 >>= λ p.
              or_panic (inc_seq hc.seq)
              >>= (λ seq. ok (record hc { cipher = o.cipher; seq = seq }))
              >>= λ h. ok (record { plaintext = p; typ = x.1; state = h })))
  keeping_chain hc skip r len open_it inner checked same =
      Always-if (Keeps hc) skip (ok r) _ (always λ d e. ground arith) (
        Always-bind (Keeps hc) (or_panic len) _ λ n. Always-bind (Keeps hc) (open_it n) _ λ o.
          Always-bind (Keeps hc) (inner o) _ λ x.
            Always-bind (Keeps hc) (checked o x.0) _
              λ p. kept_at_end hc o.cipher x.1 p (inc_seq hc.seq))

  pub decrypt_keeps :
      (hc : HalfConn) (rec : List ℕ) (d : Decrypted)
      → decrypt ops hc rec ≡ ok d
      → StillPending hc d.state
  unfolding decrypt
  decrypt_keeps hc rec d e =
      let typ = get_or rec 0 0 in
      Always-holds (Keeps hc)
        (keeping_chain hc ((hc.version == version_tls13) && (typ == record_type_change_cipher_spec))
          (record { plaintext = drop 5 rec; typ = typ; state = hc }) (explicit_nonce_len hc)
          (λ n. open_body ops hc n rec (drop 5 rec))
          (λ o.
            if is_absent hc.cipher
            then ok (o.plaintext, typ)
            else inner_plaintext hc.version typ o.plaintext)
          (λ o p. check_mac ops hc hc.mac rec o p) (refl, refl))
        d e
