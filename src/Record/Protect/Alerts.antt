-- ===== src/Record/Protect/Alerts.antt =====
-- The alerts that decrypt may ask for.
use goktls.Base.{
  ℕ, ◌≡◌, ◌≢◌, Bool, true, false, List, Option, none, some, refl, arith, if◌then◌else◌, get_or,
  drop, ◌==◌, ◌&&◌,
}
use goktls.Cipher.{Cipher, Ops, Aead, Cbc, absent, stream, aead, cbc, ktls}
use goktls.Protocol.{alert_close_notify, version_tls13, record_type_change_cipher_spec}
use goktls.Record.Seq.{inc_seq}
use goktls.Record.HalfConn.{HalfConn, is_absent, explicit_nonce_len}
use goktls.Record.Protect.{
  Result, ok, alert, io_error, panic, ◌>>=◌, or_panic, inner_plaintext, open_aead, open_cbc,
  open_body, check_mac, decrypt, Opened, Decrypted,
}

-- A call that does not end with a close_notify.
abbrev pub NoClose {ℓ} : {A : Type ℓ} → Result A → Type 0
NoClose (alert a) = a ≢ alert_close_notify
NoClose (ok a) = Unit
NoClose (io_error n) = Unit
NoClose panic = Unit

pub data Fatal {ℓ} {A : Type ℓ} (r : Result A) : Type 0 where
  fatal : NoClose r → Fatal r

pub Fatal-NoClose {ℓ} : {A : Type ℓ} {r : Result A} → Fatal r → NoClose r
Fatal-NoClose (fatal h) = h

Fatal-bind {ℓ κ} :
    {A : Type ℓ} {B : Type κ} (r : Result A) (f : A → Result B)
    → Fatal r
    → ((a : A) → Fatal (f a))
    → Fatal (r >>= f)
Fatal-bind (ok a) f h g = g a
Fatal-bind (alert a) f (fatal h) g = fatal h
Fatal-bind (io_error n) f h g = fatal tt
Fatal-bind panic f h g = fatal tt

Fatal-or_panic {ℓ} : {A : Type ℓ} (o : Option A) → Fatal (or_panic o)
Fatal-or_panic none = fatal tt
Fatal-or_panic (some a) = fatal tt

Fatal-if {ℓ} :
    {A : Type ℓ} (b : Bool) (r s : Result A) → Fatal r → Fatal s → Fatal (if b then r else s)
Fatal-if true r s h g = h
Fatal-if false r s h g = g

Fatal-inner : (version typ : ℕ) (plaintext : List ℕ) → Fatal (inner_plaintext version typ plaintext)
unfolding inner_plaintext
Fatal-inner version typ plaintext = fatal (ground arith)

module _ (ops : Ops) where
  Fatal-open_aead :
      (hc : HalfConn) (a : Aead) (n : ℕ) (rec payload : List ℕ)
      → Fatal (open_aead ops hc a n rec payload)
  unfolding open_aead
  Fatal-open_aead hc a n rec payload = fatal (ground arith)

  Fatal-open_cbc :
      (hc : HalfConn) (c : Cbc) (mac n : ℕ) (payload : List ℕ)
      → Fatal (open_cbc ops hc c mac n payload)
  unfolding open_cbc
  Fatal-open_cbc hc c mac n payload = fatal (ground arith)

  Fatal-open_body :
      (hc : HalfConn) (n : ℕ) (rec payload : List ℕ) (k : Cipher)
      → hc.cipher ≡ k
      → Fatal (open_body ops hc n rec payload)
  unfolding open_body
  Fatal-open_body hc n rec payload absent e = rw (e, open_body) (fatal tt)
  Fatal-open_body hc n rec payload (stream h) e = rw (e, open_body) (fatal tt)
  Fatal-open_body hc n rec payload (aead a) e =
      rw (e, open_body) (Fatal-open_aead hc a n rec payload)
  Fatal-open_body hc n rec payload (cbc c) e =
      rw (e, open_body)
        (Fatal-bind (or_panic hc.mac) _ (Fatal-or_panic hc.mac)
          (λ mac. Fatal-open_cbc hc c mac n payload))
  Fatal-open_body hc n rec payload ktls e = rw (e, open_body) (fatal tt)

  Fatal-check_mac :
      (hc : HalfConn) (mac : Option ℕ) (rec : List ℕ) (o : Opened) (plaintext : List ℕ)
      → Fatal (check_mac ops hc mac rec o plaintext)
  unfolding check_mac
  Fatal-check_mac hc none rec o plaintext = fatal tt
  Fatal-check_mac hc (some mac) rec o plaintext = fatal (ground arith)

  -- The chain of decrypt, by what its parts are.
  Fatal-chain :
      (skip : Bool) (r : Decrypted) (len : Option ℕ) (open_it : ℕ → Result Opened)
      (inner : Opened → Result (List ℕ × ℕ)) (checked : Opened → List ℕ → Result (List ℕ))
      (next : Opened → Result HalfConn) (end_with : List ℕ → ℕ → HalfConn → Decrypted)
      → ((n : ℕ) → Fatal (open_it n))
      → ((o : Opened) → Fatal (inner o))
      → ((o : Opened) (p : List ℕ) → Fatal (checked o p))
      → ((o : Opened) → Fatal (next o))
      → Fatal (
          if skip
          then ok r
          else (or_panic len >>= λ n. open_it n >>= λ o.
              inner o >>= λ x. checked o x.0 >>= λ p. next o >>= λ h. ok (end_with p x.1 h)))
  Fatal-chain skip r len open_it inner checked next end_with f g h k =
      Fatal-if skip (ok r) _ (fatal tt) (
        Fatal-bind (or_panic len) _ (Fatal-or_panic len) (λ n. Fatal-bind (open_it n) _ (f n) (λ o.
          Fatal-bind (inner o) _ (g o) (λ x.
            Fatal-bind (checked o x.0) _ (h o x.0)
              (λ p. Fatal-bind (next o) _ (k o) (λ s. fatal tt))))))

  -- decrypt never asks for a close_notify.
  pub Fatal-decrypt : (hc : HalfConn) (rec : List ℕ) → Fatal (decrypt ops hc rec)
  unfolding decrypt
  Fatal-decrypt hc rec =
      let typ = get_or rec 0 0 in
      Fatal-chain ((hc.version == version_tls13) && (typ == record_type_change_cipher_spec))
        (record { plaintext = drop 5 rec; typ = typ; state = hc }) (explicit_nonce_len hc)
        (λ n. open_body ops hc n rec (drop 5 rec))
        (λ o.
          if is_absent hc.cipher
          then ok (o.plaintext, typ)
          else inner_plaintext hc.version typ o.plaintext)
        (λ o p. check_mac ops hc hc.mac rec o p)
        (λ o. or_panic (inc_seq hc.seq) >>= λ seq. ok (record hc { cipher = o.cipher; seq = seq }))
        (λ p t s. record { plaintext = p; typ = t; state = s })
        (λ n. Fatal-open_body hc n rec (drop 5 rec) hc.cipher refl)
        (λ o.
          Fatal-if (is_absent hc.cipher) (ok (o.plaintext, typ)) _ (fatal tt)
            (Fatal-inner hc.version typ o.plaintext))
        (λ o p. Fatal-check_mac hc hc.mac rec o p)
        (λ o.
          Fatal-bind (or_panic (inc_seq hc.seq)) _ (Fatal-or_panic (inc_seq hc.seq))
            (λ s. fatal tt))
