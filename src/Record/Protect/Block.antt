-- ===== src/Record/Protect/Block.antt =====
-- The block size of the cipher across encrypt of conn.go.
use goktls.Base.{
  ℕ, ◌≡◌, refl, ◌⊎◌, List, [], ◌++◌, ◌-◌, length, Option, none, some, if◌then◌else◌, ◌==◌,
}
use goktls.Cipher.{Cipher, Ops, absent, stream, aead, cbc, ktls}
use goktls.Protocol.{record_header_len}
use goktls.Record.HalfConn.{HalfConn, explicit_nonce_len}
use goktls.Record.Protect.Values.{Always, always, Always-ok, Always-bind, Always-then, Always-holds}
use goktls.Record.Protect.{
  Result, ok, ◌>>=◌, or_panic, explicit_nonce, encrypt_body, encrypt_cbc, encrypt_stream, encrypt,
  set_length,
}
use goktls.Record.Seq.{inc_seq}

-- The block sizes of 3DES and AES.
abbrev pub HasKnownBlock : Cipher → Type 0
HasKnownBlock (cbc c) = (c.block_size ≡ 8) ⊎ (c.block_size ≡ 16)
HasKnownBlock absent = Unit {0}
HasKnownBlock (stream h) = Unit {0}
HasKnownBlock (aead a) = Unit {0}
HasKnownBlock ktls = Unit {0}

abbrev Known : List ℕ × HalfConn → Type 0
Known p = HasKnownBlock p.1.cipher

advanced_keeps :
    (rec : List ℕ) (hc : HalfConn) (next : Option (List ℕ)) (f : List ℕ → List ℕ)
    → HasKnownBlock hc.cipher
    → Always Known (or_panic next >>= (λ seq. ok (record hc { seq = seq })) >>= λ h. ok (f rec, h))
advanced_keeps rec hc none f known = always λ p e. absurd (cc e)
advanced_keeps rec hc (some seq) f known = Always-ok Known (f rec, record hc { seq = seq }) known

module _ (ops : Ops) where
  encrypt_body_keeps :
      (hc : HalfConn) (rec nonce payload : List ℕ) (k : Cipher)
      → hc.cipher ≡ k
      → HasKnownBlock k
      → Always Known (encrypt_body ops hc rec nonce payload)
  unfolding encrypt_body encrypt_cbc encrypt_stream
  encrypt_body_keeps hc rec nonce payload absent e known =
      rw (e, encrypt_body) (always λ p h. absurd (cc h))
  encrypt_body_keeps hc rec nonce payload (stream h) e known =
      rw (e, encrypt_body) (Always-bind Known (or_panic hc.mac) _ λ mac. Always-ok Known _ tt)
  encrypt_body_keeps hc rec nonce payload (aead a) e known =
      rw (e, encrypt_body) (Always-ok Known _ (rw e tt))
  encrypt_body_keeps hc rec nonce payload (cbc c) e known =
      rw (e, encrypt_body) (Always-bind Known (or_panic hc.mac) _ λ mac. Always-ok Known _ known)
  encrypt_body_keeps hc rec nonce payload ktls e known =
      rw (e, encrypt_body) (always λ p h. absurd (cc h))

  -- The rest of encrypt behind the nonce.
  encrypt_rest_keeps :
      (hc : HalfConn) (rec payload : List ℕ) (len : Option ℕ) (nonce_of : ℕ → Result (List ℕ))
      (f : List ℕ → List ℕ)
      → HasKnownBlock hc.cipher
      → Always Known (
          or_panic len >>= λ n. nonce_of n >>= λ nonce.
          encrypt_body ops hc (rec ++ nonce) nonce payload >>= λ p.
          or_panic (inc_seq p.1.seq) >>= (λ seq. ok (record p.1 { seq = seq })) >>= λ h.
          ok (f p.0, h))
  encrypt_rest_keeps hc rec payload len nonce_of f known = Always-bind Known (or_panic len) _ λ n.
      Always-bind Known (nonce_of n) _ λ nonce.
        Always-then Known Known (encrypt_body ops hc (rec ++ nonce) nonce payload) _
          (encrypt_body_keeps hc (rec ++ nonce) nonce payload hc.cipher refl known)
          λ p kept. advanced_keeps p.0 p.1 (inc_seq p.1.seq) f kept

  encrypt_case_keeps :
      (rand : ℕ → Option (List ℕ)) (hc : HalfConn) (header payload : List ℕ) (k : Cipher)
      → hc.cipher ≡ k
      → HasKnownBlock hc.cipher
      → Always Known (encrypt ops rand hc header payload)
  unfolding encrypt
  encrypt_case_keeps rand hc header payload absent e known =
      rw (encrypt, e) (Always-ok Known (header ++ payload, hc) known)
  encrypt_case_keeps rand hc header payload (stream h) e known =
      rw (encrypt, e)
        (encrypt_rest_keeps hc header payload (explicit_nonce_len hc)
          (λ n. if n == 0 then ok [] else explicit_nonce rand hc n)
          (λ rec. set_length rec (length rec - record_header_len)) known)
  encrypt_case_keeps rand hc header payload (aead a) e known =
      rw (encrypt, e)
        (encrypt_rest_keeps hc header payload (explicit_nonce_len hc)
          (λ n. if n == 0 then ok [] else explicit_nonce rand hc n)
          (λ rec. set_length rec (length rec - record_header_len)) known)
  encrypt_case_keeps rand hc header payload (cbc c) e known =
      rw (encrypt, e)
        (encrypt_rest_keeps hc header payload (explicit_nonce_len hc)
          (λ n. if n == 0 then ok [] else explicit_nonce rand hc n)
          (λ rec. set_length rec (length rec - record_header_len)) known)
  encrypt_case_keeps rand hc header payload ktls e known =
      rw (encrypt, e)
        (encrypt_rest_keeps hc header payload (explicit_nonce_len hc)
          (λ n. if n == 0 then ok [] else explicit_nonce rand hc n)
          (λ rec. set_length rec (length rec - record_header_len)) known)

  pub encrypt_keeps :
      (rand : ℕ → Option (List ℕ)) (hc : HalfConn) (header payload rec : List ℕ) (hc' : HalfConn)
      → HasKnownBlock hc.cipher
      → encrypt ops rand hc header payload ≡ ok (rec, hc')
      → HasKnownBlock hc'.cipher
  encrypt_keeps rand hc header payload rec hc' known e =
      Always-holds Known (encrypt_case_keeps rand hc header payload hc.cipher refl known) (rec, hc')
        e
