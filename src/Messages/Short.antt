-- ===== src/Messages/Short.antt =====
-- keyUpdateMsg, certificateStatusMsg, finishedMsg and certificateVerifyMsg of handshake_messages.go.
use goktls.Base.{
  ℕ, ◌<◌, ◌==◌, ◌≡◌, refl, sym, ap, ◌∙◌, Bool, true, false, not, ◌||◌, List, [], ◌∷◌, Option, none,
  some, length, if◌then◌else◌, arith, Bool-cases, inl, inr,
}
use goktls.Wire.{Width, CryptoByte, IsLawful}
use goktls.Wire.Build.{
  ◌>>=◌, optional, add_bytes, add_uint, add_prefixed, in_turn, is_empty, is_empty-eq_false,
  read_prefixed-add, read_uint-add, ⊕-nothing, nothing-⊕,
}
use goktls.Messages.{
  type_key_update, type_certificate_status, type_finished, type_certificate_verify,
  status_type_ocsp,
}
use goktls.Messages.Framing.{framed, marshal_with, marshal_with-framed, marshal_with-framed_whole}

pub record KeyUpdateMsg : Type 0 where
  pub raw : Option (List ℕ)
  pub update_requested : Bool

pub record CertificateStatusMsg : Type 0 where
  pub raw : Option (List ℕ)
  pub response : List ℕ

pub record FinishedMsg : Type 0 where
  pub raw : Option (List ℕ)
  pub verify_data : List ℕ

-- The flag is set by the receiver, who knows the version.
pub record CertificateVerifyMsg : Type 0 where
  pub raw : Option (List ℕ)
  pub has_signature_algorithm : Bool
  pub signature_algorithm : ℕ
  pub signature : List ℕ

unfoldable pub flag_byte : Bool → ℕ
flag_byte true = 1
flag_byte false = 0

unfoldable pub read_flag : ℕ → Option Bool
read_flag requested =
    if requested == 0 then some false else if requested == 1 then some true else none

read_flag-flag_byte : (b : Bool) → (flag_byte b < 256) × (read_flag (flag_byte b) ≡ some b)
unfolding flag_byte read_flag
read_flag-flag_byte true = (omega arith, refl)
read_flag-flag_byte false = (omega arith, refl)

module _ (cb : CryptoByte) where
  unfoldable pub marshal_key_update : KeyUpdateMsg → Option (List ℕ × KeyUpdateMsg)
  unfolding flag_byte
  marshal_key_update m =
      marshal_with m.raw m (λ bytes. record m { raw = some bytes })
        (framed cb type_key_update
          (in_turn (add_uint cb Width.w8 (flag_byte m.update_requested) ∷ [])))

  unfoldable pub unmarshal_key_update : List ℕ → Option KeyUpdateMsg
  unfolding read_flag
  unmarshal_key_update bytes = do
    s ← cb.skip 4 bytes
    (requested, left) ← cb.read_uint Width.w8 s
    flag ← (if not (is_empty left) then none else read_flag requested)
    some (record { raw = some bytes; update_requested = flag })

  unfoldable pub marshal_certificate_status :
      CertificateStatusMsg → Option (List ℕ × CertificateStatusMsg)
  marshal_certificate_status m =
      marshal_with m.raw m (λ bytes. record m { raw = some bytes })
        (framed cb type_certificate_status (
          in_turn (
            add_uint cb Width.w8 status_type_ocsp
            ∷ add_prefixed cb Width.w24 (add_bytes m.response)
            ∷ [])))

  unfoldable pub unmarshal_certificate_status : List ℕ → Option CertificateStatusMsg
  unmarshal_certificate_status bytes = do
    s ← cb.skip 4 bytes
    (status_type, s) ← cb.read_uint Width.w8 s
    (response, left) ←
        (if not (status_type == status_type_ocsp) then none else cb.read_prefixed Width.w24 s)
    if is_empty response || not (is_empty left)
        then none
        else some (record { raw = some bytes; response = response })

  unfoldable pub marshal_finished : FinishedMsg → Option (List ℕ × FinishedMsg)
  marshal_finished m =
      marshal_with m.raw m (λ bytes. record m { raw = some bytes })
        (framed cb type_finished (in_turn (add_bytes m.verify_data ∷ [])))

  -- Only the type is skipped: the length is read.
  unfoldable pub unmarshal_finished : List ℕ → Option FinishedMsg
  unmarshal_finished bytes = do
    s ← cb.skip 1 bytes
    (verify_data, left) ← cb.read_prefixed Width.w24 s
    if is_empty left then some (record { raw = some bytes; verify_data = verify_data }) else none

  unfoldable pub marshal_certificate_verify :
      CertificateVerifyMsg → Option (List ℕ × CertificateVerifyMsg)
  marshal_certificate_verify m =
      marshal_with m.raw m (λ bytes. record m { raw = some bytes })
        (framed cb type_certificate_verify (
          in_turn (
            optional m.has_signature_algorithm (add_uint cb Width.w16 m.signature_algorithm)
            ∷ add_prefixed cb Width.w16 (add_bytes m.signature)
            ∷ [])))

  unfoldable pub unmarshal_certificate_verify :
      CertificateVerifyMsg → List ℕ → Option CertificateVerifyMsg
  unmarshal_certificate_verify m bytes = do
    s ← cb.skip 4 bytes
    (algorithm, s) ←
        (if m.has_signature_algorithm
          then cb.read_uint Width.w16 s
          else some (m.signature_algorithm, s))
    (signature, left) ← cb.read_prefixed Width.w16 s
    if not (is_empty left)
        then none
        else some
            (record m { raw = some bytes; signature_algorithm = algorithm; signature = signature })

module _ (cb : CryptoByte) (laws : IsLawful cb) where
  pub unmarshal-marshal_key_update :
      (m : KeyUpdateMsg) {bytes : List ℕ} {m' : KeyUpdateMsg}
      → m.raw ≡ none
      → marshal_key_update cb m ≡ some (bytes, m')
      → unmarshal_key_update cb bytes ≡ some m'
  unfolding marshal_key_update unmarshal_key_update
  unmarshal-marshal_key_update m {bytes} fresh e =
      let (s, e_s, e_skip, kept) =
        marshal_with-framed cb laws type_key_update _ m.raw m _ fresh e in
      let (small, flag) = read_flag-flag_byte m.update_requested in
      let (left, e_left, len, e_read) =
        read_uint-add cb laws Width.w8 (flag_byte m.update_requested) (some []) small e_s in
      let nothing : left ≡ [] = ground arith in
      let back : unmarshal_key_update cb bytes ≡ some (record m { raw = some bytes }) =
        rw (e_skip, e_read, nothing, flag) in
      back ∙ ap some (sym kept)

  pub unmarshal-marshal_certificate_status :
      (m : CertificateStatusMsg) {bytes : List ℕ} {m' : CertificateStatusMsg}
      → m.raw ≡ none
      → 0 < length m.response
      → marshal_certificate_status cb m ≡ some (bytes, m')
      → unmarshal_certificate_status cb bytes ≡ some m'
  unfolding marshal_certificate_status unmarshal_certificate_status
  unmarshal-marshal_certificate_status m {bytes} fresh long e =
      let (s, e_s, e_skip, kept) =
        marshal_with-framed cb laws type_certificate_status _ m.raw m _ fresh e in
      let (s1, e1, len1, r1) =
        read_uint-add cb laws Width.w8 status_type_ocsp _ (omega arith) e_s in
      let (response, left, e_r, e_left, len2, r2) =
        read_prefixed-add cb laws Width.w24 (add_bytes m.response) (some []) e1 in
      let same : response ≡ m.response = ground arith in
      let nothing : left ≡ [] = ground arith in
      let back : unmarshal_certificate_status cb bytes ≡ some (record m { raw = some bytes }) =
        rw (e_skip, r1, r2, same, nothing, is_empty-eq_false m.response long) in
      back ∙ ap some (sym kept)

  pub unmarshal-marshal_finished :
      (m : FinishedMsg) {bytes : List ℕ} {m' : FinishedMsg}
      → m.raw ≡ none
      → marshal_finished cb m ≡ some (bytes, m')
      → unmarshal_finished cb bytes ≡ some m'
  unfolding marshal_finished unmarshal_finished
  unmarshal-marshal_finished m {bytes} fresh e =
      let (s, rest, e_s, e_skip, e_read, kept) =
        marshal_with-framed_whole cb laws type_finished _ m.raw m _ fresh e in
      let same : s ≡ m.verify_data = ground (arith, ⊕-nothing (add_bytes m.verify_data)) in
      let back : unmarshal_finished cb bytes ≡ some (record m { raw = some bytes }) =
        rw (e_skip, e_read, same) in
      back ∙ ap some (sym kept)

  -- A CertificateVerify is read back by a receiver with the same flag, whatever else it held before:
  -- with the flag the algorithm and the signature, without it the signature alone.
  pub unmarshal-marshal_certificate_verify :
      (m old : CertificateVerifyMsg) {bytes : List ℕ} {m' : CertificateVerifyMsg}
      → m.raw ≡ none
      → m.signature_algorithm < 65536
      → old.has_signature_algorithm ≡ m.has_signature_algorithm
      → marshal_certificate_verify cb m ≡ some (bytes, m')
      → unmarshal_certificate_verify cb old bytes
        ≡ some (record m' {
          signature_algorithm =
              if m.has_signature_algorithm then m.signature_algorithm else old.signature_algorithm;
        })
  unfolding marshal_certificate_verify unmarshal_certificate_verify
  unmarshal-marshal_certificate_verify m old {bytes} {m'} fresh small flag e =
      let (s, e_s, e_skip, kept) =
        marshal_with-framed cb laws type_certificate_verify _ m.raw m _ fresh e in
      elim (Bool-cases m.has_signature_algorithm) [
        | inl algorithm ↦
            let e' = rw algorithm at e_s in
            let (s1, e1, len1, r1) =
              read_uint-add cb laws Width.w16 m.signature_algorithm _ small e' in
            let (signature, left, e_sig, e_left, len2, r2) =
              read_prefixed-add cb laws Width.w16 (add_bytes m.signature) (some []) e1 in
            let same : signature ≡ m.signature = ground arith in
            let nothing : left ≡ [] = ground arith in
            rw (e_skip, flag, algorithm, r1, r2, same, nothing) (ground arith)
        | inr no_algorithm ↦
            let e' = sym (nothing-⊕ _) ∙ (rw no_algorithm at e_s) in
            let (signature, left, e_sig, e_left, len2, r2) =
              read_prefixed-add cb laws Width.w16 (add_bytes m.signature) (some []) e' in
            let same : signature ≡ m.signature = ground arith in
            let nothing : left ≡ [] = ground arith in
            rw (e_skip, flag, no_algorithm, r2, same, nothing) (ground arith)
      ]
