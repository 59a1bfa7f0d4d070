-- ===== src/Messages/Certificate13.antt =====
-- certificateMsgTLS13 of handshake_messages.go, with marshalCertificate and unmarshalCertificate. Of a
-- Certificate it has what the message holds; a staple or a list of timestamps that is nil is `none`.
pub mod Entries
pub mod RoundTrip
use goktls.Base.{
  ℕ, zero, suc, ◌+◌, ◌<◌, ◌≤◌, ◌==◌, ◌≡◌, refl, sym, ap, ◌∙◌, Bool, true, false, not, ◌||◌, List,
  [], ◌∷◌, ◌++◌, Option, none, some, length, All, if◌then◌else◌, contains, arith, Bool-cases, inl,
  inr, ltb, append-nil, append_assoc,
}
use goktls.Wire.{Width, CryptoByte, IsLawful}
use goktls.Wire.Build.{
  Builder, ◌⊕◌, in_turn_two-⊕, ◌>>=◌, >>=-eq-some, optional, each, add_bytes, add_bytes_with_length,
  add_uint, add_prefixed, in_turn, is_empty, is_empty-eq_false, read_prefixed-only,
  read_prefixed-add, read_uint-add, read_uint-only, read_bytes-add, skip-header, ⊕-nothing,
  add_prefixed-nothing, nothing-⊕,
}
use goktls.Wire.Lists.{
  Parses, Reader, read_list, read_list-each, uints, strings, read_some, read_some-only,
  read_some-add, read_elements, read_elements-uints, read_elements-strings_only,
}
use goktls.Wire.Extensions.{
  extension, empty_extension, read_extensions, Handles, Reads, Reads-extension, Reads-empty,
  Reads-done, Reads-all,
}
use goktls.Messages.{
  type_encrypted_extensions, type_key_update, type_new_session_ticket, type_certificate_request,
  type_certificate, type_certificate_status, type_finished, type_certificate_verify,
  extension_status_request, extension_alpn, extension_sct, extension_early_data,
  extension_signature_algorithms, extension_signature_algorithms_cert,
  extension_certificate_authorities, status_type_ocsp, full, lacks, IsFilled, IsWords,
}
use goktls.Messages.Framing.{framed, marshal_with, marshal_with-framed}

pub record Certificate : Type 0 where
  pub chain : List (List ℕ)
  pub ocsp_staple : Option (List ℕ)
  pub timestamps : Option (List (List ℕ))

pub record CertificateMsg13 : Type 0 where
  pub raw : Option (List ℕ)
  pub certificate : Certificate
  pub ocsp_stapling : Bool
  pub scts : Bool

abbrev pub is_some {ℓ} : {A : Type ℓ} → Option A → Bool
is_some none = false
is_some (some a) = true

abbrev pub or_nil {ℓ} : {A : Type ℓ} → Option (List A) → List A
or_nil none = []
or_nil (some xs) = xs

-- What the flags leave of the certificate.
unfoldable pub as_flagged : CertificateMsg13 → Certificate
as_flagged m = record m.certificate {
  ocsp_staple = if m.ocsp_stapling then m.certificate.ocsp_staple else none;
  timestamps = if m.scts then m.certificate.timestamps else none;
}

module _ (cb : CryptoByte) where
  unfoldable pub staple : Certificate → Builder
  staple c = in_turn (
      add_uint cb Width.w8 status_type_ocsp
      ∷ add_prefixed cb Width.w24 (add_bytes (or_nil c.ocsp_staple))
      ∷ [])

  unfoldable pub leaf_extensions : Certificate → Builder
  leaf_extensions c = in_turn (
      optional (is_some c.ocsp_staple) (extension cb extension_status_request (staple c))
      ∷ optional (is_some c.timestamps)
          (extension cb extension_sct (strings cb Width.w16 Width.w16 (or_nil c.timestamps)))
      ∷ [])

  -- The loop over the chain; only the leaf, at index 0, has extensions.
  unfoldable pub entries : Certificate → ℕ → List (List ℕ) → Builder
  entries c i [] = some []
  entries c i (cert ∷ certs) =
      in_turn (
        add_prefixed cb Width.w24 (add_bytes cert)
        ∷ add_prefixed cb Width.w16 (if ltb 0 i then some [] else leaf_extensions c)
        ∷ [])
      ⊕ entries c (suc i) certs

  unfoldable pub marshal_certificate : Certificate → Builder
  unfolding entries
  marshal_certificate c = add_prefixed cb Width.w24 (entries c 0 c.chain)

  unfoldable pub marshal : CertificateMsg13 → Option (List ℕ × CertificateMsg13)
  unfolding marshal_certificate as_flagged
  marshal m =
      marshal_with m.raw m (λ bytes. record m { raw = some bytes })
        (framed cb type_certificate
          (in_turn (add_uint cb Width.w8 0 ∷ marshal_certificate (as_flagged m) ∷ [])))

  abbrev Parser : Type 0
  Parser = List ℕ → Certificate → Option (Certificate × List ℕ)

  unfoldable pub parse_status_request : Parser
  parse_status_request ext_data c = do
    (status_type, rest) ← cb.read_uint Width.w8 ext_data
    (response, left) ←
        (if not (status_type == status_type_ocsp) then none else read_some cb Width.w24 rest)
    some (record c { ocsp_staple = some response }, left)

  unfoldable pub parse_sct : Parser
  parse_sct ext_data c = do
    (scts, left) ← read_elements cb Width.w16 (read_some cb Width.w16) ext_data
    some (record c { timestamps = some (or_nil c.timestamps ++ scts) }, left)

  -- The extensions of the other certificates are not looked at.
  unfoldable pub parse_extension : ℕ → List ℕ → List ℕ → Certificate → Option (Certificate × List ℕ)
  unfolding parse_status_request parse_sct
  parse_extension typ ext_data extensions c =
      if ltb 1 (length c.chain)
      then some (c, [])
      else if typ == extension_status_request
      then parse_status_request ext_data c
      else if typ == extension_sct
      then parse_sct ext_data c
      else some (c, [])

  -- The loop over the list of certificates, whose length is enough fuel.
  unfoldable pub read_entries : ℕ → List ℕ → Certificate → Option Certificate
  unfolding parse_extension
  read_entries fuel [] c = some c
  read_entries zero (x ∷ s) c = none
  read_entries (suc fuel) (x ∷ s) c = do
    (cert, rest) ← cb.read_prefixed Width.w24 (x ∷ s)
    (extensions, rest') ← cb.read_prefixed Width.w16 rest
    c' ←
        read_extensions cb parse_extension false (length extensions) extensions []
          (record c { chain = c.chain ++ cert ∷ [] })
    read_entries fuel rest' c'

  unfoldable pub unmarshal_certificate : List ℕ → Option (Certificate × List ℕ)
  unfolding read_entries
  unmarshal_certificate s = do
    (cert_list, rest) ← cb.read_prefixed Width.w24 s
    c ←
        read_entries (length cert_list) cert_list
          (record { chain = []; ocsp_staple = none; timestamps = none })
    some (c, rest)

  unfoldable pub unmarshal : List ℕ → Option CertificateMsg13
  unfolding unmarshal_certificate
  unmarshal bytes = do
    s ← cb.skip 4 bytes
    (context, s) ← cb.read_prefixed Width.w8 s
    (c, left) ← (if not (is_empty context) then none else unmarshal_certificate s)
    if not (is_empty left)
        then none
        else some (record {
          raw = some bytes;
          certificate = c;
          ocsp_stapling = is_some c.ocsp_staple;
          scts = is_some c.timestamps;
        })
