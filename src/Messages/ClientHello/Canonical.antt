-- ===== src/Messages/ClientHello/Canonical.antt =====
-- The clientHelloMsg values that can be read back.
use goktls.Base.{◌<◌, ◌≡◌, false, [], length, All, contains}
use goktls.Wire.Build.{is_empty}
use goktls.Messages.{IsWords, IsFilled, scsv_renegotiation, KeyShare, PskIdentity}
use goktls.Messages.ClientHello.{ClientHelloMsg}
use goktls.Messages.ClientHello.Unmarshal.{has_trailing_dot}

abbrev pub IsShare : KeyShare → Type 0
IsShare ks = (ks.group < 65536) × (0 < length ks.key_data)

abbrev pub IsIdentity : PskIdentity → Type 0
IsIdentity psk = (0 < length psk.label) × (psk.obfuscated_ticket_age < 4294967296)

-- What the fields of the Go type and the rules of the RFCs require: numbers in their ranges, no
-- empty entries, and a field that its flag leaves out is empty.
pub record IsCanonical (h : ClientHelloMsg) : Type 0 where
  pub vers : h.vers < 65536
  pub cipher_suites : IsWords h.cipher_suites
  pub server_name : has_trailing_dot h.server_name ≡ false
  pub curves : IsWords h.supported_curves
  pub ticket : h.ticket_supported ≡ false → h.session_ticket ≡ []
  pub signature_algorithms : IsWords h.supported_signature_algorithms
  pub signature_algorithms_cert : IsWords h.supported_signature_algorithms_cert
  pub renegotiation : h.secure_renegotiation_supported ≡ false → h.secure_renegotiation ≡ []
  pub scsv :
      h.secure_renegotiation_supported ≡ false → contains h.cipher_suites scsv_renegotiation ≡ false
  pub alpn : IsFilled h.alpn_protocols
  pub versions : IsWords h.supported_versions
  pub key_shares : All IsShare h.key_shares
  pub identities : All IsIdentity h.psk_identities
  pub binders : IsFilled h.psk_binders
  pub together : is_empty h.psk_identities ≡ is_empty h.psk_binders
