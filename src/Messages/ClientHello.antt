-- ===== src/Messages/ClientHello.antt =====
-- clientHelloMsg of handshake_messages.go and its marshal.
pub mod Unmarshal
pub mod Binders
pub mod Canonical
pub mod Steps
pub mod Structured
pub mod RoundTrip
use goktls.Base.{
  ℕ, ◌+◌, ◌-◌, ◌<◌, ◌==◌, ◌≡◌, Bool, true, false, not, List, [], ◌∷◌, ◌++◌, Option, none, some,
  length, All, if◌then◌else◌, take, contains,
}
use goktls.Wire.{Width, CryptoByte}
use goktls.Wire.Build.{
  Builder, ◌⊕◌, ◌>>=◌, optional, each, add_bytes, add_bytes_with_length, add_uint, add_prefixed,
  in_turn, is_empty,
}
use goktls.Wire.Extensions.{extension, empty_extension}
use goktls.Wire.Lists.{uints, strings}
use goktls.Messages.{
  type_client_hello, extension_server_name, extension_status_request, extension_supported_curves,
  extension_supported_points, extension_signature_algorithms, extension_alpn, extension_sct,
  extension_session_ticket, extension_pre_shared_key, extension_early_data,
  extension_supported_versions, extension_cookie, extension_psk_modes,
  extension_signature_algorithms_cert, extension_key_share, extension_renegotiation_info, KeyShare,
  PskIdentity,
}

pub record ClientHelloMsg : Type 0 where
  pub raw : Option (List ℕ)
  pub vers : ℕ
  pub random : List ℕ
  pub session_id : List ℕ
  pub cipher_suites : List ℕ
  pub compression_methods : List ℕ
  pub server_name : List ℕ
  pub ocsp_stapling : Bool
  pub supported_curves : List ℕ
  pub supported_points : List ℕ
  pub ticket_supported : Bool
  pub session_ticket : List ℕ
  pub supported_signature_algorithms : List ℕ
  pub supported_signature_algorithms_cert : List ℕ
  pub secure_renegotiation_supported : Bool
  pub secure_renegotiation : List ℕ
  pub alpn_protocols : List (List ℕ)
  pub scts : Bool
  pub supported_versions : List ℕ
  pub cookie : List ℕ
  pub key_shares : List KeyShare
  pub early_data : Bool
  pub psk_modes : List ℕ
  pub psk_identities : List PskIdentity
  pub psk_binders : List (List ℕ)

-- `clientHelloMsg{raw: data}`.
abbrev pub blank : List ℕ → ClientHelloMsg
blank bytes = record {
  raw = some bytes;
  vers = 0;
  random = [];
  session_id = [];
  cipher_suites = [];
  compression_methods = [];
  server_name = [];
  ocsp_stapling = false;
  supported_curves = [];
  supported_points = [];
  ticket_supported = false;
  session_ticket = [];
  supported_signature_algorithms = [];
  supported_signature_algorithms_cert = [];
  secure_renegotiation_supported = false;
  secure_renegotiation = [];
  alpn_protocols = [];
  scts = false;
  supported_versions = [];
  cookie = [];
  key_shares = [];
  early_data = false;
  psk_modes = [];
  psk_identities = [];
  psk_binders = [];
}

module _ (cb : CryptoByte) where
  unfoldable pub key_share : KeyShare → Builder
  key_share ks =
      in_turn
        (add_uint cb Width.w16 ks.group ∷ add_prefixed cb Width.w16 (add_bytes ks.key_data) ∷ [])

  unfoldable pub psk_identity : PskIdentity → Builder
  psk_identity psk = in_turn (
      add_prefixed cb Width.w16 (add_bytes psk.label)
      ∷ add_uint cb Width.w32 psk.obfuscated_ticket_age
      ∷ [])

  unfoldable pub host_name : List ℕ → Builder
  host_name name =
      in_turn (add_uint cb Width.w8 0 ∷ add_prefixed cb Width.w16 (add_bytes name) ∷ [])

  unfoldable pub binders : List (List ℕ) → Builder
  binders bs = strings cb Width.w16 Width.w8 bs

  -- The extensions, in the order of the code.
  pub extensions : ClientHelloMsg → Builder
  unfolding key_share psk_identity host_name binders
  extensions m = in_turn (
      optional (not (is_empty m.server_name))
        (extension cb extension_server_name (add_prefixed cb Width.w16 (host_name m.server_name)))
      ∷ optional m.ocsp_stapling (
          extension cb extension_status_request (
            in_turn
              (add_uint cb Width.w8 1 ∷ add_uint cb Width.w16 0 ∷ add_uint cb Width.w16 0 ∷ [])))
      ∷ optional (not (is_empty m.supported_curves))
          (extension cb extension_supported_curves (uints cb Width.w16 m.supported_curves))
      ∷ optional (not (is_empty m.supported_points)) (
          extension cb extension_supported_points
            (add_prefixed cb Width.w8 (add_bytes m.supported_points)))
      ∷ optional m.ticket_supported
          (extension cb extension_session_ticket (add_bytes m.session_ticket))
      ∷ optional (not (is_empty m.supported_signature_algorithms)) (
          extension cb extension_signature_algorithms
            (uints cb Width.w16 m.supported_signature_algorithms))
      ∷ optional (not (is_empty m.supported_signature_algorithms_cert)) (
          extension cb extension_signature_algorithms_cert
            (uints cb Width.w16 m.supported_signature_algorithms_cert))
      ∷ optional m.secure_renegotiation_supported (
          extension cb extension_renegotiation_info
            (add_prefixed cb Width.w8 (add_bytes m.secure_renegotiation)))
      ∷ optional (not (is_empty m.alpn_protocols))
          (extension cb extension_alpn (strings cb Width.w16 Width.w8 m.alpn_protocols))
      ∷ optional m.scts (empty_extension cb extension_sct)
      ∷ optional (not (is_empty m.supported_versions))
          (extension cb extension_supported_versions (uints cb Width.w8 m.supported_versions))
      ∷ optional (not (is_empty m.cookie))
          (extension cb extension_cookie (add_prefixed cb Width.w16 (add_bytes m.cookie)))
      ∷ optional (not (is_empty m.key_shares)) (
          extension cb extension_key_share
            (add_prefixed cb Width.w16 (each key_share m.key_shares)))
      ∷ optional m.early_data (empty_extension cb extension_early_data)
      ∷ optional (not (is_empty m.psk_modes))
          (extension cb extension_psk_modes (add_prefixed cb Width.w8 (add_bytes m.psk_modes)))
      ∷ optional (not (is_empty m.psk_identities)) (
          extension cb extension_pre_shared_key (
            in_turn (
              add_prefixed cb Width.w16 (each psk_identity m.psk_identities)
              ∷ binders m.psk_binders
              ∷ [])))
      ∷ [])

  -- The body of the message behind its type and length.
  pub fields : ClientHelloMsg → List ℕ → Builder
  fields m ext_bytes = in_turn (
      add_uint cb Width.w16 m.vers
      ∷ add_bytes_with_length m.random 32
      ∷ add_prefixed cb Width.w8 (add_bytes m.session_id)
      ∷ add_prefixed cb Width.w16 (each (add_uint cb Width.w16) m.cipher_suites)
      ∷ add_prefixed cb Width.w8 (add_bytes m.compression_methods)
      ∷ optional (not (is_empty ext_bytes)) (add_prefixed cb Width.w16 (add_bytes ext_bytes))
      ∷ [])

  -- The bytes, and the message that keeps them; `none` for an error.
  unfoldable pub marshal : ClientHelloMsg → Option (List ℕ × ClientHelloMsg)
  unfolding extensions fields
  marshal m = elim m.raw [
    | some raw ↦ some (raw, m)
    | none ↦ do
      ext_bytes ← extensions m
      bytes ← in_turn (
          add_uint cb Width.w8 type_client_hello
          ∷ add_prefixed cb Width.w24 (fields m ext_bytes)
          ∷ [])
      some (bytes, record m { raw = some bytes })
  ]
