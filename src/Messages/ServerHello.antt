-- ===== src/Messages/ServerHello.antt =====
-- serverHelloMsg of handshake_messages.go: marshal and unmarshal.
pub mod Canonical
pub mod Steps
pub mod RoundTrip
use goktls.Base.{
  ℕ, zero, suc, ◌+◌, ◌<◌, ◌≤◌, ◌==◌, ◌≡◌, refl, sym, ap, ◌∙◌, Bool, true, false, not, ◌||◌, List,
  [], ◌∷◌, ◌++◌, Option, none, some, length, All, if◌then◌else◌, contains, arith, Bool-cases, inl,
  inr,
}
use goktls.Wire.{Width, CryptoByte, IsLawful}
use goktls.Wire.Build.{
  Builder, ◌⊕◌, ◌>>=◌, >>=-eq-some, optional, each, add_bytes, add_bytes_with_length, add_uint,
  add_prefixed, in_turn, is_empty, is_empty-eq_false, read_prefixed-only, read_prefixed-add,
  read_uint-add, read_uint-only, length-add_uint, read_bytes-add, skip-header, ⊕-nothing,
}
use goktls.Wire.Lists.{
  strings, read_some, read_some-only, read_elements, read_elements-strings_only,
}
use goktls.Wire.Extensions.{
  extension, empty_extension, read_block, read_block-Reads, Handles, Reads, Reads-extension,
  Reads-empty, Reads-skip, Reads-done,
}
use goktls.Messages.{
  type_server_hello, extension_status_request, extension_session_ticket,
  extension_renegotiation_info, extension_alpn, extension_sct, extension_supported_versions,
  extension_key_share, extension_pre_shared_key, extension_cookie, extension_supported_points,
  KeyShare, full, lacks, IsFilled,
}
use goktls.Messages.Alpn.{one_protocol, read_protocol}

pub record ServerHelloMsg : Type 0 where
  pub raw : Option (List ℕ)
  pub vers : ℕ
  pub random : List ℕ
  pub session_id : List ℕ
  pub cipher_suite : ℕ
  pub compression_method : ℕ
  pub ocsp_stapling : Bool
  pub ticket_supported : Bool
  pub secure_renegotiation_supported : Bool
  pub secure_renegotiation : List ℕ
  pub alpn_protocol : List ℕ
  pub scts : List (List ℕ)
  pub supported_version : ℕ
  pub server_share : KeyShare
  pub selected_identity_present : Bool
  pub selected_identity : ℕ
  pub supported_points : List ℕ
  pub cookie : List ℕ
  pub selected_group : ℕ

-- `serverHelloMsg{raw: data}`.
abbrev pub blank : List ℕ → ServerHelloMsg
blank bytes = record {
  raw = some bytes;
  vers = 0;
  random = [];
  session_id = [];
  cipher_suite = 0;
  compression_method = 0;
  ocsp_stapling = false;
  ticket_supported = false;
  secure_renegotiation_supported = false;
  secure_renegotiation = [];
  alpn_protocol = [];
  scts = [];
  supported_version = 0;
  server_share = record { group = 0; key_data = [] };
  selected_identity_present = false;
  selected_identity = 0;
  supported_points = [];
  cookie = [];
  selected_group = 0;
}

module _ (cb : CryptoByte) where
  -- The extensions, in the order of the code.
  unfoldable pub extensions : ServerHelloMsg → Builder
  extensions m = in_turn (
      optional m.ocsp_stapling (empty_extension cb extension_status_request)
      ∷ optional m.ticket_supported (empty_extension cb extension_session_ticket)
      ∷ optional m.secure_renegotiation_supported (
          extension cb extension_renegotiation_info
            (add_prefixed cb Width.w8 (add_bytes m.secure_renegotiation)))
      ∷ optional (not (is_empty m.alpn_protocol))
          (extension cb extension_alpn (one_protocol cb m.alpn_protocol))
      ∷ optional (not (is_empty m.scts))
          (extension cb extension_sct (strings cb Width.w16 Width.w16 m.scts))
      ∷ optional (not (m.supported_version == 0))
          (extension cb extension_supported_versions (add_uint cb Width.w16 m.supported_version))
      ∷ optional (not (m.server_share.group == 0)) (
          extension cb extension_key_share (
            in_turn (
              add_uint cb Width.w16 m.server_share.group
              ∷ add_prefixed cb Width.w16 (add_bytes m.server_share.key_data)
              ∷ [])))
      ∷ optional m.selected_identity_present
          (extension cb extension_pre_shared_key (add_uint cb Width.w16 m.selected_identity))
      ∷ optional (not (is_empty m.cookie))
          (extension cb extension_cookie (add_prefixed cb Width.w16 (add_bytes m.cookie)))
      ∷ optional (not (m.selected_group == 0))
          (extension cb extension_key_share (add_uint cb Width.w16 m.selected_group))
      ∷ optional (not (is_empty m.supported_points)) (
          extension cb extension_supported_points
            (add_prefixed cb Width.w8 (add_bytes m.supported_points)))
      ∷ [])

  unfoldable pub fields : ServerHelloMsg → List ℕ → Builder
  fields m ext_bytes = in_turn (
      add_uint cb Width.w16 m.vers
      ∷ add_bytes_with_length m.random 32
      ∷ add_prefixed cb Width.w8 (add_bytes m.session_id)
      ∷ add_uint cb Width.w16 m.cipher_suite
      ∷ add_uint cb Width.w8 m.compression_method
      ∷ optional (not (is_empty ext_bytes)) (add_prefixed cb Width.w16 (add_bytes ext_bytes))
      ∷ [])

  -- The bytes, and the message that keeps them; `none` for an error.
  unfoldable pub marshal : ServerHelloMsg → Option (List ℕ × ServerHelloMsg)
  unfolding extensions fields
  marshal m = elim m.raw [
    | some raw ↦ some (raw, m)
    | none ↦ do
      ext_bytes ← extensions m
      bytes ← in_turn (
          add_uint cb Width.w8 type_server_hello
          ∷ add_prefixed cb Width.w24 (fields m ext_bytes)
          ∷ [])
      some (bytes, record m { raw = some bytes })
  ]

  abbrev Parser : Type 0
  Parser = List ℕ → ServerHelloMsg → Option (ServerHelloMsg × List ℕ)

  unfoldable pub parse_renegotiation_info : Parser
  parse_renegotiation_info ext_data m = do
    (info, left) ← cb.read_prefixed Width.w8 ext_data
    some (record m { secure_renegotiation = info; secure_renegotiation_supported = true }, left)

  unfoldable pub parse_alpn : Parser
  parse_alpn ext_data m = do
    (proto, left) ← read_protocol cb ext_data
    some (record m { alpn_protocol = proto }, left)

  unfoldable pub parse_sct : Parser
  parse_sct ext_data m = do
    (scts, left) ← read_elements cb Width.w16 (read_some cb Width.w16) ext_data
    some (record m { scts = m.scts ++ scts }, left)

  unfoldable pub parse_supported_versions : Parser
  parse_supported_versions ext_data m = do
    (version, left) ← cb.read_uint Width.w16 ext_data
    some (record m { supported_version = version }, left)

  unfoldable pub parse_cookie : Parser
  parse_cookie ext_data m = do
    (cookie, left) ← read_some cb Width.w16 ext_data
    some (record m { cookie = cookie }, left)

  -- The two formats: that of a HelloRetryRequest is two bytes long.
  unfoldable pub parse_selected_group : Parser
  parse_selected_group ext_data m = do
    (group, left) ← cb.read_uint Width.w16 ext_data
    some (record m { selected_group = group }, left)

  unfoldable pub parse_server_share : Parser
  parse_server_share ext_data m = do
    (group, rest) ← cb.read_uint Width.w16 ext_data
    (key_data, left) ← cb.read_prefixed Width.w16 rest
    some (record m { server_share = record { group = group; key_data = key_data } }, left)

  unfoldable pub parse_key_share : Parser
  unfolding parse_selected_group parse_server_share
  parse_key_share ext_data m =
      if length ext_data == 2
      then parse_selected_group ext_data m
      else parse_server_share ext_data m

  unfoldable pub parse_pre_shared_key : Parser
  parse_pre_shared_key ext_data m = do
    (identity, left) ← cb.read_uint Width.w16 ext_data
    some (record m { selected_identity_present = true; selected_identity = identity }, left)

  unfoldable pub parse_supported_points : Parser
  parse_supported_points ext_data m = do
    (points, left) ← read_some cb Width.w8 ext_data
    some (record m { supported_points = points }, left)

  unfoldable pub parse_extension :
      ℕ → List ℕ → List ℕ → ServerHelloMsg → Option (ServerHelloMsg × List ℕ)
  unfolding parse_renegotiation_info parse_alpn parse_sct parse_supported_versions parse_cookie
      parse_key_share parse_pre_shared_key parse_supported_points
  parse_extension typ ext_data extensions m =
      if typ == extension_status_request
      then some (record m { ocsp_stapling = true }, ext_data)
      else if typ == extension_session_ticket
      then some (record m { ticket_supported = true }, ext_data)
      else if typ == extension_renegotiation_info
      then parse_renegotiation_info ext_data m
      else if typ == extension_alpn
      then parse_alpn ext_data m
      else if typ == extension_sct
      then parse_sct ext_data m
      else if typ == extension_supported_versions
      then parse_supported_versions ext_data m
      else if typ == extension_cookie
      then parse_cookie ext_data m
      else if typ == extension_key_share
      then parse_key_share ext_data m
      else if typ == extension_pre_shared_key
      then parse_pre_shared_key ext_data m
      else if typ == extension_supported_points
      then parse_supported_points ext_data m
      else some (m, [])

  unfoldable pub read_fields : List ℕ → Option (ServerHelloMsg × List ℕ)
  read_fields bytes = do
    s ← cb.skip 4 bytes
    (vers, s) ← cb.read_uint Width.w16 s
    (random, s) ← cb.read_bytes 32 s
    (session_id, s) ← cb.read_prefixed Width.w8 s
    (cipher_suite, s) ← cb.read_uint Width.w16 s
    (compression_method, s) ← cb.read_uint Width.w8 s
    some (
      record (blank bytes) {
        vers = vers;
        random = random;
        session_id = session_id;
        cipher_suite = cipher_suite;
        compression_method = compression_method;
      },
      s,
    )

  unfoldable pub unmarshal : List ℕ → Option ServerHelloMsg
  unfolding read_fields parse_extension
  unmarshal bytes = do (m, s) ← read_fields bytes; read_block cb parse_extension true s m
