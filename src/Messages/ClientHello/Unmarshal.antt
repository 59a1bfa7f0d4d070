-- ===== src/Messages/ClientHello/Unmarshal.antt =====
-- clientHelloMsg.unmarshal of handshake_messages.go.
use goktls.Base.{
  ℕ, zero, suc, ◌==◌, Bool, true, false, not, ◌||◌, List, [], ◌∷◌, ◌++◌, Option, none, some, length,
  if◌then◌else◌, contains,
}
use goktls.Wire.{Width, CryptoByte}
use goktls.Wire.Build.{◌>>=◌, is_empty}
use goktls.Wire.Lists.{Reader, read_list, read_some, read_elements}
use goktls.Wire.Extensions.{read_block}
use goktls.Messages.{
  extension_server_name, extension_status_request, extension_supported_curves,
  extension_supported_points, extension_signature_algorithms, extension_alpn, extension_sct,
  extension_session_ticket, extension_pre_shared_key, extension_early_data,
  extension_supported_versions, extension_cookie, extension_psk_modes,
  extension_signature_algorithms_cert, extension_key_share, extension_renegotiation_info,
  scsv_renegotiation, status_type_ocsp, KeyShare, PskIdentity,
}
use goktls.Messages.ClientHello.{ClientHelloMsg, blank}

-- strings.HasSuffix(name, ".").
unfoldable pub has_trailing_dot : List ℕ → Bool
has_trailing_dot [] = false
has_trailing_dot (x ∷ []) = x == b'.'
has_trailing_dot (x ∷ y ∷ ys) = has_trailing_dot (y ∷ ys)

-- The name so far and the next entry of the list of server names.
unfoldable pub take_name : List ℕ → ℕ → List ℕ → Option (List ℕ)
unfolding has_trailing_dot
take_name name name_type server_name =
    if not (name_type == 0)
    then some name
    else if not (is_empty name) || has_trailing_dot server_name
    then none
    else some server_name

module _ (cb : CryptoByte) where
  unfoldable pub read_names : ℕ → List ℕ → List ℕ → Option (List ℕ)
  unfolding take_name
  read_names fuel name [] = some name
  read_names zero name (x ∷ s) = none
  read_names (suc fuel) name (x ∷ s) = do
    (name_type, rest) ← cb.read_uint Width.w8 (x ∷ s)
    (server_name, rest') ← read_some cb Width.w16 rest
    name' ← take_name name name_type server_name
    read_names fuel name' rest'

  unfoldable pub read_key_share : Reader KeyShare
  read_key_share s = do
    (group, rest) ← cb.read_uint Width.w16 s
    (key_data, rest') ← read_some cb Width.w16 rest
    some (record { group = group; key_data = key_data }, rest')

  unfoldable pub read_psk_identity : Reader PskIdentity
  read_psk_identity s = do
    (label, rest) ← cb.read_prefixed Width.w16 s
    (age, rest') ← cb.read_uint Width.w32 rest
    if is_empty label
        then none
        else some (record { label = label; obfuscated_ticket_age = age }, rest')

  abbrev Parser : Type 0
  Parser = List ℕ → ClientHelloMsg → Option (ClientHelloMsg × List ℕ)

  unfoldable pub parse_server_name : Parser
  unfolding read_names
  parse_server_name ext_data m = do
    (name_list, left) ← read_some cb Width.w16 ext_data
    name ← read_names (length name_list) m.server_name name_list
    some (record m { server_name = name }, left)

  unfoldable pub parse_status_request : Parser
  parse_status_request ext_data m = do
    (status_type, rest) ← cb.read_uint Width.w8 ext_data
    (ignored, rest') ← cb.read_prefixed Width.w16 rest
    (ignored', left) ← cb.read_prefixed Width.w16 rest'
    some (record m { ocsp_stapling = status_type == status_type_ocsp }, left)

  unfoldable pub parse_supported_curves : Parser
  parse_supported_curves ext_data m = do
    (curves, left) ← read_elements cb Width.w16 (cb.read_uint Width.w16) ext_data
    some (record m { supported_curves = m.supported_curves ++ curves }, left)

  unfoldable pub parse_supported_points : Parser
  parse_supported_points ext_data m = do
    (points, left) ← read_some cb Width.w8 ext_data
    some (record m { supported_points = points }, left)

  -- A ReadBytes that fails would leave the ticket and the extension's bytes as they are.
  unfoldable pub parse_session_ticket : Parser
  parse_session_ticket ext_data m = elim (cb.read_bytes (length ext_data) ext_data) [
    | none ↦ some (record m { ticket_supported = true }, ext_data)
    | some (ticket, left) ↦
        some (record m { ticket_supported = true; session_ticket = ticket }, left)
  ]

  unfoldable pub parse_signature_algorithms : Parser
  parse_signature_algorithms ext_data m = do
    (algs, left) ← read_elements cb Width.w16 (cb.read_uint Width.w16) ext_data
    some (
      record m { supported_signature_algorithms = m.supported_signature_algorithms ++ algs },
      left,
    )

  unfoldable pub parse_signature_algorithms_cert : Parser
  parse_signature_algorithms_cert ext_data m = do
    (algs, left) ← read_elements cb Width.w16 (cb.read_uint Width.w16) ext_data
    some (
      record m {
        supported_signature_algorithms_cert = m.supported_signature_algorithms_cert ++ algs;
      },
      left,
    )

  unfoldable pub parse_renegotiation_info : Parser
  parse_renegotiation_info ext_data m = do
    (info, left) ← cb.read_prefixed Width.w8 ext_data
    some (record m { secure_renegotiation = info; secure_renegotiation_supported = true }, left)

  unfoldable pub parse_alpn : Parser
  parse_alpn ext_data m = do
    (protos, left) ← read_elements cb Width.w16 (read_some cb Width.w8) ext_data
    some (record m { alpn_protocols = m.alpn_protocols ++ protos }, left)

  unfoldable pub parse_supported_versions : Parser
  parse_supported_versions ext_data m = do
    (versions, left) ← read_elements cb Width.w8 (cb.read_uint Width.w16) ext_data
    some (record m { supported_versions = m.supported_versions ++ versions }, left)

  unfoldable pub parse_cookie : Parser
  parse_cookie ext_data m = do
    (cookie, left) ← read_some cb Width.w16 ext_data
    some (record m { cookie = cookie }, left)

  -- The list of key shares may be empty.
  unfoldable pub parse_key_share : Parser
  unfolding read_key_share
  parse_key_share ext_data m = do
    (client_shares, left) ← cb.read_prefixed Width.w16 ext_data
    shares ← read_list read_key_share client_shares
    some (record m { key_shares = m.key_shares ++ shares }, left)

  unfoldable pub parse_psk_modes : Parser
  parse_psk_modes ext_data m = do
    (modes, left) ← cb.read_prefixed Width.w8 ext_data
    some (record m { psk_modes = modes }, left)

  -- The extensions that are left must be none: pre_shared_key stands last.
  unfoldable pub parse_pre_shared_key : List ℕ → Parser
  unfolding read_psk_identity
  parse_pre_shared_key extensions ext_data m = if not (is_empty extensions) then none else do
    (identities, rest) ← read_elements cb Width.w16 read_psk_identity ext_data
    (binders, left) ← read_elements cb Width.w16 (read_some cb Width.w8) rest
    some (
      record m {
        psk_identities = m.psk_identities ++ identities;
        psk_binders = m.psk_binders ++ binders;
      },
      left,
    )

  -- The switch on the type; what an unknown extension holds is not looked at.
  unfoldable pub parse_extension :
      ℕ → List ℕ → List ℕ → ClientHelloMsg → Option (ClientHelloMsg × List ℕ)
  unfolding parse_server_name parse_status_request parse_supported_curves parse_supported_points
      parse_session_ticket parse_signature_algorithms parse_signature_algorithms_cert
      parse_renegotiation_info parse_alpn parse_supported_versions parse_cookie parse_key_share
      parse_psk_modes parse_pre_shared_key
  parse_extension typ ext_data extensions m =
      if typ == extension_server_name
      then parse_server_name ext_data m
      else if typ == extension_status_request
      then parse_status_request ext_data m
      else if typ == extension_supported_curves
      then parse_supported_curves ext_data m
      else if typ == extension_supported_points
      then parse_supported_points ext_data m
      else if typ == extension_session_ticket
      then parse_session_ticket ext_data m
      else if typ == extension_signature_algorithms
      then parse_signature_algorithms ext_data m
      else if typ == extension_signature_algorithms_cert
      then parse_signature_algorithms_cert ext_data m
      else if typ == extension_renegotiation_info
      then parse_renegotiation_info ext_data m
      else if typ == extension_alpn
      then parse_alpn ext_data m
      else if typ == extension_sct
      then some (record m { scts = true }, ext_data)
      else if typ == extension_supported_versions
      then parse_supported_versions ext_data m
      else if typ == extension_cookie
      then parse_cookie ext_data m
      else if typ == extension_key_share
      then parse_key_share ext_data m
      else if typ == extension_early_data
      then some (record m { early_data = true }, ext_data)
      else if typ == extension_psk_modes
      then parse_psk_modes ext_data m
      else if typ == extension_pre_shared_key
      then parse_pre_shared_key extensions ext_data m
      else some (m, [])

  -- The fields in front of the extensions, and what is left of the string.
  unfoldable pub read_fields : List ℕ → Option (ClientHelloMsg × List ℕ)
  read_fields bytes = do
    s ← cb.skip 4 bytes
    (vers, s) ← cb.read_uint Width.w16 s
    (random, s) ← cb.read_bytes 32 s
    (session_id, s) ← cb.read_prefixed Width.w8 s
    (suite_list, s) ← cb.read_prefixed Width.w16 s
    suites ← read_list (cb.read_uint Width.w16) suite_list
    (compression_methods, s) ← cb.read_prefixed Width.w8 s
    some (
      record (blank bytes) {
        vers = vers;
        random = random;
        session_id = session_id;
        cipher_suites = suites;
        secure_renegotiation_supported = contains suites scsv_renegotiation;
        compression_methods = compression_methods;
      },
      s,
    )

  unfoldable pub unmarshal : List ℕ → Option ClientHelloMsg
  unfolding read_fields parse_extension
  unmarshal bytes = do (m, s) ← read_fields bytes; read_block cb parse_extension true s m
