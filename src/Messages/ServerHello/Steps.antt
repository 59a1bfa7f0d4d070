-- ===== src/Messages/ServerHello/Steps.antt =====
-- Each extension of a serverHelloMsg that marshal writes is read back by unmarshal's switch.
use goktls.Base.{◌==◌, ◌≡◌, sym, true, false, not, [], ◌∷◌, some, length, arith}
use goktls.Wire.{Width, CryptoByte, IsLawful}
use goktls.Wire.Build.{
  Builder, add_bytes, add_uint, add_prefixed, in_turn, is_empty, read_prefixed-only,
  read_prefixed-add, read_uint-add, read_uint-only, length-add_uint,
}
use goktls.Wire.Lists.{strings, read_some-only, read_elements-strings_only}
use goktls.Wire.Extensions.{Handles}
use goktls.Messages.{
  extension_status_request, extension_session_ticket, extension_renegotiation_info, extension_alpn,
  extension_sct, extension_supported_versions, extension_key_share, extension_pre_shared_key,
  extension_cookie, extension_supported_points, full, lacks,
}
use goktls.Messages.Alpn.{one_protocol, read_protocol-only}
use goktls.Messages.ServerHello.{
  ServerHelloMsg, parse_extension, parse_renegotiation_info, parse_alpn, parse_sct,
  parse_supported_versions, parse_cookie, parse_selected_group, parse_server_share, parse_key_share,
  parse_pre_shared_key, parse_supported_points,
}
use goktls.Messages.ServerHello.Canonical.{IsCanonical}

module _ (cb : CryptoByte) (laws : IsLawful cb) (h : ServerHelloMsg) (ok : IsCanonical h) where
  absent_share :
      not (h.server_share.group == 0) ≡ false
      → (m : ServerHelloMsg) → m.server_share ≡ record { group = 0; key_data = [] }
      → record m { server_share = h.server_share } ≡ m
  absent_share c m old =
      let none_of : h.server_share.group ≡ 0 = ground arith in
      let zero_share : h.server_share ≡ record { group = 0; key_data = [] } =
        ground (arith, ok.no_share none_of) in
      rw (zero_share, sym old)

  pub ocsp_stapling-Handles :
      (more : Builder) (m : ServerHelloMsg)
      → m.ocsp_stapling ≡ false
      → Handles cb
          (parse_extension cb)
          h.ocsp_stapling
          extension_status_request
          (some [])
          more
          m
          (record m { ocsp_stapling = h.ocsp_stapling })
  unfolding parse_extension
  ocsp_stapling-Handles more m old = record {
    present = λ c d ext e e'. ground arith;
    absent = λ c. ground arith;
  }

  pub ticket_supported-Handles :
      (more : Builder) (m : ServerHelloMsg)
      → m.ticket_supported ≡ false
      → Handles cb
          (parse_extension cb)
          h.ticket_supported
          extension_session_ticket
          (some [])
          more
          m
          (record m { ticket_supported = h.ticket_supported })
  unfolding parse_extension
  ticket_supported-Handles more m old = record {
    present = λ c d ext e e'. ground arith;
    absent = λ c. ground arith;
  }

  pub renegotiation_info-Handles :
      (more : Builder) (m : ServerHelloMsg)
      → m.secure_renegotiation_supported ≡ false
      → m.secure_renegotiation ≡ []
      → Handles cb
          (parse_extension cb)
          h.secure_renegotiation_supported
          extension_renegotiation_info
          (add_prefixed cb Width.w8 (add_bytes h.secure_renegotiation))
          more
          m
          (record m {
            secure_renegotiation_supported = h.secure_renegotiation_supported;
            secure_renegotiation = h.secure_renegotiation;
          })
  unfolding parse_extension parse_renegotiation_info
  renegotiation_info-Handles more m old old' = record {
    present = λ c d ext e e'.
        let (body, e_body, len, e_read) =
          read_prefixed-only cb laws Width.w8 (add_bytes h.secure_renegotiation) e in
        ground arith;
    absent = λ c. ground (arith, ok.renegotiation c);
  }

  pub alpn-Handles :
      (more : Builder) (m : ServerHelloMsg)
      → m.alpn_protocol ≡ []
      → Handles cb
          (parse_extension cb)
          (not (is_empty h.alpn_protocol))
          extension_alpn
          (one_protocol cb h.alpn_protocol)
          more
          m
          (record m { alpn_protocol = h.alpn_protocol })
  unfolding parse_extension parse_alpn
  alpn-Handles more m old = record {
    present =
        λ c d ext e e'. rw (read_protocol-only cb laws h.alpn_protocol (full h.alpn_protocol c) e);
    absent = λ c. ground (arith, lacks h.alpn_protocol c);
  }

  pub scts-Handles :
      (more : Builder) (m : ServerHelloMsg)
      → m.scts ≡ []
      → Handles cb
          (parse_extension cb)
          (not (is_empty h.scts))
          extension_sct
          (strings cb Width.w16 Width.w16 h.scts)
          more
          m
          (record m { scts = h.scts })
  unfolding parse_extension parse_sct
  scts-Handles more m old = record {
    present = λ c d ext e e'. rw (
      read_elements-strings_only cb laws Width.w16 Width.w16 h.scts ok.scts (full h.scts c) e,
      old,
    );
    absent = λ c. ground (arith, lacks h.scts c);
  }

  pub supported_version-Handles :
      (more : Builder) (m : ServerHelloMsg)
      → m.supported_version ≡ 0
      → Handles cb
          (parse_extension cb)
          (not (h.supported_version == 0))
          extension_supported_versions
          (add_uint cb Width.w16 h.supported_version)
          more
          m
          (record m { supported_version = h.supported_version })
  unfolding parse_extension parse_supported_versions
  supported_version-Handles more m old = record {
    present =
        λ c d ext e e'. rw (read_uint-only cb laws Width.w16 h.supported_version ok.version e);
    absent = λ c. ground arith;
  }

  pub server_share-Handles :
      (more : Builder) (m : ServerHelloMsg)
      → m.server_share ≡ record { group = 0; key_data = [] }
      → Handles cb
          (parse_extension cb)
          (not (h.server_share.group == 0))
          extension_key_share
          (in_turn (
            add_uint cb Width.w16 h.server_share.group
            ∷ add_prefixed cb Width.w16 (add_bytes h.server_share.key_data)
            ∷ []))
          more
          m
          (record m { server_share = h.server_share })
  unfolding parse_extension parse_key_share parse_server_share
  server_share-Handles more m old = record {
    present = λ c d ext e e'.
        let (rest, e_rest, len, e_group) =
          read_uint-add cb laws Width.w16 h.server_share.group _ ok.group e in
        let (body, left, e_body, e_left, len', e_data) =
          read_prefixed-add cb laws Width.w16 (add_bytes h.server_share.key_data) (some [])
            e_rest in
        let longer : (length d == 2) ≡ false = ground arith in
        let same : body ≡ h.server_share.key_data = ground arith in
        let nothing : left ≡ [] = ground arith in rw (longer, e_group, e_data, same, nothing);
    absent = λ c. absent_share c m old;
  }

  pub selected_identity-Handles :
      (more : Builder) (m : ServerHelloMsg)
      → m.selected_identity_present ≡ false
      → m.selected_identity ≡ 0
      → Handles cb
          (parse_extension cb)
          h.selected_identity_present
          extension_pre_shared_key
          (add_uint cb Width.w16 h.selected_identity)
          more
          m
          (record m {
            selected_identity_present = h.selected_identity_present;
            selected_identity = h.selected_identity;
          })
  unfolding parse_extension parse_pre_shared_key
  selected_identity-Handles more m old old' = record {
    present =
        λ c d ext e e'. rw (read_uint-only cb laws Width.w16 h.selected_identity ok.identity e, c);
    absent = λ c. ground (arith, ok.no_identity c);
  }

  pub cookie-Handles :
      (more : Builder) (m : ServerHelloMsg)
      → m.cookie ≡ []
      → Handles cb
          (parse_extension cb)
          (not (is_empty h.cookie))
          extension_cookie
          (add_prefixed cb Width.w16 (add_bytes h.cookie))
          more
          m
          (record m { cookie = h.cookie })
  unfolding parse_extension parse_cookie
  cookie-Handles more m old = record {
    present = λ c d ext e e'. rw (read_some-only cb laws Width.w16 h.cookie (full h.cookie c) e);
    absent = λ c. ground (arith, lacks h.cookie c);
  }

  pub selected_group-Handles :
      (more : Builder) (m : ServerHelloMsg)
      → m.selected_group ≡ 0
      → Handles cb
          (parse_extension cb)
          (not (h.selected_group == 0))
          extension_key_share
          (add_uint cb Width.w16 h.selected_group)
          more
          m
          (record m { selected_group = h.selected_group })
  unfolding parse_extension parse_key_share parse_selected_group
  selected_group-Handles more m old = record {
    present = λ c d ext e e'.
        let short : (length d == 2) ≡ true = length-add_uint cb laws Width.w16 h.selected_group e in
        rw (short, read_uint-only cb laws Width.w16 h.selected_group ok.selected e);
    absent = λ c. ground arith;
  }

  pub supported_points-Handles :
      (more : Builder) (m : ServerHelloMsg)
      → m.supported_points ≡ []
      → Handles cb
          (parse_extension cb)
          (not (is_empty h.supported_points))
          extension_supported_points
          (add_prefixed cb Width.w8 (add_bytes h.supported_points))
          more
          m
          (record m { supported_points = h.supported_points })
  unfolding parse_extension parse_supported_points
  supported_points-Handles more m old = record {
    present = λ c d ext e e'.
        rw (read_some-only cb laws Width.w8 h.supported_points (full h.supported_points c) e);
    absent = λ c. ground (arith, lacks h.supported_points c);
  }
