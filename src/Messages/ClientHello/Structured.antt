-- ===== src/Messages/ClientHello/Structured.antt =====
-- The extensions of a clientHelloMsg with more structure are read back by the switch of unmarshal.
use goktls.Base.{
  ℕ, ◌<◌, ◌≡◌, sym, ap, ◌∙◌, false, not, List, [], ◌∷◌, some, length, contains, arith,
}
use goktls.Wire.{Width, CryptoByte, IsLawful}
use goktls.Wire.Build.{
  Builder, ◌⊕◌, is_empty, is_empty-eq_false, each, add_prefixed, add_bytes, in_turn, add_uint,
  read_prefixed-only, read_prefixed-add, read_uint-add, read_bytes-all, add_prefixed-nothing,
  in_turn_two-⊕,
}
use goktls.Wire.Lists.{
  Parses, read_list-each, read_elements-add, read_elements-strings, read_some, read_some-add,
}
use goktls.Wire.Extensions.{Handles}
use goktls.Messages.{
  full, lacks, extension_server_name, extension_status_request, extension_session_ticket,
  extension_pre_shared_key, extension_key_share, extension_renegotiation_info, scsv_renegotiation,
}
use goktls.Messages.ClientHello.{ClientHelloMsg, host_name, key_share, psk_identity, binders}
use goktls.Messages.ClientHello.Canonical.{IsCanonical, IsShare, IsIdentity}
use goktls.Messages.ClientHello.Unmarshal.{
  has_trailing_dot, parse_extension, parse_status_request, parse_session_ticket,
  parse_renegotiation_info, parse_key_share, parse_pre_shared_key, parse_server_name, read_names,
  take_name, read_key_share, read_psk_identity,
}

module _ (cb : CryptoByte) (laws : IsLawful cb) where
  read_names-host_name :
      (name s : List ℕ)
      → 0 < length name
      → has_trailing_dot name ≡ false
      → host_name cb name ≡ some s
      → read_names cb (length s) [] s ≡ some name
  unfolding read_names take_name host_name
  read_names-host_name name [] long undotted e =
      let (rest, e_rest, len, e_read) = read_uint-add cb laws Width.w8 0 _ (omega arith) e in
      absurd (omega arith)
  read_names-host_name name (b ∷ s) long undotted e =
      let (rest, e_rest, len, e_typ) = read_uint-add cb laws Width.w8 0 _ (omega arith) e in
      let (rest', e_rest', less, e_name) =
        read_some-add cb laws Width.w16 name (some []) rest long e_rest in
      let nothing : rest' ≡ [] = ground arith in rw (e_typ, e_name, undotted, nothing)

  host_name-pos : (name : List ℕ) {s : List ℕ} → host_name cb name ≡ some s → 0 < length s
  unfolding host_name
  host_name-pos name {s} e =
      let (rest, e_rest, len, e_typ) = read_uint-add cb laws Width.w8 0 _ (omega arith) e in
      omega arith

  key_share-Parses : Parses IsShare (key_share cb) (read_key_share cb)
  unfolding key_share read_key_share
  key_share-Parses ks more s ok e =
      let e' = sym (in_turn_two-⊕ (add_uint cb Width.w16 ks.group) _ more) ∙ e in
      let (rest, e_rest, len, e_group) = read_uint-add cb laws Width.w16 ks.group _ ok.0 e' in
      let (rest', e_rest', less, e_data) =
        read_some-add cb laws Width.w16 ks.key_data more rest ok.1 e_rest in
      (rest', e_rest', omega arith, rw (e_group, e_data))

  psk_identity-Parses : Parses IsIdentity (psk_identity cb) (read_psk_identity cb)
  unfolding psk_identity read_psk_identity
  psk_identity-Parses psk more s ok e =
      let e' = sym (in_turn_two-⊕ (add_prefixed cb Width.w16 (add_bytes psk.label)) _ more) ∙ e in
      let (label, rest, e_l, e_rest, len, e_label) =
        read_prefixed-add cb laws Width.w16 (add_bytes psk.label) _ e' in
      let (rest', e_rest', len', e_age) =
        read_uint-add cb laws Width.w32 psk.obfuscated_ticket_age more ok.1 e_rest in
      let same : label ≡ psk.label = ground arith in
      (rest', e_rest', omega arith, rw (e_label, e_age, same, is_empty-eq_false psk.label ok.0))

module _ (cb : CryptoByte) (laws : IsLawful cb) (h : ClientHelloMsg) (ok : IsCanonical h) where
  pub server_name-Handles :
      (more : Builder) (m : ClientHelloMsg)
      → m.server_name ≡ []
      → Handles cb
          (parse_extension cb)
          (not (is_empty h.server_name))
          extension_server_name
          (add_prefixed cb Width.w16 (host_name cb h.server_name))
          more
          m
          (record m { server_name = h.server_name })
  unfolding parse_extension parse_server_name read_some
  server_name-Handles more m old = record {
    present = λ c d ext e e'.
        let (body, e_body, len, e_read) =
          read_prefixed-only cb laws Width.w16 (host_name cb h.server_name) e in
        let names =
          read_names-host_name cb laws h.server_name body (full h.server_name c) ok.server_name
            e_body in
        let long : 0 < length body = host_name-pos cb laws h.server_name e_body in
        rw (e_read, is_empty-eq_false body long, old, names);
    absent = λ c. ground (arith, lacks h.server_name c);
  }

  pub status_request-Handles :
      (more : Builder) (m : ClientHelloMsg)
      → m.ocsp_stapling ≡ false
      → Handles cb
          (parse_extension cb)
          h.ocsp_stapling
          extension_status_request
          (in_turn
            (add_uint cb Width.w8 1 ∷ add_uint cb Width.w16 0 ∷ add_uint cb Width.w16 0 ∷ []))
          more
          m
          (record m { ocsp_stapling = h.ocsp_stapling })
  unfolding parse_extension parse_status_request
  status_request-Handles more m old = record {
    present = λ c d ext e e'.
        let (s1, e1, len1, r1) = read_uint-add cb laws Width.w8 1 _ (omega arith) e in
        let zero = add_prefixed-nothing cb laws Width.w16 in
        let e1' = ap (λ (t : Builder). t ⊕ (add_uint cb Width.w16 0 ⊕ some [])) zero ∙ e1 in
        let (b2, s2, e_b2, e2, len2, r2) = read_prefixed-add cb laws Width.w16 (some []) _ e1' in
        let e2' = ap (λ (t : Builder). t ⊕ some []) zero ∙ e2 in
        let (b3, s3, e_b3, e3, len3, r3) = read_prefixed-add cb laws Width.w16 (some []) _ e2' in
        let nothing : s3 ≡ [] = ground arith in rw (r1, r2, r3, nothing, c);
    absent = λ c. ground arith;
  }

  pub session_ticket-Handles :
      (more : Builder) (m : ClientHelloMsg)
      → m.ticket_supported ≡ false
      → m.session_ticket ≡ []
      → Handles cb
          (parse_extension cb)
          h.ticket_supported
          extension_session_ticket
          (add_bytes h.session_ticket)
          more
          m
          (record m { ticket_supported = h.ticket_supported; session_ticket = h.session_ticket })
  unfolding parse_extension parse_session_ticket
  session_ticket-Handles more m old old' = record {
    present = λ c d ext e e'.
        let same : d ≡ h.session_ticket = ground arith in
        rw (same, parse_session_ticket, read_bytes-all cb laws h.session_ticket, c);
    absent = λ c. ground (arith, ok.ticket c);
  }

  pub renegotiation_info-Handles :
      (more : Builder) (m : ClientHelloMsg)
      → m.secure_renegotiation_supported ≡ contains h.cipher_suites scsv_renegotiation
      → m.secure_renegotiation ≡ []
      → Handles cb
          (parse_extension cb)
          h.secure_renegotiation_supported
          extension_renegotiation_info
          (add_prefixed cb Width.w8 (add_bytes h.secure_renegotiation))
          more
          m
          (record m {
            secure_renegotiation_supported = h.secure_renegotiation_supported;
            secure_renegotiation = h.secure_renegotiation;
          })
  unfolding parse_extension parse_renegotiation_info
  renegotiation_info-Handles more m old old' = record {
    present = λ c d ext e e'.
        let (body, e_body, len, e_read) =
          read_prefixed-only cb laws Width.w8 (add_bytes h.secure_renegotiation) e in
        ground arith;
    absent = λ c. ground (arith, ok.renegotiation c, ok.scsv c);
  }

  pub key_share-Handles :
      (more : Builder) (m : ClientHelloMsg)
      → m.key_shares ≡ []
      → Handles cb
          (parse_extension cb)
          (not (is_empty h.key_shares))
          extension_key_share
          (add_prefixed cb Width.w16 (each (key_share cb) h.key_shares))
          more
          m
          (record m { key_shares = h.key_shares })
  unfolding parse_extension parse_key_share
  key_share-Handles more m old = record {
    present = λ c d ext e e'.
        let (body, e_body, len, e_read) =
          read_prefixed-only cb laws Width.w16 (each (key_share cb) h.key_shares) e in
        rw (
          e_read,
          read_list-each IsShare (key_share cb) (read_key_share cb) (key_share-Parses cb laws)
              h.key_shares ok.key_shares e_body,
          old,
        );
    absent = λ c. ground (arith, lacks h.key_shares c);
  }

  pub pre_shared_key-Handles :
      (m : ClientHelloMsg)
      → m.psk_identities ≡ []
      → m.psk_binders ≡ []
      → Handles cb
          (parse_extension cb)
          (not (is_empty h.psk_identities))
          extension_pre_shared_key
          (in_turn (
            add_prefixed cb Width.w16 (each (psk_identity cb) h.psk_identities)
            ∷ binders cb h.psk_binders
            ∷ []))
          (in_turn [])
          m
          (record m { psk_identities = h.psk_identities; psk_binders = h.psk_binders })
  unfolding parse_extension parse_pre_shared_key binders
  pre_shared_key-Handles m old old' = record {
    present = λ c d ext e e'.
        let last : ext ≡ [] = ground arith in
        let (rest, e_rest, e_ids) =
          read_elements-add cb laws IsIdentity (psk_identity cb) (read_psk_identity cb)
            (psk_identity-Parses cb laws) Width.w16 h.psk_identities _ ok.identities
            (full h.psk_identities c) e in
        let (left, e_left, e_binders) =
          read_elements-strings cb laws Width.w16 Width.w8 h.psk_binders (some []) ok.binders
            (full h.psk_binders (ap not (sym ok.together) ∙ c)) e_rest in
        let nothing : left ≡ [] = ground arith in rw (last, e_ids, e_binders, nothing, old, old');
    absent = λ c.
        ground
          (arith, lacks h.psk_identities c, lacks h.psk_binders (ap not (sym ok.together) ∙ c));
  }
