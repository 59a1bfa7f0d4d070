-- ===== src/Messages/ServerHello/RoundTrip.antt =====
-- What serverHelloMsg.marshal writes is read back by unmarshal.
use goktls.Base.{
  ℕ, ◌==◌, ◌≡◌, refl, sym, true, not, List, [], ◌∷◌, none, some, arith, Bool-cases, inl, inr,
}
use goktls.Wire.{Width, CryptoByte, IsLawful}
use goktls.Wire.Build.{
  >>=-eq-some, optional, add_bytes, add_uint, add_prefixed, in_turn, is_empty, read_prefixed-add,
  read_uint-add, read_bytes-add, skip-header,
}
use goktls.Wire.Extensions.{
  read_block-Reads, Reads, Reads-extension, Reads-empty, Reads-skip, Reads-done,
}
use goktls.Messages.{
  type_server_hello, extension_status_request, extension_session_ticket,
  extension_renegotiation_info, extension_alpn, extension_sct, extension_supported_versions,
  extension_key_share, extension_pre_shared_key, extension_cookie, extension_supported_points,
}
use goktls.Messages.ServerHello.{
  ServerHelloMsg, blank, extensions, fields, marshal, read_fields, unmarshal, parse_extension,
}
use goktls.Messages.ServerHello.Canonical.{IsCanonical}
use goktls.Messages.ServerHello.Steps

-- The message as it stands before its extensions are read.
abbrev header : ServerHelloMsg → List ℕ → ServerHelloMsg
header h bytes = record (blank bytes) {
  vers = h.vers;
  random = h.random;
  session_id = h.session_id;
  cipher_suite = h.cipher_suite;
  compression_method = h.compression_method;
}

-- The extensions behind supported_versions, in a ServerHello and in a HelloRetryRequest.
share_types : List ℕ
share_types =
    extension_key_share ∷ extension_pre_shared_key ∷ extension_cookie ∷ extension_supported_points
    ∷ []

retry_types : List ℕ
retry_types =
    extension_pre_shared_key ∷ extension_cookie ∷ extension_key_share ∷ extension_supported_points
    ∷ []

abbrev types : List ℕ → List ℕ
types later =
    extension_status_request ∷ extension_session_ticket ∷ extension_renegotiation_info
    ∷ extension_alpn ∷ extension_sct ∷ extension_supported_versions ∷ later

module _ (cb : CryptoByte) (laws : IsLawful cb) (h : ServerHelloMsg) (ok : IsCanonical h) where
  extensions-Reads_share :
      (bytes s : List ℕ)
      → (h.selected_group == 0) ≡ true
      → extensions cb h ≡ some s
      → Reads cb
          (parse_extension cb)
          true
          (types share_types)
          s
          (header h bytes)
          (record h { raw = some bytes })
  unfolding extensions share_types
  extensions-Reads_share bytes s no_group e =
      Reads-empty cb (parse_extension cb) laws true _ extension_status_request _ _
        (Steps.ocsp_stapling-Handles cb laws h ok _ _ refl) (omega arith) refl
        (λ s1 e1.
          Reads-empty cb (parse_extension cb) laws true _ extension_session_ticket _ _
            (Steps.ticket_supported-Handles cb laws h ok _ _ refl) (omega arith) refl
            (λ s2 e2.
              Reads-extension cb (parse_extension cb) laws true _ extension_renegotiation_info _ _ _
                (Steps.renegotiation_info-Handles cb laws h ok _ _ refl refl) (omega arith) refl
                (λ s3 e3.
                  Reads-extension cb (parse_extension cb) laws true _ extension_alpn _ _ _
                    (Steps.alpn-Handles cb laws h ok _ _ refl) (omega arith) refl
                    (λ s4 e4.
                      Reads-extension cb (parse_extension cb) laws true _ extension_sct _ _ _
                        (Steps.scts-Handles cb laws h ok _ _ refl) (omega arith) refl
                        (λ s5 e5.
                          Reads-extension cb (parse_extension cb) laws true _
                            extension_supported_versions _ _ _
                            (Steps.supported_version-Handles cb laws h ok _ _ refl) (omega arith)
                            refl
                            (λ s6 e6.
                              Reads-extension cb (parse_extension cb) laws true _
                                extension_key_share _ _ _
                                (Steps.server_share-Handles cb laws h ok _ _ refl) (omega arith)
                                refl
                                (λ s7 e7.
                                  Reads-extension cb (parse_extension cb) laws true _
                                    extension_pre_shared_key _ _ _
                                    (Steps.selected_identity-Handles cb laws h ok _ _ refl refl)
                                    (omega arith) refl
                                    (λ s8 e8.
                                      Reads-extension cb (parse_extension cb) laws true _
                                        extension_cookie _ _ _
                                        (Steps.cookie-Handles cb laws h ok _ _ refl) (omega arith)
                                        refl
                                        (λ s9 e9.
                                          Reads-skip cb (parse_extension cb) true
                                            (not (h.selected_group == 0)) extension_key_share _ _ _
                                            (Steps.selected_group-Handles cb laws h ok _ _ refl)
                                            (ground arith)
                                            (λ s10 e10.
                                              Reads-extension cb (parse_extension cb) laws true _
                                                extension_supported_points _ _ _
                                                (Steps.supported_points-Handles cb laws h ok _ _
                                                  refl)
                                                (omega arith) refl
                                                (λ s11 e11.
                                                  Reads-done cb (parse_extension cb) true [] s11 _
                                                    e11)
                                                e10)
                                            e9)
                                        e8)
                                    e7)
                                e6)
                            e5)
                        e4)
                    e3)
                e2)
            e1)
        e

  extensions-Reads_retry :
      (bytes s : List ℕ)
      → (h.server_share.group == 0) ≡ true
      → extensions cb h ≡ some s
      → Reads cb
          (parse_extension cb)
          true
          (types retry_types)
          s
          (header h bytes)
          (record h { raw = some bytes })
  unfolding extensions retry_types
  extensions-Reads_retry bytes s no_share e =
      Reads-empty cb (parse_extension cb) laws true _ extension_status_request _ _
        (Steps.ocsp_stapling-Handles cb laws h ok _ _ refl) (omega arith) refl
        (λ s1 e1.
          Reads-empty cb (parse_extension cb) laws true _ extension_session_ticket _ _
            (Steps.ticket_supported-Handles cb laws h ok _ _ refl) (omega arith) refl
            (λ s2 e2.
              Reads-extension cb (parse_extension cb) laws true _ extension_renegotiation_info _ _ _
                (Steps.renegotiation_info-Handles cb laws h ok _ _ refl refl) (omega arith) refl
                (λ s3 e3.
                  Reads-extension cb (parse_extension cb) laws true _ extension_alpn _ _ _
                    (Steps.alpn-Handles cb laws h ok _ _ refl) (omega arith) refl
                    (λ s4 e4.
                      Reads-extension cb (parse_extension cb) laws true _ extension_sct _ _ _
                        (Steps.scts-Handles cb laws h ok _ _ refl) (omega arith) refl
                        (λ s5 e5.
                          Reads-extension cb (parse_extension cb) laws true _
                            extension_supported_versions _ _ _
                            (Steps.supported_version-Handles cb laws h ok _ _ refl) (omega arith)
                            refl
                            (λ s6 e6.
                              Reads-skip cb (parse_extension cb) true
                                (not (h.server_share.group == 0)) extension_key_share _ _ _
                                (Steps.server_share-Handles cb laws h ok _ _ refl) (ground arith)
                                (λ s7 e7.
                                  Reads-extension cb (parse_extension cb) laws true _
                                    extension_pre_shared_key _ _ _
                                    (Steps.selected_identity-Handles cb laws h ok _ _ refl refl)
                                    (omega arith) refl
                                    (λ s8 e8.
                                      Reads-extension cb (parse_extension cb) laws true _
                                        extension_cookie _ _ _
                                        (Steps.cookie-Handles cb laws h ok _ _ refl) (omega arith)
                                        refl
                                        (λ s9 e9.
                                          Reads-extension cb (parse_extension cb) laws true _
                                            extension_key_share _ _ _
                                            (Steps.selected_group-Handles cb laws h ok _ _ refl)
                                            (omega arith) refl
                                            (λ s10 e10.
                                              Reads-extension cb (parse_extension cb) laws true _
                                                extension_supported_points _ _ _
                                                (Steps.supported_points-Handles cb laws h ok _ _
                                                  refl)
                                                (omega arith) refl
                                                (λ s11 e11.
                                                  Reads-done cb (parse_extension cb) true [] s11 _
                                                    e11)
                                                e10)
                                            e9)
                                        e8)
                                    e7)
                                e6)
                            e5)
                        e4)
                    e3)
                e2)
            e1)
        e

  read_fields-fields :
      (ext_bytes : List ℕ) {bytes : List ℕ}
      → in_turn (
          add_uint cb Width.w8 type_server_hello
          ∷ add_prefixed cb Width.w24 (fields cb h ext_bytes)
          ∷ [])
        ≡ some bytes
      → (s : List ℕ) × (in_turn (
            optional (not (is_empty ext_bytes)) (add_prefixed cb Width.w16 (add_bytes ext_bytes))
            ∷ [])
          ≡ some s)
        × (read_fields cb bytes ≡ some (header h bytes, s))
  unfolding fields read_fields
  read_fields-fields ext_bytes {bytes} e =
      let (s0, e0, r0) = skip-header cb laws type_server_hello (fields cb h ext_bytes) e in
      let (s1, e1, len1, r1) = read_uint-add cb laws Width.w16 h.vers _ ok.vers e0 in
      let (s2, e2, r2) = read_bytes-add cb laws 32 h.random _ e1 in
      let (b3, s3, eb3, e3, len3, r3) =
        read_prefixed-add cb laws Width.w8 (add_bytes h.session_id) _ e2 in
      let (s4, e4, len4, r4) =
        read_uint-add cb laws Width.w16 h.cipher_suite _ ok.cipher_suite e3 in
      let (s5, e5, len5, r5) =
        read_uint-add cb laws Width.w8 h.compression_method _ ok.compression_method e4 in
      let same3 : b3 ≡ h.session_id = ground arith in (s5, e5, rw (r0, r1, r2, r3, r4, r5, same3))

  read_back :
      (ext_bytes : List ℕ) {bytes : List ℕ}
      → extensions cb h ≡ some ext_bytes
      → in_turn (
          add_uint cb Width.w8 type_server_hello
          ∷ add_prefixed cb Width.w24 (fields cb h ext_bytes)
          ∷ [])
        ≡ some bytes
      → unmarshal cb bytes ≡ some (record h { raw = some bytes })
  unfolding unmarshal
  read_back ext_bytes {bytes} e_ext e =
      let (s, e_s, e_fields) = read_fields-fields ext_bytes e in
      elim (Bool-cases (h.server_share.group == 0)) [
        | inl retry ↦ rw e_fields (
            read_block-Reads cb (parse_extension cb) laws true (types retry_types) ext_bytes
              (extensions-Reads_retry bytes ext_bytes retry e_ext) e_s)
        | inr share ↦ rw e_fields (
            read_block-Reads cb (parse_extension cb) laws true (types share_types) ext_bytes
              (extensions-Reads_share bytes ext_bytes (ok.one_of share) e_ext) e_s)
      ]

  -- A ServerHello or a HelloRetryRequest that marshal writes anew is read back as it is, with the
  -- bytes kept, if its numbers are in range, no timestamp is empty, it does not hold both a share
  -- and a selected group, and fields without their flag are empty.
  pub unmarshal-marshal_server_hello :
      {bytes : List ℕ} {h' : ServerHelloMsg}
      → h.raw ≡ none
      → marshal cb h ≡ some (bytes, h')
      → (unmarshal cb bytes ≡ some h') × (h' ≡ record h { raw = some bytes })
  unfolding marshal
  unmarshal-marshal_server_hello {bytes} {h'} fresh e =
      let e' = rw fresh at e in
      let (ext_bytes, e_ext, e_rest) = >>=-eq-some (extensions cb h) _ e' in
      let (written, e_written, e_pair) = >>=-eq-some _ _ e_rest in
      let same : written ≡ bytes = ground arith in
      let kept : h' ≡ record h { raw = some bytes } = ground arith in
      (rw (kept, sym same) (read_back ext_bytes e_ext e_written), kept)
