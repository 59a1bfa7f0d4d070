-- ===== src/Messages/ClientHello/RoundTrip.antt =====
-- What clientHelloMsg.marshal writes is read back by unmarshal.
use goktls.Base.{ℕ, ◌<◌, ◌≡◌, refl, sym, true, not, List, [], ◌∷◌, none, some, contains, arith}
use goktls.Wire.{Width, CryptoByte, IsLawful}
use goktls.Wire.Build.{
  >>=-eq-some, is_empty, in_turn, optional, add_prefixed, add_bytes, add_uint, read_prefixed-add,
  read_uint-add, read_bytes-add, skip-header,
}
use goktls.Wire.Lists.{read_list-each, read_uint-Parses}
use goktls.Wire.Extensions.{Reads, read_block-Reads, Reads-extension, Reads-empty, Reads-done}
use goktls.Messages.{
  type_client_hello, scsv_renegotiation, extension_server_name, extension_status_request,
  extension_supported_curves, extension_supported_points, extension_session_ticket,
  extension_signature_algorithms, extension_signature_algorithms_cert, extension_renegotiation_info,
  extension_alpn, extension_sct, extension_supported_versions, extension_cookie,
  extension_key_share, extension_early_data, extension_psk_modes, extension_pre_shared_key,
}
use goktls.Messages.ClientHello.{ClientHelloMsg, blank, extensions, fields, marshal}
use goktls.Messages.ClientHello.Canonical.{IsCanonical}
use goktls.Messages.ClientHello.Steps
use goktls.Messages.ClientHello.Structured
use goktls.Messages.ClientHello.Unmarshal.{parse_extension, read_fields, unmarshal}

types : List ℕ
types =
    extension_server_name ∷ extension_status_request ∷ extension_supported_curves
    ∷ extension_supported_points ∷ extension_session_ticket ∷ extension_signature_algorithms
    ∷ extension_signature_algorithms_cert ∷ extension_renegotiation_info ∷ extension_alpn
    ∷ extension_sct ∷ extension_supported_versions ∷ extension_cookie ∷ extension_key_share
    ∷ extension_early_data ∷ extension_psk_modes ∷ extension_pre_shared_key ∷ []

-- The message as it stands before its extensions are read.
abbrev header : ClientHelloMsg → List ℕ → ClientHelloMsg
header h bytes = record (blank bytes) {
  vers = h.vers;
  random = h.random;
  session_id = h.session_id;
  cipher_suites = h.cipher_suites;
  secure_renegotiation_supported = contains h.cipher_suites scsv_renegotiation;
  compression_methods = h.compression_methods;
}

module _ (cb : CryptoByte) (laws : IsLawful cb) (h : ClientHelloMsg) (ok : IsCanonical h) where
  extensions-Reads :
      (bytes s : List ℕ)
      → extensions cb h ≡ some s
      → Reads cb (parse_extension cb) true types s (header h bytes) (record h { raw = some bytes })
  unfolding extensions types
  extensions-Reads bytes s e =
      Reads-extension cb (parse_extension cb) laws true _ extension_server_name _ _ _
        (Structured.server_name-Handles cb laws h ok _ _ refl) (omega arith) refl
        (λ s1 e1.
          Reads-extension cb (parse_extension cb) laws true _ extension_status_request _ _ _
            (Structured.status_request-Handles cb laws h ok _ _ refl) (omega arith) refl
            (λ s2 e2.
              Reads-extension cb (parse_extension cb) laws true _ extension_supported_curves _ _ _
                (Steps.supported_curves-Handles cb laws h ok _ _ refl) (omega arith) refl
                (λ s3 e3.
                  Reads-extension cb (parse_extension cb) laws true _ extension_supported_points _ _
                    _ (Steps.supported_points-Handles cb laws h ok _ _ refl) (omega arith) refl
                    (λ s4 e4.
                      Reads-extension cb (parse_extension cb) laws true _ extension_session_ticket _
                        _ _ (Structured.session_ticket-Handles cb laws h ok _ _ refl refl)
                        (omega arith) refl
                        (λ s5 e5.
                          Reads-extension cb (parse_extension cb) laws true _
                            extension_signature_algorithms _ _ _
                            (Steps.signature_algorithms-Handles cb laws h ok _ _ refl) (omega arith)
                            refl
                            (λ s6 e6.
                              Reads-extension cb (parse_extension cb) laws true _
                                extension_signature_algorithms_cert _ _ _
                                (Steps.signature_algorithms_cert-Handles cb laws h ok _ _ refl)
                                (omega arith) refl
                                (λ s7 e7.
                                  Reads-extension cb (parse_extension cb) laws true _
                                    extension_renegotiation_info _ _ _
                                    (Structured.renegotiation_info-Handles cb laws h ok _ _ refl
                                      refl)
                                    (omega arith) refl
                                    (λ s8 e8.
                                      Reads-extension cb (parse_extension cb) laws true _
                                        extension_alpn _ _ _
                                        (Steps.alpn-Handles cb laws h ok _ _ refl) (omega arith)
                                        refl
                                        (λ s9 e9.
                                          Reads-empty cb (parse_extension cb) laws true _
                                            extension_sct _ _
                                            (Steps.scts-Handles cb laws h ok _ _ refl) (omega arith)
                                            refl
                                            (λ s10 e10.
                                              Reads-extension cb (parse_extension cb) laws true _
                                                extension_supported_versions _ _ _
                                                (Steps.supported_versions-Handles cb laws h ok _ _
                                                  refl)
                                                (omega arith) refl
                                                (λ s11 e11.
                                                  Reads-extension cb (parse_extension cb) laws true
                                                    _ extension_cookie _ _ _
                                                    (Steps.cookie-Handles cb laws h ok _ _ refl)
                                                    (omega arith) refl
                                                    (λ s12 e12.
                                                      Reads-extension cb (parse_extension cb) laws
                                                        true _ extension_key_share _ _ _
                                                        (Structured.key_share-Handles cb laws h ok _
                                                          _ refl)
                                                        (omega arith) refl
                                                        (λ s13 e13.
                                                          Reads-empty cb (parse_extension cb) laws
                                                            true _ extension_early_data _ _
                                                            (Steps.early_data-Handles cb laws h ok _
                                                            _ refl)
                                                            (omega arith) refl
                                                            (λ s14 e14.
                                                            Reads-extension cb (parse_extension cb)
                                                            laws true _ extension_psk_modes _ _ _
                                                            (Steps.psk_modes-Handles cb laws h ok _
                                                            _ refl)
                                                            (omega arith) refl
                                                            (λ s15 e15.
                                                            Reads-extension cb (parse_extension cb)
                                                            laws true _ extension_pre_shared_key _ _
                                                            _
                                                            (Structured.pre_shared_key-Handles cb
                                                            laws h ok _ refl refl)
                                                            (omega arith) refl
                                                            (λ s16 e16.
                                                            Reads-done cb (parse_extension cb) true
                                                            [] s16 _ e16)
                                                            e15)
                                                            e14)
                                                            e13)
                                                        e12)
                                                    e11)
                                                e10)
                                            e9)
                                        e8)
                                    e7)
                                e6)
                            e5)
                        e4)
                    e3)
                e2)
            e1)
        e

  read_fields-fields :
      (ext_bytes : List ℕ) {bytes : List ℕ}
      → in_turn (
          add_uint cb Width.w8 type_client_hello
          ∷ add_prefixed cb Width.w24 (fields cb h ext_bytes)
          ∷ [])
        ≡ some bytes
      → (s : List ℕ) × (in_turn (
            optional (not (is_empty ext_bytes)) (add_prefixed cb Width.w16 (add_bytes ext_bytes))
            ∷ [])
          ≡ some s)
        × (read_fields cb bytes ≡ some (header h bytes, s))
  unfolding fields read_fields
  read_fields-fields ext_bytes {bytes} e =
      let (s0, e0, r0) = skip-header cb laws type_client_hello (fields cb h ext_bytes) e in
      let (s1, e1, len1, r1) = read_uint-add cb laws Width.w16 h.vers _ ok.vers e0 in
      let (s2, e2, r2) = read_bytes-add cb laws 32 h.random _ e1 in
      let (b3, s3, eb3, e3, len3, r3) =
        read_prefixed-add cb laws Width.w8 (add_bytes h.session_id) _ e2 in
      let (b4, s4, eb4, e4, len4, r4) = read_prefixed-add cb laws Width.w16 _ _ e3 in
      let suites =
        read_list-each (λ x. x < 65536) (add_uint cb Width.w16) (cb.read_uint Width.w16)
          (read_uint-Parses cb laws Width.w16) h.cipher_suites ok.cipher_suites eb4 in
      let (b5, s5, eb5, e5, len5, r5) =
        read_prefixed-add cb laws Width.w8 (add_bytes h.compression_methods) _ e4 in
      let same3 : b3 ≡ h.session_id = ground arith in
      let same5 : b5 ≡ h.compression_methods = ground arith in
      (s5, e5, rw (r0, r1, r2, r3, r4, suites, r5, same3, same5))

  -- A message that marshal writes anew is read back as it is, with the bytes kept, if its numbers
  -- are in range, no entry of its lists is empty, the server name has no trailing dot, fields
  -- without their flag are empty and identities come with binders.
  pub unmarshal-marshal_client_hello :
      {bytes : List ℕ} {h' : ClientHelloMsg}
      → h.raw ≡ none
      → marshal cb h ≡ some (bytes, h')
      → (unmarshal cb bytes ≡ some h') × (h' ≡ record h { raw = some bytes })
  unfolding marshal unmarshal
  unmarshal-marshal_client_hello {bytes} {h'} fresh e =
      let e' = rw fresh at e in
      let (ext_bytes, e_ext, e_rest) = >>=-eq-some (extensions cb h) _ e' in
      let (written, e_written, e_pair) = >>=-eq-some _ _ e_rest in
      let (s, e_s, e_fields) = read_fields-fields ext_bytes e_written in
      let block =
        read_block-Reads cb (parse_extension cb) laws true types ext_bytes
          (extensions-Reads written ext_bytes e_ext) e_s in
      let same : written ≡ bytes = ground arith in
      let kept : h' ≡ record h { raw = some bytes } = ground arith in
      (rw (kept, sym same, e_fields, block), kept)
