-- ===== src/Messages/CertificateRequest13.antt =====
-- certificateRequestMsgTLS13 of handshake_messages.go.
use goktls.Base.{
  ℕ, ◌==◌, ◌≡◌, refl, sym, ap, ◌∙◌, Bool, true, false, not, List, [], ◌∷◌, ◌++◌, Option, none, some,
  length, if◌then◌else◌, arith,
}
use goktls.Wire.{Width, CryptoByte, IsLawful}
use goktls.Wire.Build.{
  Builder, ◌⊕◌, ◌>>=◌, optional, add_uint, add_prefixed, in_turn, is_empty, read_prefixed-add,
  add_prefixed-nothing,
}
use goktls.Wire.Lists.{
  uints, strings, read_some, read_elements, read_elements-uints, read_elements-strings_only,
}
use goktls.Wire.Extensions.{
  extension, empty_extension, read_extensions, Handles, Reads, Reads-extension, Reads-empty,
  Reads-done, Reads-all,
}
use goktls.Messages.{
  type_certificate_request, extension_status_request, extension_sct, extension_signature_algorithms,
  extension_signature_algorithms_cert, extension_certificate_authorities, full, lacks, IsFilled,
  IsWords,
}
use goktls.Messages.Framing.{framed, marshal_with, marshal_with-framed}

pub record CertificateRequestMsg13 : Type 0 where
  pub raw : Option (List ℕ)
  pub ocsp_stapling : Bool
  pub scts : Bool
  pub supported_signature_algorithms : List ℕ
  pub supported_signature_algorithms_cert : List ℕ
  pub certificate_authorities : List (List ℕ)

abbrev blank : List ℕ → CertificateRequestMsg13
blank bytes = record {
  raw = some bytes;
  ocsp_stapling = false;
  scts = false;
  supported_signature_algorithms = [];
  supported_signature_algorithms_cert = [];
  certificate_authorities = [];
}

module _ (cb : CryptoByte) where
  pub extensions : CertificateRequestMsg13 → Builder
  extensions m = in_turn (
      optional m.ocsp_stapling (empty_extension cb extension_status_request)
      ∷ optional m.scts (empty_extension cb extension_sct)
      ∷ optional (not (is_empty m.supported_signature_algorithms)) (
          extension cb extension_signature_algorithms
            (uints cb Width.w16 m.supported_signature_algorithms))
      ∷ optional (not (is_empty m.supported_signature_algorithms_cert)) (
          extension cb extension_signature_algorithms_cert
            (uints cb Width.w16 m.supported_signature_algorithms_cert))
      ∷ optional (not (is_empty m.certificate_authorities)) (
          extension cb extension_certificate_authorities
            (strings cb Width.w16 Width.w16 m.certificate_authorities))
      ∷ [])

  unfoldable pub marshal : CertificateRequestMsg13 → Option (List ℕ × CertificateRequestMsg13)
  unfolding extensions
  marshal m =
      marshal_with m.raw m (λ bytes. record m { raw = some bytes })
        (framed cb type_certificate_request
          (in_turn (add_uint cb Width.w8 0 ∷ add_prefixed cb Width.w16 (extensions m) ∷ [])))

  abbrev Parser : Type 0
  Parser = List ℕ → CertificateRequestMsg13 → Option (CertificateRequestMsg13 × List ℕ)

  unfoldable pub parse_signature_algorithms : Parser
  parse_signature_algorithms ext_data m = do
    (algs, left) ← read_elements cb Width.w16 (cb.read_uint Width.w16) ext_data
    some (
      record m { supported_signature_algorithms = m.supported_signature_algorithms ++ algs },
      left,
    )

  unfoldable pub parse_signature_algorithms_cert : Parser
  parse_signature_algorithms_cert ext_data m = do
    (algs, left) ← read_elements cb Width.w16 (cb.read_uint Width.w16) ext_data
    some (
      record m {
        supported_signature_algorithms_cert = m.supported_signature_algorithms_cert ++ algs;
      },
      left,
    )

  unfoldable pub parse_certificate_authorities : Parser
  parse_certificate_authorities ext_data m = do
    (auths, left) ← read_elements cb Width.w16 (read_some cb Width.w16) ext_data
    some (record m { certificate_authorities = m.certificate_authorities ++ auths }, left)

  unfoldable pub parse_extension :
      ℕ → List ℕ → List ℕ → CertificateRequestMsg13 → Option (CertificateRequestMsg13 × List ℕ)
  unfolding parse_signature_algorithms parse_signature_algorithms_cert parse_certificate_authorities
  parse_extension typ ext_data extensions m =
      if typ == extension_status_request
      then some (record m { ocsp_stapling = true }, ext_data)
      else if typ == extension_sct
      then some (record m { scts = true }, ext_data)
      else if typ == extension_signature_algorithms
      then parse_signature_algorithms ext_data m
      else if typ == extension_signature_algorithms_cert
      then parse_signature_algorithms_cert ext_data m
      else if typ == extension_certificate_authorities
      then parse_certificate_authorities ext_data m
      else some (m, [])

  unfoldable pub unmarshal : List ℕ → Option CertificateRequestMsg13
  unfolding parse_extension
  unmarshal bytes = do
    s ← cb.skip 4 bytes
    (context, s) ← cb.read_prefixed Width.w8 s
    (extensions, left) ← (if not (is_empty context) then none else cb.read_prefixed Width.w16 s)
    if not (is_empty left)
        then none
        else read_extensions cb parse_extension false (length extensions) extensions []
            (blank bytes)

pub record IsCanonical (h : CertificateRequestMsg13) : Type 0 where
  pub signature_algorithms : IsWords h.supported_signature_algorithms
  pub signature_algorithms_cert : IsWords h.supported_signature_algorithms_cert
  pub authorities : IsFilled h.certificate_authorities

types : List ℕ
types =
    extension_status_request ∷ extension_sct ∷ extension_signature_algorithms
    ∷ extension_signature_algorithms_cert ∷ extension_certificate_authorities ∷ []

module _ (cb : CryptoByte) (laws : IsLawful cb) (h : CertificateRequestMsg13)
    (ok : IsCanonical h) where
  ocsp_stapling-Handles :
      (more : Builder) (m : CertificateRequestMsg13)
      → m.ocsp_stapling ≡ false
      → Handles cb
          (parse_extension cb)
          h.ocsp_stapling
          extension_status_request
          (some [])
          more
          m
          (record m { ocsp_stapling = h.ocsp_stapling })
  unfolding parse_extension
  ocsp_stapling-Handles more m old = record {
    present = λ c d ext e e'. ground arith;
    absent = λ c. ground arith;
  }

  scts-Handles :
      (more : Builder) (m : CertificateRequestMsg13)
      → m.scts ≡ false
      → Handles cb
          (parse_extension cb)
          h.scts
          extension_sct
          (some [])
          more
          m
          (record m { scts = h.scts })
  unfolding parse_extension
  scts-Handles more m old = record {
    present = λ c d ext e e'. ground arith;
    absent = λ c. ground arith;
  }

  supported_signature_algorithms-Handles :
      (more : Builder) (m : CertificateRequestMsg13)
      → m.supported_signature_algorithms ≡ []
      → Handles cb
          (parse_extension cb)
          (not (is_empty h.supported_signature_algorithms))
          extension_signature_algorithms
          (uints cb Width.w16 h.supported_signature_algorithms)
          more
          m
          (record m { supported_signature_algorithms = h.supported_signature_algorithms })
  unfolding parse_extension parse_signature_algorithms
  supported_signature_algorithms-Handles more m old = record {
    present = λ c d ext e e'. rw (
      read_elements-uints cb laws Width.w16 h.supported_signature_algorithms ok.signature_algorithms
          (full h.supported_signature_algorithms c) e,
      old,
    );
    absent = λ c. ground (arith, lacks h.supported_signature_algorithms c);
  }

  supported_signature_algorithms_cert-Handles :
      (more : Builder) (m : CertificateRequestMsg13)
      → m.supported_signature_algorithms_cert ≡ []
      → Handles cb
          (parse_extension cb)
          (not (is_empty h.supported_signature_algorithms_cert))
          extension_signature_algorithms_cert
          (uints cb Width.w16 h.supported_signature_algorithms_cert)
          more
          m
          (record m { supported_signature_algorithms_cert = h.supported_signature_algorithms_cert })
  unfolding parse_extension parse_signature_algorithms_cert
  supported_signature_algorithms_cert-Handles more m old = record {
    present = λ c d ext e e'. rw (
      read_elements-uints cb laws Width.w16 h.supported_signature_algorithms_cert
          ok.signature_algorithms_cert (full h.supported_signature_algorithms_cert c) e,
      old,
    );
    absent = λ c. ground (arith, lacks h.supported_signature_algorithms_cert c);
  }

  certificate_authorities-Handles :
      (more : Builder) (m : CertificateRequestMsg13)
      → m.certificate_authorities ≡ []
      → Handles cb
          (parse_extension cb)
          (not (is_empty h.certificate_authorities))
          extension_certificate_authorities
          (strings cb Width.w16 Width.w16 h.certificate_authorities)
          more
          m
          (record m { certificate_authorities = h.certificate_authorities })
  unfolding parse_extension parse_certificate_authorities
  certificate_authorities-Handles more m old = record {
    present = λ c d ext e e'. rw (
      read_elements-strings_only cb laws Width.w16 Width.w16 h.certificate_authorities
          ok.authorities (full h.certificate_authorities c) e,
      old,
    );
    absent = λ c. ground (arith, lacks h.certificate_authorities c);
  }

  extensions-Reads :
      (bytes s : List ℕ)
      → extensions cb h ≡ some s
      → Reads cb (parse_extension cb) false types s (blank bytes) (record h { raw = some bytes })
  unfolding extensions types
  extensions-Reads bytes s e =
      Reads-empty cb (parse_extension cb) laws false _ extension_status_request _ _
        (ocsp_stapling-Handles _ _ refl) (omega arith) refl
        (λ s1 e1.
          Reads-empty cb (parse_extension cb) laws false _ extension_sct _ _ (scts-Handles _ _ refl)
            (omega arith) refl
            (λ s2 e2.
              Reads-extension cb (parse_extension cb) laws false _ extension_signature_algorithms _
                _ _ (supported_signature_algorithms-Handles _ _ refl) (omega arith) refl
                (λ s3 e3.
                  Reads-extension cb (parse_extension cb) laws false _
                    extension_signature_algorithms_cert _ _ _
                    (supported_signature_algorithms_cert-Handles _ _ refl) (omega arith) refl
                    (λ s4 e4.
                      Reads-extension cb (parse_extension cb) laws false _
                        extension_certificate_authorities _ _ _
                        (certificate_authorities-Handles _ _ refl) (omega arith) refl
                        (λ s5 e5. Reads-done cb (parse_extension cb) false [] s5 _ e5) e4)
                    e3)
                e2)
            e1)
        e

  -- A TLS 1.3 certificate request with 16-bit algorithms and no empty authority that marshal writes
  -- anew is read back as it is, with the bytes kept.
  pub unmarshal-marshal_certificate_request13 :
      {bytes : List ℕ} {h' : CertificateRequestMsg13}
      → h.raw ≡ none
      → marshal cb h ≡ some (bytes, h')
      → unmarshal cb bytes ≡ some h'
  unfolding marshal unmarshal
  unmarshal-marshal_certificate_request13 {bytes} fresh e =
      let (s, e_s, e_skip, kept) =
        marshal_with-framed cb laws type_certificate_request _ h.raw h _ fresh e in
      let e_s' =
        ap (λ (t : Builder). t ⊕ (add_prefixed cb Width.w16 (extensions cb h) ⊕ some []))
          (add_prefixed-nothing cb laws Width.w8)
        ∙ e_s in
      let (context, s1, e_c, e1, len1, r1) = read_prefixed-add cb laws Width.w8 (some []) _ e_s' in
      let (body, left, e_body, e_left, len, r2) =
        read_prefixed-add cb laws Width.w16 (extensions cb h) (some []) e1 in
      let no_context : context ≡ [] = ground arith in
      let nothing : left ≡ [] = ground arith in
      let back : unmarshal cb bytes ≡ some (record h { raw = some bytes }) =
        rw (e_skip, r1, no_context, r2, nothing)
          (Reads-all cb (parse_extension cb) false types body
            (extensions-Reads bytes body e_body)) in
      back ∙ ap some (sym kept)
