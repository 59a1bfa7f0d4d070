-- ===== src/Messages/ClientHello/Steps.antt =====
-- The extensions of a clientHelloMsg with one list, one string or nothing are read back by the
-- switch of unmarshal.
use goktls.Base.{◌≡◌, false, not, [], some, arith}
use goktls.Wire.{Width, CryptoByte, IsLawful}
use goktls.Wire.Build.{Builder, is_empty, add_prefixed, add_bytes, read_prefixed-only}
use goktls.Wire.Lists.{
  uints, strings, read_elements-uints, read_elements-strings_only, read_some-only,
}
use goktls.Wire.Extensions.{Handles}
use goktls.Messages.{
  full, lacks, extension_supported_curves, extension_supported_points,
  extension_signature_algorithms, extension_alpn, extension_sct, extension_early_data,
  extension_supported_versions, extension_cookie, extension_psk_modes,
  extension_signature_algorithms_cert,
}
use goktls.Messages.ClientHello.{ClientHelloMsg}
use goktls.Messages.ClientHello.Canonical.{IsCanonical}
use goktls.Messages.ClientHello.Unmarshal.{
  parse_extension, parse_supported_curves, parse_supported_points, parse_signature_algorithms,
  parse_signature_algorithms_cert, parse_alpn, parse_supported_versions, parse_cookie,
  parse_psk_modes,
}

module _ (cb : CryptoByte) (laws : IsLawful cb) (h : ClientHelloMsg) (ok : IsCanonical h) where
  pub supported_curves-Handles :
      (more : Builder) (m : ClientHelloMsg)
      → m.supported_curves ≡ []
      → Handles cb
          (parse_extension cb)
          (not (is_empty h.supported_curves))
          extension_supported_curves
          (uints cb Width.w16 h.supported_curves)
          more
          m
          (record m { supported_curves = h.supported_curves })
  unfolding parse_extension parse_supported_curves
  supported_curves-Handles more m old = record {
    present = λ c d ext e e'. rw (
      read_elements-uints cb laws Width.w16 h.supported_curves ok.curves (full h.supported_curves c)
          e,
      old,
    );
    absent = λ c. ground (arith, lacks h.supported_curves c);
  }

  pub signature_algorithms-Handles :
      (more : Builder) (m : ClientHelloMsg)
      → m.supported_signature_algorithms ≡ []
      → Handles cb
          (parse_extension cb)
          (not (is_empty h.supported_signature_algorithms))
          extension_signature_algorithms
          (uints cb Width.w16 h.supported_signature_algorithms)
          more
          m
          (record m { supported_signature_algorithms = h.supported_signature_algorithms })
  unfolding parse_extension parse_signature_algorithms
  signature_algorithms-Handles more m old = record {
    present = λ c d ext e e'. rw (
      read_elements-uints cb laws Width.w16 h.supported_signature_algorithms ok.signature_algorithms
          (full h.supported_signature_algorithms c) e,
      old,
    );
    absent = λ c. ground (arith, lacks h.supported_signature_algorithms c);
  }

  pub signature_algorithms_cert-Handles :
      (more : Builder) (m : ClientHelloMsg)
      → m.supported_signature_algorithms_cert ≡ []
      → Handles cb
          (parse_extension cb)
          (not (is_empty h.supported_signature_algorithms_cert))
          extension_signature_algorithms_cert
          (uints cb Width.w16 h.supported_signature_algorithms_cert)
          more
          m
          (record m { supported_signature_algorithms_cert = h.supported_signature_algorithms_cert })
  unfolding parse_extension parse_signature_algorithms_cert
  signature_algorithms_cert-Handles more m old = record {
    present = λ c d ext e e'. rw (
      read_elements-uints cb laws Width.w16 h.supported_signature_algorithms_cert
          ok.signature_algorithms_cert (full h.supported_signature_algorithms_cert c) e,
      old,
    );
    absent = λ c. ground (arith, lacks h.supported_signature_algorithms_cert c);
  }

  pub supported_versions-Handles :
      (more : Builder) (m : ClientHelloMsg)
      → m.supported_versions ≡ []
      → Handles cb
          (parse_extension cb)
          (not (is_empty h.supported_versions))
          extension_supported_versions
          (uints cb Width.w8 h.supported_versions)
          more
          m
          (record m { supported_versions = h.supported_versions })
  unfolding parse_extension parse_supported_versions
  supported_versions-Handles more m old = record {
    present = λ c d ext e e'. rw (
      read_elements-uints cb laws Width.w8 h.supported_versions ok.versions
          (full h.supported_versions c) e,
      old,
    );
    absent = λ c. ground (arith, lacks h.supported_versions c);
  }

  pub supported_points-Handles :
      (more : Builder) (m : ClientHelloMsg)
      → m.supported_points ≡ []
      → Handles cb
          (parse_extension cb)
          (not (is_empty h.supported_points))
          extension_supported_points
          (add_prefixed cb Width.w8 (add_bytes h.supported_points))
          more
          m
          (record m { supported_points = h.supported_points })
  unfolding parse_extension parse_supported_points
  supported_points-Handles more m old = record {
    present = λ c d ext e e'.
        rw (read_some-only cb laws Width.w8 h.supported_points (full h.supported_points c) e);
    absent = λ c. ground (arith, lacks h.supported_points c);
  }

  pub cookie-Handles :
      (more : Builder) (m : ClientHelloMsg)
      → m.cookie ≡ []
      → Handles cb
          (parse_extension cb)
          (not (is_empty h.cookie))
          extension_cookie
          (add_prefixed cb Width.w16 (add_bytes h.cookie))
          more
          m
          (record m { cookie = h.cookie })
  unfolding parse_extension parse_cookie
  cookie-Handles more m old = record {
    present = λ c d ext e e'. rw (read_some-only cb laws Width.w16 h.cookie (full h.cookie c) e);
    absent = λ c. ground (arith, lacks h.cookie c);
  }

  pub alpn-Handles :
      (more : Builder) (m : ClientHelloMsg)
      → m.alpn_protocols ≡ []
      → Handles cb
          (parse_extension cb)
          (not (is_empty h.alpn_protocols))
          extension_alpn
          (strings cb Width.w16 Width.w8 h.alpn_protocols)
          more
          m
          (record m { alpn_protocols = h.alpn_protocols })
  unfolding parse_extension parse_alpn
  alpn-Handles more m old = record {
    present = λ c d ext e e'. rw (
      read_elements-strings_only cb laws Width.w16 Width.w8 h.alpn_protocols ok.alpn
          (full h.alpn_protocols c) e,
      old,
    );
    absent = λ c. ground (arith, lacks h.alpn_protocols c);
  }

  pub scts-Handles :
      (more : Builder) (m : ClientHelloMsg)
      → m.scts ≡ false
      → Handles cb
          (parse_extension cb)
          h.scts
          extension_sct
          (some [])
          more
          m
          (record m { scts = h.scts })
  unfolding parse_extension
  scts-Handles more m old = record {
    present = λ c d ext e e'. ground arith;
    absent = λ c. ground arith;
  }

  pub early_data-Handles :
      (more : Builder) (m : ClientHelloMsg)
      → m.early_data ≡ false
      → Handles cb
          (parse_extension cb)
          h.early_data
          extension_early_data
          (some [])
          more
          m
          (record m { early_data = h.early_data })
  unfolding parse_extension
  early_data-Handles more m old = record {
    present = λ c d ext e e'. ground arith;
    absent = λ c. ground arith;
  }

  pub psk_modes-Handles :
      (more : Builder) (m : ClientHelloMsg)
      → m.psk_modes ≡ []
      → Handles cb
          (parse_extension cb)
          (not (is_empty h.psk_modes))
          extension_psk_modes
          (add_prefixed cb Width.w8 (add_bytes h.psk_modes))
          more
          m
          (record m { psk_modes = h.psk_modes })
  unfolding parse_extension parse_psk_modes
  psk_modes-Handles more m old = record {
    present = λ c d ext e e'.
        let (body, e_body, len, e_read) =
          read_prefixed-only cb laws Width.w8 (add_bytes h.psk_modes) e in
        ground arith;
    absent = λ c. ground (arith, lacks h.psk_modes c);
  }
