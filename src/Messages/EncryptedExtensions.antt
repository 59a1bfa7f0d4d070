-- ===== src/Messages/EncryptedExtensions.antt =====
-- encryptedExtensionsMsg of handshake_messages.go.
use goktls.Base.{
  ℕ, ◌==◌, ◌≡◌, refl, sym, ap, ◌∙◌, false, not, List, [], ◌∷◌, Option, none, some, length,
  if◌then◌else◌, arith,
}
use goktls.Wire.{Width, CryptoByte, IsLawful}
use goktls.Wire.Build.{Builder, ◌>>=◌, optional, add_prefixed, in_turn, is_empty, read_prefixed-add}
use goktls.Wire.Extensions.{
  extension, read_extensions, Handles, Reads-extension, Reads-done, Reads-all,
}
use goktls.Messages.{type_encrypted_extensions, extension_alpn, full, lacks}
use goktls.Messages.Framing.{framed, marshal_with, marshal_with-framed}
use goktls.Messages.Alpn.{one_protocol, read_protocol, read_protocol-only}

pub record EncryptedExtensionsMsg : Type 0 where
  pub raw : Option (List ℕ)
  pub alpn_protocol : List ℕ

module _ (cb : CryptoByte) where
  pub extensions : EncryptedExtensionsMsg → Builder
  extensions m = in_turn (
      optional (not (is_empty m.alpn_protocol))
        (extension cb extension_alpn (one_protocol cb m.alpn_protocol))
      ∷ [])

  unfoldable pub marshal : EncryptedExtensionsMsg → Option (List ℕ × EncryptedExtensionsMsg)
  unfolding extensions
  marshal m =
      marshal_with m.raw m (λ bytes. record m { raw = some bytes })
        (framed cb type_encrypted_extensions
          (in_turn (add_prefixed cb Width.w16 (extensions m) ∷ [])))

  unfoldable pub parse_extension :
      ℕ → List ℕ → List ℕ → EncryptedExtensionsMsg → Option (EncryptedExtensionsMsg × List ℕ)
  parse_extension typ ext_data extensions m =
      if typ == extension_alpn
      then (do
        (proto, left) ← read_protocol cb ext_data
        some (record m { alpn_protocol = proto }, left))
      else some (m, [])

  unfoldable pub unmarshal : List ℕ → Option EncryptedExtensionsMsg
  unfolding parse_extension
  unmarshal bytes = do
    s ← cb.skip 4 bytes
    (extensions, left) ← cb.read_prefixed Width.w16 s
    if not (is_empty left)
        then none
        else read_extensions cb parse_extension false (length extensions) extensions []
            (record { raw = some bytes; alpn_protocol = [] })

module _ (cb : CryptoByte) (laws : IsLawful cb) (m : EncryptedExtensionsMsg) where
  alpn-Handles :
      (more : Builder) (blank : EncryptedExtensionsMsg)
      → blank.alpn_protocol ≡ []
      → Handles cb
          (parse_extension cb)
          (not (is_empty m.alpn_protocol))
          extension_alpn
          (one_protocol cb m.alpn_protocol)
          more
          blank
          (record blank { alpn_protocol = m.alpn_protocol })
  unfolding parse_extension
  alpn-Handles more blank old = record {
    present =
        λ c d ext e e'. rw (read_protocol-only cb laws m.alpn_protocol (full m.alpn_protocol c) e);
    absent = λ c. ground (arith, lacks m.alpn_protocol c);
  }

  -- EncryptedExtensions that marshal writes anew are read back as they are, with the bytes kept.
  pub unmarshal-marshal_encrypted_extensions :
      {bytes : List ℕ} {m' : EncryptedExtensionsMsg}
      → m.raw ≡ none
      → marshal cb m ≡ some (bytes, m')
      → unmarshal cb bytes ≡ some m'
  unfolding marshal unmarshal extensions
  unmarshal-marshal_encrypted_extensions {bytes} fresh e =
      let (s, e_s, e_skip, kept) =
        marshal_with-framed cb laws type_encrypted_extensions _ m.raw m _ fresh e in
      let (body, left, e_body, e_left, len, e_read) =
        read_prefixed-add cb laws Width.w16 (extensions cb m) (some []) e_s in
      let nothing : left ≡ [] = ground arith in
      let reads =
        Reads-extension cb (parse_extension cb) laws false _ extension_alpn [] _ _
          (alpn-Handles (in_turn []) (record { raw = some bytes; alpn_protocol = [] }) refl)
          (omega arith) refl (λ s1 e1. Reads-done cb (parse_extension cb) false [] s1 _ e1)
          e_body in
      let back : unmarshal cb bytes ≡ some (record m { raw = some bytes }) =
        rw (e_skip, e_read, nothing)
          (Reads-all cb (parse_extension cb) false (extension_alpn ∷ []) body reads) in
      back ∙ ap some (sym kept)
