-- ===== src/Messages/Certificate13/RoundTrip.antt =====
-- What certificateMsgTLS13.marshal writes is read back by unmarshal.
use goktls.Base.{ℕ, ◌≡◌, refl, sym, ap, ◌∙◌, List, [], Option, none, some, if◌then◌else◌, arith}
use goktls.Wire.{Width, CryptoByte, IsLawful}
use goktls.Wire.Build.{Builder, ◌⊕◌, add_prefixed, read_prefixed-add, add_prefixed-nothing}
use goktls.Messages.{type_certificate}
use goktls.Messages.Framing.{marshal_with-framed}
use goktls.Messages.Certificate13.{
  Certificate, CertificateMsg13, is_some, entries, marshal_certificate, as_flagged, marshal,
  unmarshal_certificate, unmarshal,
}
use goktls.Messages.Certificate13.Entries.{IsCanonical, read_entries-entries}

kept_if {ℓ} : {A : Type ℓ} (o : Option A) → (if is_some o then o else none) ≡ o
kept_if none = refl
kept_if (some x) = refl

as_flagged-full :
    (m : CertificateMsg13)
    → m.ocsp_stapling ≡ is_some m.certificate.ocsp_staple
    → m.scts ≡ is_some m.certificate.timestamps
    → as_flagged m ≡ m.certificate
unfolding as_flagged
as_flagged-full m stapled stamped =
    rw (stapled, stamped, kept_if m.certificate.ocsp_staple, kept_if m.certificate.timestamps)

-- A TLS 1.3 certificate message whose flags say what its certificate has, with no empty staple or
-- timestamp and neither of them without a leaf, is read back as it is, with the bytes kept.
pub unmarshal-marshal_certificate13 :
    (cb : CryptoByte)
    → IsLawful cb
    → (m : CertificateMsg13) {bytes : List ℕ} {m' : CertificateMsg13} → m.raw ≡ none
    → IsCanonical m.certificate
    → m.ocsp_stapling ≡ is_some m.certificate.ocsp_staple
    → m.scts ≡ is_some m.certificate.timestamps
    → marshal cb m ≡ some (bytes, m')
    → unmarshal cb bytes ≡ some m'
unfolding marshal unmarshal marshal_certificate unmarshal_certificate
unmarshal-marshal_certificate13 cb laws m {bytes} fresh ok stapled stamped e =
    let (s, e_s, e_skip, kept) = marshal_with-framed cb laws type_certificate _ m.raw m _ fresh e in
    let full = as_flagged-full m stapled stamped in
    let c = as_flagged m in
    let e_s' =
      ap (λ (t : Builder). t ⊕ (add_prefixed cb Width.w24 (entries cb c 0 c.chain) ⊕ some []))
        (add_prefixed-nothing cb laws Width.w8)
      ∙ e_s in
    let (context, s1, e_c, e1, len1, r1) = read_prefixed-add cb laws Width.w8 (some []) _ e_s' in
    let (body, left, e_body, e_left, len, r2) =
      read_prefixed-add cb laws Width.w24 (entries cb c 0 c.chain) (some []) e1 in
    let e_all : entries cb m.certificate 0 m.certificate.chain ≡ some body =
      ap (λ (t : Certificate). entries cb t 0 t.chain) (sym full) ∙ e_body in
    let chain = read_entries-entries cb laws m.certificate body ok e_all in
    let no_context : context ≡ [] = ground arith in
    let nothing : left ≡ [] = ground arith in
    let back : unmarshal cb bytes ≡ some (record m { raw = some bytes }) =
      rw (e_skip, r1, no_context, r2, chain, nothing, stapled, stamped) in
    back ∙ ap some (sym kept)
