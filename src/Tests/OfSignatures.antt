-- ===== src/Tests/OfSignatures.antt =====
-- Tests and examples of signature schemes.
use goktls.Base.{◌≡◌, refl, true, [], ◌∷◌, none, some, contains}
use goktls.Signatures.{
  PublicKey, SigningCertificate, Selected, peer_schemes, select_signature_scheme,
}
use goktls.Signatures.Fit.{Fits, select_signature_scheme-Fits}

abbrev rsa_certificate : SigningCertificate
rsa_certificate = record { signer = some (PublicKey.rsa 256); supported = none }

-- In TLS 1.3 the PKCS #1 v1.5 scheme that the peer prefers is passed over.
pss_selected :
    select_signature_scheme none 0x304 rsa_certificate (0x0401 ∷ 0x0804 ∷ [])
    ≡ Selected.scheme 0x0804
unfolding select_signature_scheme
pss_selected = refl

select_signature_scheme-Fits_example :
    (contains (peer_schemes 0x304 (0x0401 ∷ 0x0804 ∷ [])) 0x0804 ≡ true)
    × Fits (PublicKey.rsa 256) 0x304 0x0804
select_signature_scheme-Fits_example =
    select_signature_scheme-Fits none 0x304 rsa_certificate (0x0401 ∷ 0x0804 ∷ [])
      (PublicKey.rsa 256) refl pss_selected
