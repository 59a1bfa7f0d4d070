-- ===== src/Signatures/Fit.antt =====
-- Which signatures a certificate's key makes in a version, and the choice of auth.go.
use goktls.Base.{
  ℕ, ◌+◌, ◌*◌, ◌≢◌, ◌≤◌, ◌==◌, ◌≡◌, ◌⊎◌, inl, inr, refl, subst, true, List, [], ◌∷◌, Option, none,
  some, leb, contains, All, arith, Bool-cases, Option-cases,
}
use goktls.Protocol.{version_tls12, version_tls13}
use goktls.Signatures.{
  Hash, signature_pkcs1v15, signature_rsa_pss, signature_ecdsa, signature_ed25519, type_and_hash,
  Curve, PublicKey, SigningCertificate, RsaScheme, rsa_signature_schemes, rsa_fitting,
  schemes_of_key, keep_supported, schemes_for_certificate, first_supported, Selected, SchemeError,
  peer_schemes, select_signature_scheme,
}

abbrev hash_size : Hash → ℕ
hash_size Hash.md5_sha1 = 36
hash_size Hash.sha1 = 20
hash_size Hash.sha256 = 32
hash_size Hash.sha384 = 48
hash_size Hash.sha512 = 64
hash_size Hash.direct_signing = 0

-- The DER prefix of a DigestInfo.
abbrev prefix_size : Hash → ℕ
prefix_size Hash.sha1 = 15
prefix_size hash = 19

-- The curve that RFC 8446, 4.2.3, joins to a hash.
abbrev IsCurveOf : Hash → Curve → Type 0
IsCurveOf hash Curve.p256 = hash ≡ Hash.sha256
IsCurveOf hash Curve.p384 = hash ≡ Hash.sha384
IsCurveOf hash Curve.p521 = hash ≡ Hash.sha512
IsCurveOf hash Curve.other_curve = ⊥

-- The signatures that a key makes in a version. An RSA key makes PSS signatures where two hashes
-- and two bytes fit into its modulus, and PKCS #1 v1.5 ones before TLS 1.3 where the prefix, the hash
-- and eleven bytes fit; an ECDSA key makes in TLS 1.3 only those with its curve's hash.
abbrev pub Makes : PublicKey → ℕ → ℕ → Hash → Type 0
Makes (PublicKey.rsa size) version typ hash =
    ((typ ≡ signature_rsa_pss) × (2 * hash_size hash + 2 ≤ size))
    ⊎ ((typ ≡ signature_pkcs1v15)
        × (version ≤ version_tls12)
        × (prefix_size hash + hash_size hash + 11 ≤ size))
Makes (PublicKey.ecdsa curve) version typ hash =
    (typ ≡ signature_ecdsa) × ((version ≢ version_tls13) ⊎ IsCurveOf hash curve)
Makes PublicKey.ed25519 version typ hash = (typ ≡ signature_ed25519) × (hash ≡ Hash.direct_signing)
Makes PublicKey.other_key version typ hash = ⊥

abbrev pub Fits : PublicKey → ℕ → ℕ → Type 0
Fits key version s =
    (typ : ℕ) × (hash : Hash) × (type_and_hash s ≡ some (typ, hash)) × Makes key version typ hash

-- What a row of the table of RSA schemes may be used for.
IsRsaRow : ℕ → RsaScheme → Type 0
IsRsaRow version c =
    leb version c.max_version ≡ true
    → (size : ℕ) → leb c.min_modulus_bytes size ≡ true
    → Fits (PublicKey.rsa size) version c.scheme

rows_fit : (version : ℕ) → All (IsRsaRow version) rsa_signature_schemes
unfolding type_and_hash IsRsaRow
rows_fit version = (
  λ h size l. (226, Hash.sha256, refl, inl (refl, ground arith)),
  (
    λ h size l. (226, Hash.sha384, refl, inl (refl, ground arith)),
    (
      λ h size l. (226, Hash.sha512, refl, inl (refl, ground arith)),
      (
        λ h size l. (225, Hash.sha256, refl, inr (refl, ground (arith), ground arith)),
        (
          λ h size l. (225, Hash.sha384, refl, inr (refl, ground (arith), ground arith)),
          (
            λ h size l. (225, Hash.sha512, refl, inr (refl, ground (arith), ground arith)),
            (λ h size l. (225, Hash.sha1, refl, inr (refl, ground (arith), ground arith)), tt),
          ),
        ),
      ),
    ),
  ),
)

rsa_fitting-Fits :
    (size version : ℕ) (cs : List RsaScheme)
    → All (IsRsaRow version) cs
    → All (Fits (PublicKey.rsa size) version) (rsa_fitting size version cs)
unfolding rsa_fitting IsRsaRow
rsa_fitting-Fits size version [] rows = tt
rsa_fitting-Fits size version (c ∷ cs) rows =
    let rest = rsa_fitting-Fits size version cs rows.1 in
    elim (Bool-cases (leb c.min_modulus_bytes size)) [
      | inr small ↦ rw small rest
      | inl large ↦ elim (Bool-cases (leb version c.max_version)) [
        | inr late ↦ rw (large, late) rest
        | inl early ↦ rw (large, early) (rows.0 early size large, rest)
      ]
    ]

schemes_of_key-Fits :
    (version : ℕ) (key : PublicKey) → All (Fits key version) (schemes_of_key version key)
unfolding schemes_of_key type_and_hash
schemes_of_key-Fits version (PublicKey.rsa size) =
    rsa_fitting-Fits size version rsa_signature_schemes (rows_fit version)
schemes_of_key-Fits version PublicKey.ed25519 = ((228, Hash.direct_signing, refl, (refl, refl)), tt)
schemes_of_key-Fits version PublicKey.other_key = tt
schemes_of_key-Fits version (PublicKey.ecdsa curve) = elim (Bool-cases (version == version_tls13)) [
  | inr before ↦
      let early : version ≢ version_tls13 = λ z. ground arith in
      rw before (
        (227, Hash.sha256, refl, (refl, inl early)),
        (
          (227, Hash.sha384, refl, (refl, inl early)),
          (
            (227, Hash.sha512, refl, (refl, inl early)),
            ((227, Hash.sha1, refl, (refl, inl early)), tt),
          ),
        ),
      )
  | inl tls13 ↦ rw tls13 (one curve)
]
  where
    one :
        (curve : Curve)
        → All (Fits (PublicKey.ecdsa curve) version) (elim curve [
          | Curve.p256 ↦ 0x0403 ∷ []
          | Curve.p384 ↦ 0x0503 ∷ []
          | Curve.p521 ↦ 0x0603 ∷ []
          | Curve.other_curve ↦ []
        ])
    one Curve.p256 = ((227, Hash.sha256, refl, (refl, inr refl)), tt)
    one Curve.p384 = ((227, Hash.sha384, refl, (refl, inr refl)), tt)
    one Curve.p521 = ((227, Hash.sha512, refl, (refl, inr refl)), tt)
    one Curve.other_curve = tt

keep_supported-All :
    (P : ℕ → Type 0) (supported ss : List ℕ) → All P ss → All P (keep_supported supported ss)
unfolding keep_supported
keep_supported-All P supported [] all = tt
keep_supported-All P supported (s ∷ ss) all = elim (Bool-cases (contains supported s)) [
  | inl kept ↦ rw kept (all.0, keep_supported-All P supported ss all.1)
  | inr dropped ↦ rw dropped (keep_supported-All P supported ss all.1)
]

contains-All : (P : ℕ → Type 0) (ss : List ℕ) (s : ℕ) → All P ss → contains ss s ≡ true → P s
contains-All P [] s all h = absurd (cc h)
contains-All P (x ∷ ss) s all h = elim (Bool-cases (x == s)) [
  | inl same ↦ let x_s : x ≡ s = ground arith in subst P x_s all.0
  | inr other ↦ contains-All P ss s all.1 (ground arith)
]

first_supported-found :
    (fips : Option (List ℕ)) (supported peer : List ℕ) {s : ℕ}
    → first_supported fips supported peer ≡ some s
    → (contains supported s ≡ true) × (contains peer s ≡ true)
unfolding first_supported
first_supported-found fips supported [] h = absurd (ground arith)
first_supported-found fips supported (x ∷ peer) {s} h =
    ground (arith, first_supported-found fips supported peer {s = s})

schemes_for_certificate-Fits :
    (version : ℕ) (cert : SigningCertificate) (key : PublicKey)
    → cert.signer ≡ some key
    → All (Fits key version) (schemes_for_certificate version cert)
unfolding schemes_for_certificate
schemes_for_certificate-Fits version cert key signed = elim (Option-cases cert.supported) [
  | inl unlimited ↦ rw (signed, unlimited) (schemes_of_key-Fits version key)
  | inr (supported, limited) ↦
      rw (signed, limited)
        (keep_supported-All (Fits key version) supported (schemes_of_key version key)
          (schemes_of_key-Fits version key))
]

supported_found :
    (fips : Option (List ℕ)) (schemes peer : List ℕ) {s : ℕ}
    → (elim schemes [
      | [] ↦ Selected.refused SchemeError.unsupported_certificate
      | x ∷ xs ↦ elim (first_supported fips (x ∷ xs) peer) [
        | none ↦ Selected.refused SchemeError.no_common_scheme
        | some found ↦ Selected.scheme found
      ]
    ])
      ≡ Selected.scheme s
    → first_supported fips schemes peer ≡ some s
supported_found fips [] peer h = absurd (cc h)
supported_found fips (x ∷ xs) peer {s} h = ground arith

-- The scheme that is selected for a certificate with a key is one of the peer's, or one of the two
-- with SHA-1 that TLS 1.2 takes a peer without any to have, and the key makes its signatures: an RSA
-- modulus is large enough for the scheme, and has a PKCS #1 v1.5 scheme only up to TLS 1.2; for an
-- ECDSA key it is an ECDSA scheme, in TLS 1.3 the one of its curve; for an Ed25519 key it is Ed25519.
pub select_signature_scheme-Fits :
    (fips : Option (List ℕ)) (version : ℕ) (cert : SigningCertificate) (peer : List ℕ)
    (key : PublicKey) {s : ℕ}
    → cert.signer ≡ some key
    → select_signature_scheme fips version cert peer ≡ Selected.scheme s
    → (contains (peer_schemes version peer) s ≡ true) × Fits key version s
unfolding select_signature_scheme
select_signature_scheme-Fits fips version cert peer key {s} signed h =
    let schemes = schemes_for_certificate version cert in
    let found = supported_found fips schemes (peer_schemes version peer) h in
    let (kept, offered) = first_supported-found fips schemes (peer_schemes version peer) found in
    (
      offered,
      contains-All (Fits key version) schemes s
          (schemes_for_certificate-Fits version cert key signed) kept,
    )
