-- ===== src/Signatures.antt =====
-- Signature schemes, auth.go: their types and hashes, which ones fit a certificate, and the choice
-- among those of the peer.
pub mod Fit
use goktls.Base.{
  ℕ, ◌+◌, ◌*◌, ◌<◌, ◌≤◌, ◌==◌, ◌≡◌, Bool, true, false, not, ◌&&◌, List, [], ◌∷◌, Option, none, some,
  if◌then◌else◌, ltb, leb, contains,
}
use goktls.Protocol.{version_tls12, version_tls13}

-- crypto.Hash, with directSigning for no hash.
pub data Hash : Type 0 where
  md5_sha1 sha1 sha256 sha384 sha512 direct_signing : Hash

abbrev pub signature_pkcs1v15 : ℕ
signature_pkcs1v15 = 225

abbrev pub signature_rsa_pss : ℕ
signature_rsa_pss = 226

abbrev pub signature_ecdsa : ℕ
signature_ecdsa = 227

abbrev pub signature_ed25519 : ℕ
signature_ed25519 = 228

abbrev pub pkcs1_with_sha1 : ℕ
pkcs1_with_sha1 = 0x0201

abbrev pub pkcs1_with_sha256 : ℕ
pkcs1_with_sha256 = 0x0401

abbrev pub pkcs1_with_sha384 : ℕ
pkcs1_with_sha384 = 0x0501

abbrev pub pkcs1_with_sha512 : ℕ
pkcs1_with_sha512 = 0x0601

abbrev pub pss_with_sha256 : ℕ
pss_with_sha256 = 0x0804

abbrev pub pss_with_sha384 : ℕ
pss_with_sha384 = 0x0805

abbrev pub pss_with_sha512 : ℕ
pss_with_sha512 = 0x0806

abbrev pub ecdsa_with_sha1 : ℕ
ecdsa_with_sha1 = 0x0203

abbrev pub ecdsa_with_p256_and_sha256 : ℕ
ecdsa_with_p256_and_sha256 = 0x0403

abbrev pub ecdsa_with_p384_and_sha384 : ℕ
ecdsa_with_p384_and_sha384 = 0x0503

abbrev pub ecdsa_with_p521_and_sha512 : ℕ
ecdsa_with_p521_and_sha512 = 0x0603

abbrev pub ed25519_scheme : ℕ
ed25519_scheme = 0x0807

-- The first switch of typeAndHashFromSignatureScheme, and the second.
unfoldable pub signature_type : ℕ → Option ℕ
signature_type s =
    if contains (pkcs1_with_sha1 ∷ pkcs1_with_sha256 ∷ pkcs1_with_sha384 ∷ pkcs1_with_sha512 ∷ []) s
    then some signature_pkcs1v15
    else if contains (pss_with_sha256 ∷ pss_with_sha384 ∷ pss_with_sha512 ∷ []) s
    then some signature_rsa_pss
    else if contains
        (ecdsa_with_sha1 ∷ ecdsa_with_p256_and_sha256 ∷ ecdsa_with_p384_and_sha384
          ∷ ecdsa_with_p521_and_sha512 ∷ [])
        s
    then some signature_ecdsa
    else if s == ed25519_scheme
    then some signature_ed25519
    else none

unfoldable pub signature_hash : ℕ → Option Hash
signature_hash s =
    if contains (pkcs1_with_sha1 ∷ ecdsa_with_sha1 ∷ []) s
    then some Hash.sha1
    else if contains (pkcs1_with_sha256 ∷ pss_with_sha256 ∷ ecdsa_with_p256_and_sha256 ∷ []) s
    then some Hash.sha256
    else if contains (pkcs1_with_sha384 ∷ pss_with_sha384 ∷ ecdsa_with_p384_and_sha384 ∷ []) s
    then some Hash.sha384
    else if contains (pkcs1_with_sha512 ∷ pss_with_sha512 ∷ ecdsa_with_p521_and_sha512 ∷ []) s
    then some Hash.sha512
    else if s == ed25519_scheme
    then some Hash.direct_signing
    else none

unfoldable pub type_and_hash : ℕ → Option (ℕ × Hash)
unfolding signature_type signature_hash
type_and_hash s = elim (signature_type s) [
  | none ↦ none
  | some typ ↦ elim (signature_hash s) [ none ↦ none | some hash ↦ some (typ, hash) ]
]

pub data Curve : Type 0 where
  p256 p384 p521 other_curve : Curve

-- The public keys that the type switches tell apart; `rsa` has its Size in bytes.
pub data PublicKey : Type 0 where
  ecdsa : Curve → PublicKey
  rsa : ℕ → PublicKey
  ed25519 : PublicKey
  other_key : PublicKey

-- Of a Certificate, the key of its Signer, if it has one, and SupportedSignatureAlgorithms.
pub record SigningCertificate : Type 0 where
  pub signer : Option PublicKey
  pub supported : Option (List ℕ)

unfoldable pub legacy_type_and_hash : PublicKey → Option (ℕ × Hash)
legacy_type_and_hash (PublicKey.rsa size) = some (signature_pkcs1v15, Hash.md5_sha1)
legacy_type_and_hash (PublicKey.ecdsa curve) = some (signature_ecdsa, Hash.sha1)
legacy_type_and_hash PublicKey.ed25519 = none
legacy_type_and_hash PublicKey.other_key = none

pub record RsaScheme : Type 0 where
  pub scheme : ℕ
  pub min_modulus_bytes : ℕ
  pub max_version : ℕ

abbrev pub rsa_signature_schemes : List RsaScheme
rsa_signature_schemes =
    record { scheme = 0x0804; min_modulus_bytes = 32 * 2 + 2; max_version = 0x304 }
    ∷ record { scheme = 0x0805; min_modulus_bytes = 48 * 2 + 2; max_version = 0x304 }
    ∷ record { scheme = 0x0806; min_modulus_bytes = 64 * 2 + 2; max_version = 0x304 }
    ∷ record { scheme = 0x0401; min_modulus_bytes = 19 + 32 + 11; max_version = 0x303 }
    ∷ record { scheme = 0x0501; min_modulus_bytes = 19 + 48 + 11; max_version = 0x303 }
    ∷ record { scheme = 0x0601; min_modulus_bytes = 19 + 64 + 11; max_version = 0x303 }
    ∷ record { scheme = 0x0201; min_modulus_bytes = 15 + 20 + 11; max_version = 0x303 }
    ∷ []

unfoldable pub rsa_fitting : ℕ → ℕ → List RsaScheme → List ℕ
rsa_fitting size version [] = []
rsa_fitting size version (c ∷ cs) =
    let rest = rsa_fitting size version cs in
    if leb c.min_modulus_bytes size && leb version c.max_version then c.scheme ∷ rest else rest

unfoldable pub schemes_of_key : ℕ → PublicKey → List ℕ
unfolding rsa_fitting
schemes_of_key version (PublicKey.ecdsa curve) =
    if not (version == version_tls13)
    then ecdsa_with_p256_and_sha256 ∷ ecdsa_with_p384_and_sha384 ∷ ecdsa_with_p521_and_sha512
      ∷ ecdsa_with_sha1 ∷ []
    else elim curve [
      | Curve.p256 ↦ ecdsa_with_p256_and_sha256 ∷ []
      | Curve.p384 ↦ ecdsa_with_p384_and_sha384 ∷ []
      | Curve.p521 ↦ ecdsa_with_p521_and_sha512 ∷ []
      | Curve.other_curve ↦ []
    ]
schemes_of_key version (PublicKey.rsa size) = rsa_fitting size version rsa_signature_schemes
schemes_of_key version PublicKey.ed25519 = ed25519_scheme ∷ []
schemes_of_key version PublicKey.other_key = []

unfoldable pub keep_supported : List ℕ → List ℕ → List ℕ
keep_supported supported [] = []
keep_supported supported (s ∷ ss) =
    let rest = keep_supported supported ss in if contains supported s then s ∷ rest else rest

unfoldable pub schemes_for_certificate : ℕ → SigningCertificate → List ℕ
unfolding schemes_of_key keep_supported
schemes_for_certificate version cert = elim cert.signer [
  | none ↦ []
  | some key ↦ elim cert.supported [
    | none ↦ schemes_of_key version key
    | some supported ↦ keep_supported supported (schemes_of_key version key)
  ]
]

abbrev pub is_allowed : Option (List ℕ) → ℕ → Bool
is_allowed none s = true
is_allowed (some list) s = contains list s

-- The loop over the peer's schemes; `fips` is fipsSupportedSignatureAlgorithms where it is needed.
unfoldable pub first_supported : Option (List ℕ) → List ℕ → List ℕ → Option ℕ
first_supported fips supported [] = none
first_supported fips supported (s ∷ ss) =
    let rest = first_supported fips supported ss in
    if not (is_allowed fips s) then rest else if contains supported s then some s else rest

pub data SchemeError : Type 0 where
  unsupported_certificate no_common_scheme : SchemeError

pub data Selected : Type 0 where
  scheme : ℕ → Selected
  refused : SchemeError → Selected

abbrev pub peer_schemes : ℕ → List ℕ → List ℕ
peer_schemes version [] =
    if version == version_tls12 then pkcs1_with_sha1 ∷ ecdsa_with_sha1 ∷ [] else []
peer_schemes version (s ∷ ss) = s ∷ ss

unfoldable pub select_signature_scheme :
    Option (List ℕ) → ℕ → SigningCertificate → List ℕ → Selected
unfolding schemes_for_certificate first_supported
select_signature_scheme fips version cert peer = elim (schemes_for_certificate version cert) [
  | [] ↦ Selected.refused SchemeError.unsupported_certificate
  | s ∷ ss ↦ elim (first_supported fips (s ∷ ss) (peer_schemes version peer)) [
    | none ↦ Selected.refused SchemeError.no_common_scheme
    | some found ↦ Selected.scheme found
  ]
]
