-- ===== src/Negotiation.antt =====
-- What a server and a client agree on: versions and curves of common.go, ALPN protocols and cipher
-- suites of handshake_server.go and cipher_suites.go. Names of protocols are lists of bytes.
pub mod Versions
pub mod Protocols
pub mod Suites
use goktls.Base.{
  ℕ, ◌+◌, Bool, true, false, not, ◌&&◌, ◌||◌, List, [], ◌∷◌, ◌++◌, Option, none, some, ltb, ◌==◌,
  if◌then◌else◌, length, contains, bytes_eq,
}
use goktls.Protocol.{version_tls10, version_tls11, version_tls12, version_tls13}

-- The fields of Config that are read here; a version of 0 is not set.
pub record Config : Type 0 where
  pub min_version : ℕ
  pub max_version : ℕ
  pub curves : List ℕ

-- needFIPS, fipsMinVersion, fipsMaxVersion and fipsCurvePreferences.
pub record Fips : Type 0 where
  pub needed : Bool
  pub min_version : Option Config → ℕ
  pub max_version : Option Config → ℕ
  pub curves : Option Config → List ℕ

abbrev pub all_versions : List ℕ
all_versions = version_tls13 ∷ version_tls12 ∷ version_tls11 ∷ version_tls10 ∷ []

-- The configured bound: 0 for a nil Config too, which `c == nil || c.MinVersion == 0` does not tell
-- apart.
abbrev pub min_of : Option Config → ℕ
min_of none = 0
min_of (some c) = c.min_version

abbrev pub max_of : Option Config → ℕ
max_of none = 0
max_of (some c) = c.max_version

-- The tests of the loop of supportedVersions that skip a version.
unfoldable pub skipped : Fips → Option Config → Bool → ℕ → Bool
skipped fips c is_client v =
    (fips.needed && (ltb v (fips.min_version c) || ltb (fips.max_version c) v))
    || (((min_of c == 0) && (is_client && ltb v version_tls12))
        || ((not (min_of c == 0) && ltb v (min_of c)) || (not (max_of c == 0) && ltb (max_of c) v)))

unfoldable pub keep_versions : Fips → Option Config → Bool → List ℕ → List ℕ
keep_versions fips c is_client [] = []
keep_versions fips c is_client (v ∷ vs) =
    let rest = keep_versions fips c is_client vs in
    if skipped fips c is_client v then rest else v ∷ rest

-- supportedVersions.
unfoldable pub supported_versions : Fips → Option Config → Bool → List ℕ
supported_versions fips c is_client = keep_versions fips c is_client all_versions

-- maxSupportedVersion.
unfoldable pub max_supported_version : Fips → Option Config → Bool → ℕ
max_supported_version fips c is_client = elim (supported_versions fips c is_client) [
  | [] ↦ 0
  | v ∷ vs ↦ v
]

-- supportedVersionsFromMax.
unfoldable pub supported_versions_from_max : ℕ → List ℕ → List ℕ
supported_versions_from_max max [] = []
supported_versions_from_max max (v ∷ vs) =
    let rest = supported_versions_from_max max vs in if ltb max v then rest else v ∷ rest

-- The two loops of mutualVersion.
unfoldable pub first_mutual : List ℕ → List ℕ → Option ℕ
first_mutual supported [] = none
first_mutual supported (p ∷ ps) =
    let rest = first_mutual supported ps in if contains supported p then some p else rest

-- mutualVersion; `none` is (0, false).
unfoldable pub mutual_version : Fips → Option Config → Bool → List ℕ → Option ℕ
mutual_version fips c is_client peer = first_mutual (supported_versions fips c is_client) peer

-- X25519, CurveP256, CurveP384 and CurveP521.
abbrev pub default_curves : List ℕ
default_curves = 29 ∷ 23 ∷ 24 ∷ 25 ∷ []

-- curvePreferences and supportsCurve.
unfoldable pub curve_preferences : Fips → Option Config → List ℕ
curve_preferences fips c = if fips.needed then fips.curves c else elim c [
  | none ↦ default_curves
  | some k ↦ if length k.curves == 0 then default_curves else k.curves
]

unfoldable pub supports_curve : Fips → Option Config → ℕ → Bool
supports_curve fips c curve = contains (curve_preferences fips c) curve

-- The loops of supportsECDHE; the uncompressed point format is 0.
unfoldable pub any_curve : Fips → Option Config → List ℕ → Bool
any_curve fips c [] = false
any_curve fips c (x ∷ xs) = if supports_curve fips c x then true else any_curve fips c xs

-- supportsECDHE.
unfoldable pub supports_ecdhe : Fips → Option Config → List ℕ → List ℕ → Bool
supports_ecdhe fips c curves points =
    any_curve fips c curves && (contains points 0 || (length points == 0))

abbrev pub h2 : List ℕ
h2 = b'h' ∷ b'2' ∷ []

abbrev pub http11 : List ℕ
http11 = b'h' ∷ b't' ∷ b't' ∷ b'p' ∷ b'/' ∷ b'1' ∷ b'.' ∷ b'1' ∷ []

-- The inner loop of negotiateALPN: whether the client has the protocol, and http11fallback.
unfoldable pub offer : List ℕ → List (List ℕ) → Bool → Bool × Bool
offer s [] fallback = (false, fallback)
offer s (c ∷ cs) fallback =
    let rest = offer s cs (if bytes_eq s h2 && bytes_eq c http11 then true else fallback) in
    if bytes_eq s c then (true, fallback) else rest

-- The outer loop, and what follows it; `none` is the error.
unfoldable pub offers : List (List ℕ) → List (List ℕ) → Bool → Option (List ℕ)
offers [] clients fallback = if fallback then some [] else none
offers (s ∷ ss) clients fallback =
    let rest = offers ss clients (offer s clients fallback).1 in
    if (offer s clients fallback).0 then some s else rest

-- negotiateALPN.
unfoldable pub negotiate_alpn : List (List ℕ) → List (List ℕ) → Option (List ℕ)
negotiate_alpn server client =
    if (length server == 0) || (length client == 0) then some [] else offers server client false

-- A cipherSuite with the flags that cipherSuiteOk reads.
pub record CipherSuite : Type 0 where
  pub id : ℕ
  pub ecdhe : Bool
  pub ec_sign : Bool
  pub tls12 : Bool

-- cipherSuiteByID: the loop over the table of suites.
unfoldable pub cipher_suite_by_id : List CipherSuite → ℕ → Option CipherSuite
cipher_suite_by_id [] id = none
cipher_suite_by_id (s ∷ ss) id =
    let rest = cipher_suite_by_id ss id in if s.id == id then some s else rest

-- selectCipherSuite, over the table.
unfoldable pub select_cipher_suite :
    List CipherSuite → List ℕ → List ℕ → (CipherSuite → Bool) → Option CipherSuite
select_cipher_suite table [] supported ok = none
select_cipher_suite table (id ∷ ids) supported ok =
    let rest = select_cipher_suite table ids supported ok in
    elim (cipher_suite_by_id table id) [
      | none ↦ rest
      | some candidate ↦ if ok candidate && contains supported id then some candidate else rest
    ]

-- The fields of serverHandshakeState that cipherSuiteOk reads.
pub record ServerState : Type 0 where
  pub vers : ℕ
  pub ecdhe_ok : Bool
  pub ec_sign_ok : Bool
  pub rsa_sign_ok : Bool
  pub rsa_decrypt_ok : Bool

-- cipherSuiteOk.
unfoldable pub cipher_suite_ok : ServerState → CipherSuite → Bool
cipher_suite_ok hs s =
    let old = ltb hs.vers version_tls12 && s.tls12 in
    if s.ecdhe
    then if not hs.ecdhe_ok
      then false
      else if s.ec_sign
      then (if not hs.ec_sign_ok then false else not old)
      else if not hs.rsa_sign_ok
      then false
      else not old
    else if not hs.rsa_decrypt_ok
    then false
    else not old

-- The preference list of pickCipherSuite: the suites in order that are configured.
unfoldable pub preference_list : List ℕ → List ℕ → List ℕ
preference_list [] configured = []
preference_list (id ∷ ids) configured =
    let rest = preference_list ids configured in if contains configured id then id ∷ rest else rest

-- How pickCipherSuite ends: a suite, or the alert that it sends.
pub data Picked : Type 0 where
  picked : CipherSuite → Picked
  handshake_failure : Picked
  inappropriate_fallback : Picked

abbrev pub fallback_scsv : ℕ
fallback_scsv = 0x5600

-- pickCipherSuite, on the order of preference that the hardware decides.
unfoldable pub pick_cipher_suite :
    Fips → Option Config → List CipherSuite → ServerState → List ℕ → List ℕ → ℕ → List ℕ → Picked
pick_cipher_suite fips c table hs order configured client_vers client_suites =
    elim (select_cipher_suite table (preference_list order configured) client_suites
      (cipher_suite_ok hs)) [
        | none ↦ handshake_failure
        | some s ↦
            if contains client_suites fallback_scsv
              && ltb client_vers (max_supported_version fips c false)
            then inappropriate_fallback
            else picked s
      ]
