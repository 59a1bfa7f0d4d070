-- ===== src/Tests/OfNegotiation.antt =====
-- Tests and examples of the negotiation.
use goktls.Base.{
  ℕ, ◌≤◌, ◌≡◌, ◌⊎◌, refl, true, false, List, [], ◌∷◌, Option, none, some, All, contains,
  if◌then◌else◌,
}
use goktls.Negotiation.Protocols
use goktls.Negotiation.Protocols.{has_protocol, falls_back, negotiate_alpn-IsFirst}
use goktls.Negotiation.Suites.{pick_cipher_suite-picked}
use goktls.Negotiation.Versions
use goktls.Negotiation.Versions.{mutual_version-IsFirst, max_supported_version_bounds}
use goktls.Negotiation.{
  Config, Fips, CipherSuite, ServerState, supported_versions, keep_versions, skipped,
  max_supported_version, mutual_version, h2, http11, negotiate_alpn, picked, pick_cipher_suite,
  select_cipher_suite, cipher_suite_by_id, cipher_suite_ok, preference_list, fallback_scsv,
}
use goktls.Protocol.{version_tls12}

abbrev no_fips : Fips
no_fips = record { needed = false; min_version = λ c. 0; max_version = λ c. 0; curves = λ c. [] }

abbrev from_tls12 : Option Config
from_tls12 = some (record { min_version = 0x303; max_version = 0; curves = [] })

mutual_version-IsFirst_example :
    ((v : ℕ) × (mutual_version no_fips from_tls12 false (0x305 ∷ 0x303 ∷ 0x304 ∷ []) ≡ some v)
      × Versions.IsFirst
          (supported_versions no_fips from_tls12 false)
          (0x305 ∷ 0x303 ∷ 0x304 ∷ [])
          v)
    ⊎ ((mutual_version no_fips from_tls12 false (0x305 ∷ 0x303 ∷ 0x304 ∷ []) ≡ none)
        × All
            (λ p. contains (supported_versions no_fips from_tls12 false) p ≡ false)
            (0x305 ∷ 0x303 ∷ 0x304 ∷ []))
mutual_version-IsFirst_example =
    mutual_version-IsFirst no_fips from_tls12 false (0x305 ∷ 0x303 ∷ 0x304 ∷ [])

tls12_is_supported : contains (supported_versions no_fips from_tls12 false) 0x303 ≡ true
unfolding supported_versions keep_versions skipped
tls12_is_supported = refl

max_supported_version_bounds_example :
    (0x303 ≤ max_supported_version no_fips from_tls12 false)
    × (contains
          (supported_versions no_fips from_tls12 false)
          (max_supported_version no_fips from_tls12 false)
        ≡ true)
    × (skipped no_fips from_tls12 false 0x303 ≡ false)
max_supported_version_bounds_example =
    max_supported_version_bounds no_fips from_tls12 false 0x303 tls12_is_supported

negotiate_alpn-IsFirst_example :
    ((p : List ℕ) × (negotiate_alpn (h2 ∷ []) (http11 ∷ []) ≡ some p)
      × Protocols.IsFirst (h2 ∷ []) (http11 ∷ []) p)
    ⊎ (All (λ p. has_protocol (http11 ∷ []) p ≡ false) (h2 ∷ [])
        × (negotiate_alpn (h2 ∷ []) (http11 ∷ [])
            ≡ (if falls_back (h2 ∷ []) (http11 ∷ []) then some [] else none)))
negotiate_alpn-IsFirst_example = negotiate_alpn-IsFirst h2 [] http11 []

-- TLS_ECDHE_RSA_WITH_AES_128_GCM_SHA256.
abbrev suite : CipherSuite
suite = record { id = 0xc02f; ecdhe = true; ec_sign = false; tls12 = true }

abbrev server : ServerState
server = record {
  vers = 0x303;
  ecdhe_ok = true;
  ec_sign_ok = false;
  rsa_sign_ok = true;
  rsa_decrypt_ok = false;
}

suite_is_picked :
    pick_cipher_suite no_fips from_tls12
      (suite ∷ [])
      server
      (0xc02f ∷ [])
      (0xc02f ∷ [])
      0x303
      (0xc02b ∷ 0xc02f ∷ [])
    ≡ picked suite
unfolding pick_cipher_suite select_cipher_suite cipher_suite_by_id cipher_suite_ok preference_list
suite_is_picked = refl

pick_cipher_suite-picked_example :
    (contains (0xc02f ∷ []) suite.id ≡ true)
    × (contains (0xc02f ∷ []) suite.id ≡ true)
    × (contains (0xc02b ∷ 0xc02f ∷ []) suite.id ≡ true)
    × (suite.ecdhe ≡ true → server.ecdhe_ok ≡ true)
    × (suite.ecdhe ≡ true → suite.ec_sign ≡ true → server.ec_sign_ok ≡ true)
    × (suite.ecdhe ≡ true → suite.ec_sign ≡ false → server.rsa_sign_ok ≡ true)
    × (suite.ecdhe ≡ false → server.rsa_decrypt_ok ≡ true)
    × (suite.tls12 ≡ true → version_tls12 ≤ server.vers)
    × (contains (0xc02b ∷ 0xc02f ∷ []) fallback_scsv ≡ true
        → max_supported_version no_fips from_tls12 false ≤ 0x303)
pick_cipher_suite-picked_example =
    pick_cipher_suite-picked no_fips from_tls12 (suite ∷ []) server (0xc02f ∷ []) (0xc02f ∷ [])
      0x303 (0xc02b ∷ 0xc02f ∷ []) suite_is_picked
