-- ===== src/Negotiation/Suites.antt =====
-- The cipher suite that the server picks.
use goktls.Base.{
  ℕ, ◌≤◌, ◌≡◌, Bool, true, false, ◌&&◌, List, [], ◌∷◌, Option, some, arith, contains, inl, inr,
  Option-cases,
}
use goktls.Negotiation.{
  Fips, Config, CipherSuite, ServerState, cipher_suite_by_id, select_cipher_suite, cipher_suite_ok,
  preference_list, picked, fallback_scsv, pick_cipher_suite, max_supported_version,
}
use goktls.Protocol.{version_tls12}

by_id_id :
    (table : List CipherSuite) (id : ℕ) (s : CipherSuite)
    → cipher_suite_by_id table id ≡ some s
    → s.id ≡ id
unfolding cipher_suite_by_id
by_id_id [] id s h = absurd (cc h)
by_id_id (t ∷ ts) id s h = ground (arith, by_id_id ts id s)

preference_list_subset :
    (order configured : List ℕ) (id : ℕ)
    → contains (preference_list order configured) id ≡ (contains order id && contains configured id)
unfolding preference_list
preference_list_subset [] configured id = ground arith
preference_list_subset (x ∷ xs) configured id =
    ground (arith, preference_list_subset xs configured id)

select_sound :
    (table : List CipherSuite) (ids supported : List ℕ) (ok : CipherSuite → Bool) (s : CipherSuite)
    → select_cipher_suite table ids supported ok ≡ some s
    → (contains ids s.id ≡ true) × (contains supported s.id ≡ true) × (ok s ≡ true)
unfolding select_cipher_suite
select_sound table [] supported ok s h = absurd (cc h)
select_sound table (id ∷ ids) supported ok s h = elim (Option-cases (cipher_suite_by_id table id)) [
  | inl n ↦ ground (arith, n, select_sound table ids supported ok s)
  | inr (k, p) ↦ ground (arith, p, by_id_id table id k p, select_sound table ids supported ok s)
]

picked_found :
    (fips : Fips) (c : Option Config) (table : List CipherSuite) (hs : ServerState)
    (order configured : List ℕ) (client_vers : ℕ) (client_suites : List ℕ) (s : CipherSuite)
    → pick_cipher_suite fips c table hs order configured client_vers client_suites ≡ picked s
    → (select_cipher_suite table
          (preference_list order configured)
          client_suites
          (cipher_suite_ok hs)
        ≡ some s)
      × (contains client_suites fallback_scsv ≡ true
          → max_supported_version fips c false ≤ client_vers)
unfolding pick_cipher_suite
picked_found fips c table hs order configured client_vers client_suites s h =
    (ground arith, λ t. ground arith)

ok_conditions :
    (hs : ServerState) (s : CipherSuite)
    → cipher_suite_ok hs s ≡ true
    → (s.ecdhe ≡ true → hs.ecdhe_ok ≡ true)
      × (s.ecdhe ≡ true → s.ec_sign ≡ true → hs.ec_sign_ok ≡ true)
      × (s.ecdhe ≡ true → s.ec_sign ≡ false → hs.rsa_sign_ok ≡ true)
      × (s.ecdhe ≡ false → hs.rsa_decrypt_ok ≡ true)
      × (s.tls12 ≡ true → version_tls12 ≤ hs.vers)
unfolding cipher_suite_ok
ok_conditions hs s h = (
  (λ a. ground arith),
  (λ a b. ground arith),
  (λ a b. ground arith),
  (λ a. ground arith),
  λ a. ground arith,
)

-- A suite that pickCipherSuite picks is one that the server prefers and has configured and that
-- the client offers; an ECDHE suite needs ecdheOk, and ecSignOk or rsaSignOk by its kind, another
-- rsaDecryptOk; a suite of TLS 1.2 is not picked before that version; and a client that marks a
-- fallback does not offer less than the highest version of the server.
pub pick_cipher_suite-picked :
    (fips : Fips) (c : Option Config) (table : List CipherSuite) (hs : ServerState)
    (order configured : List ℕ) (client_vers : ℕ) (client_suites : List ℕ) {s : CipherSuite}
    → pick_cipher_suite fips c table hs order configured client_vers client_suites ≡ picked s
    → (contains order s.id ≡ true)
      × (contains configured s.id ≡ true)
      × (contains client_suites s.id ≡ true)
      × (s.ecdhe ≡ true → hs.ecdhe_ok ≡ true)
      × (s.ecdhe ≡ true → s.ec_sign ≡ true → hs.ec_sign_ok ≡ true)
      × (s.ecdhe ≡ true → s.ec_sign ≡ false → hs.rsa_sign_ok ≡ true)
      × (s.ecdhe ≡ false → hs.rsa_decrypt_ok ≡ true)
      × (s.tls12 ≡ true → version_tls12 ≤ hs.vers)
      × (contains client_suites fallback_scsv ≡ true
          → max_supported_version fips c false ≤ client_vers)
pick_cipher_suite-picked fips c table hs order configured client_vers client_suites {s} h =
    let (found, falls) =
      picked_found fips c table hs order configured client_vers client_suites s h in
    let (preferred, offered, good) =
      select_sound table (preference_list order configured) client_suites (cipher_suite_ok hs) s
        found in
    let (ecdhe, ec_sign, rsa_sign, rsa, tls12) = ok_conditions hs s good in
    let both = preference_list_subset order configured s.id in
    (
      ground (arith, preferred, both),
      ground (arith, preferred, both),
      offered,
      ecdhe,
      ec_sign,
      rsa_sign,
      rsa,
      tls12,
      falls,
    )
