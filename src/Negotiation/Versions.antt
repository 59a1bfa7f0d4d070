-- ===== src/Negotiation/Versions.antt =====
-- The version that the two sides agree on.
use goktls.Base.{
  ℕ, ◌≤◌, ◌≡◌, ◌⊎◌, ap, refl, Bool, true, false, List, [], ◌∷◌, ◌++◌, Option, none, some, All,
  arith, contains, inl, inr, Bool-cases,
}
use goktls.Negotiation.{
  Fips, Config, supported_versions, keep_versions, skipped, max_supported_version, first_mutual,
  mutual_version,
}

-- The first version of the peer that is supported.
abbrev pub IsFirst : List ℕ → List ℕ → ℕ → Type 0
IsFirst supported peer v =
    (before : List ℕ) × (after : List ℕ) × (peer ≡ before ++ (v ∷ after))
    × (contains supported v ≡ true)
    × All (λ p. contains supported p ≡ false) before

first_mutual_result :
    (supported peer : List ℕ)
    → ((v : ℕ) × (first_mutual supported peer ≡ some v) × IsFirst supported peer v)
      ⊎ ((first_mutual supported peer ≡ none) × All (λ p. contains supported p ≡ false) peer)
unfolding first_mutual
first_mutual_result supported [] = inr (refl, tt)
first_mutual_result supported (p ∷ ps) = elim (Bool-cases (contains supported p)) [
  | inl t ↦ inl (p, rw (first_mutual, t), ([], ps, refl, t, tt))
  | inr f ↦ elim (first_mutual_result supported ps) [
    | inl (v, found, (before, after, split, good, bad)) ↦
        inl (v, rw (first_mutual, f) found, (p ∷ before, after, ap (◌∷◌ p) split, good, (f, bad)))
    | inr (missing, bad) ↦ inr (rw (first_mutual, f) missing, (f, bad))
  ]
]

-- Whatever the configurations, mutualVersion gives the first of the peer's versions that is
-- supported, and fails only if none of them is.
pub mutual_version-IsFirst :
    (fips : Fips) (c : Option Config) (is_client : Bool) (peer : List ℕ)
    → ((v : ℕ) × (mutual_version fips c is_client peer ≡ some v)
        × IsFirst (supported_versions fips c is_client) peer v)
      ⊎ ((mutual_version fips c is_client peer ≡ none)
          × All (λ p. contains (supported_versions fips c is_client) p ≡ false) peer)
unfolding mutual_version
mutual_version-IsFirst fips c is_client peer =
    first_mutual_result (supported_versions fips c is_client) peer

-- maxSupportedVersion is the greatest of the supported versions; and none of them is one that a test
-- of the loop skips.
pub max_supported_version_bounds :
    (fips : Fips) (c : Option Config) (is_client : Bool) (v : ℕ)
    → contains (supported_versions fips c is_client) v ≡ true
    → (v ≤ max_supported_version fips c is_client)
      × (contains (supported_versions fips c is_client) (max_supported_version fips c is_client)
          ≡ true)
      × (skipped fips c is_client v ≡ false)
unfolding max_supported_version supported_versions keep_versions
max_supported_version_bounds fips c is_client v h = (ground arith, ground arith, ground arith)
