-- ===== src/Ktls/Features/Startup.antt =====
-- What init() makes of the release that uname gives.
use goktls.Base.{
  ℕ, ◌≤◌, ◌<◌, ◌⊎◌, ◌↔◌, refl, arith, ◌≡◌, true, false, List, ◌∷◌, [], ◌++◌, some, ap, contains,
}
use goktls.Ktls.Features.{Features, System, Started, ready, features_of, init, after_parse}
use goktls.Ktls.Release.Parsing.{Lacks, Within, parse_release-version, parse_release-panic}
use goktls.Ktls.Release.{ℤ, atoi}

-- A system with the tls module, kernel TLS enabled and the given buffer of uname.
abbrev pub running : List ℕ → System
running buf = record { module_loaded = true; enabled = true; uname = some buf }

-- The kernel's version is at least c.d.
abbrev pub Since : ℕ → ℕ → ℕ → ℕ → Type 0
Since a b c d = (c < a) ⊎ ((a ≡ c) × (d ≤ b))

-- The first kernel with each feature.
pub record Offers (a b : ℕ) (f : Features) : Type 0 where
  pub support : f.support ≡ true
  pub tx : (f.tx ≡ true) ↔ Since a b 4 13
  pub aes_gcm_128 : (f.aes_gcm_128 ≡ true) ↔ Since a b 4 13
  pub rx : (f.rx ≡ true) ↔ Since a b 4 17
  pub aes_gcm_256 : (f.aes_gcm_256 ≡ true) ↔ Since a b 5 1
  pub tls13_tx : (f.tls13_tx ≡ true) ↔ Since a b 5 1
  pub chacha20_poly1305 : (f.chacha20_poly1305 ≡ true) ↔ Since a b 5 11
  pub zerocopy : (f.zerocopy ≡ true) ↔ Since a b 5 19
  pub tls13_rx : (f.tls13_rx ≡ true) ↔ Since a b 6 0
  pub no_pad : (f.no_pad ≡ true) ↔ Since a b 6 0

features_of-Offers : (a b : ℕ) → Offers a b (features_of (ℤ.pos a) (ℤ.pos b))
unfolding features_of
features_of-Offers a b = record {
  support = refl;
  tx = ((λ e. ground arith), λ e. ground arith);
  aes_gcm_128 = ((λ e. ground arith), λ e. ground arith);
  rx = ((λ e. ground arith), λ e. ground arith);
  aes_gcm_256 = ((λ e. ground arith), λ e. ground arith);
  tls13_tx = ((λ e. ground arith), λ e. ground arith);
  chacha20_poly1305 = ((λ e. ground arith), λ e. ground arith);
  zerocopy = ((λ e. ground arith), λ e. ground arith);
  tls13_rx = ((λ e. ground arith), λ e. ground arith);
  no_pad = ((λ e. ground arith), λ e. ground arith);
}

-- For a release major.minor.rest in which the first byte of the minor number neither occurs in the
-- major number nor is a dot, both numbers are accepted by Atoi, are not negative and have no dot in
-- them, and no NUL stands before the padding, init() ends without a panic and sets kTLSSupport, and
-- the other features by the version major.minor alone: TX and AES-128-GCM from 4.13 on, RX from 4.17
-- on, AES-256-GCM and TLS 1.3 TX from 5.1 on, ChaCha20-Poly1305 from 5.11 on, zero-copy from 5.19
-- on, TLS 1.3 RX and no padding from 6.0 on, and each of them not before.
pub init-version :
    (major : List ℕ) (first : ℕ) (minor rest pad : List ℕ) (a b : ℕ)
    → Lacks b'.' major
    → contains (major ++ b'.' ∷ []) first ≡ false
    → Lacks b'.' (first ∷ minor)
    → Lacks 0 (major ++ b'.' ∷ (first ∷ minor ++ b'.' ∷ rest))
    → atoi major ≡ some (ℤ.pos a)
    → atoi (first ∷ minor) ≡ some (ℤ.pos b)
    → (f : Features) × (init (running ((major ++ b'.' ∷ (first ∷ minor ++ b'.' ∷ rest)) ++ 0 ∷ pad))
        ≡ ready f)
      × Offers a b f
unfolding init
init-version major first minor rest pad a b dot fresh dot' nul ha hb = (
  features_of (ℤ.pos a) (ℤ.pos b),
  ap after_parse (
      parse_release-version major first minor rest pad (ℤ.pos a) (ℤ.pos b) dot fresh dot' nul ha
        hb),
  features_of-Offers a b,
)

-- init() panics on a release major.minor.patch whose minor number has only bytes of its major
-- number and whose patch level has no dot in it, with no NUL before the padding.
pub init-panic :
    (major minor patch pad : List ℕ)
    → Lacks b'.' major
    → Within major minor
    → Lacks b'.' patch
    → Lacks 0 (major ++ b'.' ∷ (minor ++ b'.' ∷ patch))
    → init (running ((major ++ b'.' ∷ (minor ++ b'.' ∷ patch)) ++ 0 ∷ pad)) ≡ Started.panic
unfolding init
init-panic major minor patch pad dot within dot' nul =
    ap after_parse (parse_release-panic major minor patch pad dot within dot' nul)
