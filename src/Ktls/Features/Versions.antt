-- ===== src/Ktls/Features/Versions.antt =====
-- How the supported features depend on the kernel's version.
use goktls.Base.{ℕ, ◌≤◌, ◌<◌, true, ◌≡◌, ◌⊎◌, arith}
use goktls.Ktls.Features.{Features, features_of}
use goktls.Ktls.Release.{ℤ}

-- Everything that the first supports, the second supports too.
pub record Includes (f g : Features) : Type 0 where
  pub support : f.support ≡ true → g.support ≡ true
  pub tx : f.tx ≡ true → g.tx ≡ true
  pub rx : f.rx ≡ true → g.rx ≡ true
  pub aes_gcm_128 : f.aes_gcm_128 ≡ true → g.aes_gcm_128 ≡ true
  pub aes_gcm_256 : f.aes_gcm_256 ≡ true → g.aes_gcm_256 ≡ true
  pub chacha20_poly1305 : f.chacha20_poly1305 ≡ true → g.chacha20_poly1305 ≡ true
  pub tls13_tx : f.tls13_tx ≡ true → g.tls13_tx ≡ true
  pub tls13_rx : f.tls13_rx ≡ true → g.tls13_rx ≡ true
  pub zerocopy : f.zerocopy ≡ true → g.zerocopy ≡ true
  pub no_pad : f.no_pad ≡ true → g.no_pad ≡ true

-- A later kernel, of a greater major number or of the same and no smaller a minor number, supports
-- all that an earlier one supports.
pub features_of_mono :
    (a b c d : ℕ)
    → (a < c) ⊎ ((a ≡ c) × (b ≤ d))
    → Includes (features_of (ℤ.pos a) (ℤ.pos b)) (features_of (ℤ.pos c) (ℤ.pos d))
unfolding features_of
features_of_mono a b c d h = record {
  support = λ e. ground arith;
  tx = λ e. ground arith;
  rx = λ e. ground arith;
  aes_gcm_128 = λ e. ground arith;
  aes_gcm_256 = λ e. ground arith;
  chacha20_poly1305 = λ e. ground arith;
  tls13_tx = λ e. ground arith;
  tls13_rx = λ e. ground arith;
  zerocopy = λ e. ground arith;
  no_pad = λ e. ground arith;
}

-- RX comes with TX, TLS 1.3 TX with TX, TLS 1.3 RX with RX, ChaCha20-Poly1305 with TLS 1.3 TX, and
-- the no-padding option exactly with TLS 1.3 RX.
pub features_of-IsCoherent :
    (major minor : ℤ)
    → let f = features_of major minor in
      (f.rx ≡ true → f.tx ≡ true)
      × (f.tls13_tx ≡ true → f.tx ≡ true)
      × (f.tls13_rx ≡ true → f.rx ≡ true)
      × (f.chacha20_poly1305 ≡ true → f.tls13_tx ≡ true)
      × (f.no_pad ≡ f.tls13_rx)
unfolding features_of
features_of-IsCoherent (ℤ.pos a) (ℤ.pos b) = ground arith
features_of-IsCoherent (ℤ.pos a) (ℤ.negsuc b) = ground arith
features_of-IsCoherent (ℤ.negsuc a) minor = ground arith
