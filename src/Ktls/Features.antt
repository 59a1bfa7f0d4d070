-- ===== src/Ktls/Features.antt =====
-- What the kernel supports: the package variables of ktls_linux.go and init(), which sets them.
pub mod Versions
pub mod Startup
use goktls.Base.{
  ℕ, Bool, true, false, ◌&&◌, ◌||◌, List, Option, none, some, leb, ltb, ◌==◌, if◌then◌else◌,
}
use goktls.Ktls.Release.{ℤ, Parsed, parse_release}

pub record Features : Type 0 where
  pub support : Bool
  pub tx : Bool
  pub rx : Bool
  pub aes_gcm_128 : Bool
  pub aes_gcm_256 : Bool
  pub chacha20_poly1305 : Bool
  pub tls13_tx : Bool
  pub tls13_rx : Bool
  pub zerocopy : Bool
  pub no_pad : Bool

-- The zero values that the variables start with.
abbrev pub no_features : Features
no_features = record {
  support = false;
  tx = false;
  rx = false;
  aes_gcm_128 = false;
  aes_gcm_256 = false;
  chacha20_poly1305 = false;
  tls13_tx = false;
  tls13_rx = false;
  zerocopy = false;
  no_pad = false;
}

abbrev int_eq : ℤ → ℕ → Bool
int_eq (ℤ.pos n) k = n == k
int_eq (ℤ.negsuc n) k = false

abbrev int_ge : ℤ → ℕ → Bool
int_ge (ℤ.pos n) k = leb k n
int_ge (ℤ.negsuc n) k = false

abbrev int_gt : ℤ → ℕ → Bool
int_gt (ℤ.pos n) k = ltb k n
int_gt (ℤ.negsuc n) k = false

-- `(major == a && minor >= b) || major > a`.
abbrev from_version : ℤ → ℤ → ℕ → ℕ → Bool
from_version major minor a b = (int_eq major a && int_ge minor b) || int_gt major a

-- The version tests of init(), with kTLSSupport already true.
unfoldable pub features_of : ℤ → ℤ → Features
features_of major minor = record {
  support = true;
  tx = from_version major minor 4 13;
  rx = from_version major minor 4 17;
  aes_gcm_128 = from_version major minor 4 13;
  aes_gcm_256 = from_version major minor 5 1;
  chacha20_poly1305 = from_version major minor 5 11;
  tls13_tx = from_version major minor 5 1;
  tls13_rx = int_gt major 5;
  zerocopy = from_version major minor 5 19;
  no_pad = int_gt major 5;
}

-- What init() reads of the system: whether /sys/module/tls is there, the variable kTLSEnabled,
-- and the release of uname, `none` where the call fails.
pub record System : Type 0 where
  pub module_loaded : Bool
  pub enabled : Bool
  pub uname : Option (List ℕ)

pub data Started : Type 0 where
  panic : Started
  ready : Features → Started

abbrev supported : Features
supported = record no_features { support = true }

after_parse : Parsed → Started
unfolding features_of
after_parse Parsed.panic = Started.panic
after_parse Parsed.bad_number = ready supported
after_parse (Parsed.version major minor) = ready (features_of major minor)

after_uname : Option (List ℕ) → Started
unfolding after_parse
after_uname none = ready supported
after_uname (some release) = after_parse (parse_release release)

pub init : System → Started
unfolding after_uname
init s = if s.module_loaded && s.enabled then after_uname s.uname else ready no_features
