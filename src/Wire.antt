-- ===== src/Wire.antt =====
-- The interface of golang.org/x/crypto/cryptobyte that handshake_messages.go uses: what its Builder
-- appends and what its String reads. The package is a parameter; IsLawful is its documentation.
pub mod Build
pub mod Lists
pub mod Extensions
use goktls.Base.{
  ℕ, ◌+◌, ◌<◌, arith, ◌≡◌, List, ◌++◌, Option, none, some, ltb, if◌then◌else◌, length,
}

-- The widths of AddUint8 to AddUint32, and of the length prefixes.
pub data Width : Type 0 where
  w8 w16 w24 w32 : Width

abbrev pub size : Width → ℕ
size w8 = 1
size w16 = 2
size w24 = 3
size w32 = 4

pub size_pos : (w : Width) → 0 < size w
size_pos w8 = omega arith
size_pos w16 = omega arith
size_pos w24 = omega arith
size_pos w32 = omega arith

abbrev pub limit : Width → ℕ
limit w8 = 256
limit w16 = 65536
limit w24 = 16777216
limit w32 = 4294967296

-- `uint` is what AddUintN appends; `prefixed` is what AddUintNLengthPrefixed appends where its
-- function has added the given bytes, `none` the error of bytes that are too many. A read gives the
-- value and the rest, or `none` for false.
pub record CryptoByte : Type 0 where
  pub uint : Width → ℕ → List ℕ
  pub prefixed : Width → List ℕ → Option (List ℕ)
  pub read_uint : Width → List ℕ → Option (ℕ × List ℕ)
  pub read_prefixed : Width → List ℕ → Option (List ℕ × List ℕ)
  pub read_bytes : ℕ → List ℕ → Option (List ℕ × List ℕ)
  pub skip : ℕ → List ℕ → Option (List ℕ)

pub record IsLawful (cb : CryptoByte) : Type 0 where
  pub length-uint : (w : Width) (n : ℕ) → length (cb.uint w n) ≡ size w
  pub read_uint-uint :
      (w : Width) (n : ℕ) (rest : List ℕ)
      → n < limit w
      → cb.read_uint w (cb.uint w n ++ rest) ≡ some (n, rest)
  pub prefixed_lem :
      (w : Width) (body : List ℕ)
      → cb.prefixed w body
        ≡ (if ltb (length body) (limit w) then some (cb.uint w (length body) ++ body) else none)
  pub read_prefixed-prefixed :
      (w : Width) (body s rest : List ℕ)
      → cb.prefixed w body ≡ some s
      → cb.read_prefixed w (s ++ rest) ≡ some (body, rest)
  pub read_bytes-append :
      (n : ℕ) (xs rest : List ℕ) → length xs ≡ n → cb.read_bytes n (xs ++ rest) ≡ some (xs, rest)
  pub skip-append : (n : ℕ) (xs rest : List ℕ) → length xs ≡ n → cb.skip n (xs ++ rest) ≡ some rest
