-- ===== src/Cipher.antt =====
-- The cipher of one direction: the values that halfConn.cipher holds in conn.go, of the interface
-- types cipher.Stream, aead and cbcMode, and kTLSCipher of ktls.go; the two AEADs of
-- cipher_suites.go with their nonces. A handle stands for the keyed object of the library and
-- its state, which the record layer calls and never looks into.
use goktls.Base.{ℕ, Bool, true, false, List, [], ◌∷◌, ◌++◌, Option, take, drop}
use Prim.Native.Nat.{bit_xor}

-- prefixNonceAEAD and xorNonceAEAD.
pub data NonceForm : Type 0 where
  prefix_nonce : NonceForm
  xor_nonce : NonceForm

-- `nonce` is the field nonce or nonceMask, of 12 bytes.
pub record Aead : Type 0 where
  pub form : NonceForm
  pub nonce : List ℕ
  pub handle : ℕ

pub record Cbc : Type 0 where
  pub handle : ℕ
  pub block_size : ℕ

pub data Cipher : Type 0 where
  absent : Cipher
  stream : ℕ → Cipher
  aead : Aead → Cipher
  cbc : Cbc → Cipher
  ktls : Cipher

abbrev pub is_ktls : Cipher → Bool
is_ktls ktls = true
is_ktls absent = false
is_ktls (stream h) = false
is_ktls (aead a) = false
is_ktls (cbc c) = false

-- The methods explicitNonceLen of the two.
abbrev pub aead_explicit_nonce_len : NonceForm → ℕ
aead_explicit_nonce_len prefix_nonce = 8
aead_explicit_nonce_len xor_nonce = 0

-- `for i, b := range nonce { f.nonceMask[4+i] ^= b }`, on the bytes from the fifth on. (The same
-- loop runs again after the call and restores the mask.)
unfoldable pub xor_bytes : List ℕ → List ℕ → List ℕ
xor_bytes mask [] = mask
xor_bytes [] (b ∷ bs) = []
xor_bytes (m ∷ mask) (b ∷ bs) = bit_xor m b ∷ xor_bytes mask bs

-- The nonce that the inner AEAD gets from Seal and Open: the prefix with `nonce` copied behind it,
-- or the mask with `nonce` added into it. Both get 8 bytes.
unfoldable pub inner_nonce : Aead → List ℕ → List ℕ
unfolding xor_bytes
inner_nonce a nonce = elim a.form [
  | prefix_nonce ↦ take 4 a.nonce ++ nonce
  | xor_nonce ↦ take 4 a.nonce ++ xor_bytes (drop 4 a.nonce) nonce
]

-- The library's ciphers and MACs, as functions of a handle. A stream and a block mode change their
-- state: they give the next handle too.
pub record Ops : Type 0 where
  pub seal : ℕ → List ℕ → List ℕ → List ℕ → List ℕ
  pub unseal : ℕ → List ℕ → List ℕ → List ℕ → Option (List ℕ)
  pub overhead : ℕ → ℕ
  pub xor_key_stream : ℕ → List ℕ → List ℕ × ℕ
  pub set_iv : ℕ → List ℕ → ℕ
  pub crypt_blocks : ℕ → List ℕ → List ℕ × ℕ
  pub mac : ℕ → List ℕ → List ℕ
  pub mac_size : ℕ → ℕ
