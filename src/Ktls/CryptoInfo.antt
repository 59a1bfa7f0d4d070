-- ===== src/Ktls/CryptoInfo.antt =====
-- The option values of ktls_cipher_linux.go: the kTLSCryptoInfo structs, and the three functions
-- that build one, check its parts and hand it to the kernel.
pub mod Layout
pub mod Image
use goktls.Base.{
  ℕ, ◌+◌, ◌-◌, ◌/◌, ◌%◌, Bool, true, false, not, List, [], ◌∷◌, ◌++◌, Option, none, some, ◌==◌,
  if◌then◌else◌, length, take, drop, replicate,
}
use goktls.Ktls.Socket.{
  Call, sockopt_string, History, Kernel, sol_tls, ulp_call, perform, controlled,
}
use goktls.Protocol.{version_tls12}

-- A kTLSCryptoInfoAESGCM128, kTLSCryptoInfoAESGCM256 or kTLSCryptoInfoCHACHA20POLY1305; the sizes
-- of the byte arrays differ between the three.
pub record CryptoInfo : Type 0 where
  pub version : ℕ
  pub cipher_type : ℕ
  pub iv : List ℕ
  pub key : List ℕ
  pub salt : List ℕ
  pub rec_seq : List ℕ

-- copy(dst[:], src) into a zeroed array of n bytes.
abbrev pub copy_into : ℕ → List ℕ → List ℕ
copy_into n src = take n src ++ replicate (n - length src) 0

-- A value in memory, with the alignment of its type: 2 for a uint16, 1 for an array of bytes, and for
-- a struct the largest of its fields', as the language's specification has it.
pub record Field : Type 0 where
  pub align : ℕ
  pub bytes : List ℕ

-- Up to the next multiple of an alignment.
unfoldable pub pad_to : ℕ → List ℕ → List ℕ
pad_to align xs = xs ++ replicate ((align - length xs % align) % align) 0

-- Each field behind the ones before it, where its alignment allows.
unfoldable pub lay_out : List ℕ → List Field → List ℕ
lay_out before [] = before
lay_out before (f ∷ fs) = lay_out (pad_to f.align before ++ f.bytes) fs

-- A struct: its size is a multiple of its alignment, which is the largest of its fields'.
unfoldable pub struct : ℕ → List Field → Field
struct align fields = record { align = align; bytes = pad_to align (lay_out [] fields) }

abbrev array_of_bytes : List ℕ → Field
array_of_bytes xs = record { align = 1; bytes = xs }

-- A uint16, by how the machine stores it.
abbrev uint16_field : (ℕ → ℕ × ℕ) → ℕ → Field
uint16_field native v = record { align = 2; bytes = (native v).0 ∷ (native v).1 ∷ [] }

-- The memory of the struct, whose field `info` is a struct too.
unfoldable pub image : (ℕ → ℕ × ℕ) → CryptoInfo → List ℕ
image native c =
    let info = struct 2 (uint16_field native c.version ∷ uint16_field native c.cipher_type ∷ []) in
    let whole = struct 2 (
      info
      ∷ array_of_bytes c.iv
      ∷ array_of_bytes c.key
      ∷ array_of_bytes c.salt
      ∷ array_of_bytes c.rec_seq
      ∷ []) in
    whole.bytes

pub data Error : Type 0 where
  wrong_key_length : Error
  wrong_iv_length : Error
  wrong_seq_length : Error
  wrong_info_size : Error
  errno : ℕ → Error

abbrev pub lift_errno : History × Option ℕ → History × Option Error
lift_errno (h, none) = (h, none)
lift_errno (h, some e) = (h, some (errno e))

abbrev pub cipher_aes_gcm_128 : ℕ
cipher_aes_gcm_128 = 51

abbrev pub cipher_aes_gcm_256 : ℕ
cipher_aes_gcm_256 = 52

abbrev pub cipher_chacha20_poly1305 : ℕ
cipher_chacha20_poly1305 = 54

-- The length checks of the two AES-GCM functions: salt of 4 bytes, iv of 8, sequence number of 8.
abbrev gcm_lengths : ℕ → ℕ → List ℕ → List ℕ → List ℕ → Option Error
gcm_lengths key_size version key iv seq =
    if not (length key == key_size)
    then some wrong_key_length
    else if version == version_tls12
    then (if not (length iv == 4)
        then some wrong_iv_length
        else if not (length seq == 8)
        then some wrong_seq_length
        else none)
    else if not (length iv == 12)
    then some wrong_iv_length
    else if not (length seq == 8)
    then some wrong_seq_length
    else none

abbrev pub gcm_info : ℕ → ℕ → ℕ → List ℕ → List ℕ → List ℕ → CryptoInfo
gcm_info cipher_type key_size version key iv seq = record {
  version = version;
  cipher_type = cipher_type;
  iv = copy_into 8 (drop 4 iv);
  key = copy_into key_size key;
  salt = copy_into 4 (take 4 iv);
  rec_seq = copy_into 8 seq;
}

-- The closure of ktlsEnableAES128GCM: an error of TCP_ULP is logged and then overwritten.
abbrev set_ignoring_ulp : Kernel → ℕ → Bool → List ℕ → History → History × Option ℕ
set_ignoring_ulp k opt skip info h =
    if skip
    then perform k (sockopt_string sol_tls opt info) h
    else perform k (sockopt_string sol_tls opt info) (perform k ulp_call h).0

-- The closure of the two other functions: an error of TCP_ULP ends it.
abbrev set_after_ulp : Kernel → ℕ → Bool → List ℕ → History → History × Option ℕ
set_after_ulp k opt skip info h =
    if skip then perform k (sockopt_string sol_tls opt info) h else elim (k.setsockopt h ulp_call) [
      | some e ↦ perform k ulp_call h
      | none ↦ perform k (sockopt_string sol_tls opt info) (perform k ulp_call h).0
    ]

-- The arguments that the enabling functions share: the version, the option TLS_TX or TLS_RX,
-- whether TCP_ULP is set already, the key, the iv and the sequence number.
pub record Request : Type 0 where
  pub version : ℕ
  pub opt : ℕ
  pub skip : Bool
  pub key : List ℕ
  pub iv : List ℕ
  pub seq : List ℕ

abbrev pub Enable : Type 0
Enable = Kernel → Request → History → History × Option Error

unfoldable pub enable_aes_128_gcm : Enable
unfolding image
enable_aes_128_gcm k r h = elim (gcm_lengths 16 r.version r.key r.iv r.seq) [
  | some e ↦ (h, some e)
  | none ↦
      let info =
        image k.native_uint16 (gcm_info cipher_aes_gcm_128 16 r.version r.key r.iv r.seq) in
      if not (length info == 2 + 2 + 8 + 16 + 4 + 8)
      then (h, some wrong_info_size)
      else lift_errno (controlled k (set_ignoring_ulp k r.opt r.skip info) h)
]

pub enable_aes_256_gcm : Enable
unfolding image
enable_aes_256_gcm k r h = elim (gcm_lengths 32 r.version r.key r.iv r.seq) [
  | some e ↦ (h, some e)
  | none ↦
      let info =
        image k.native_uint16 (gcm_info cipher_aes_gcm_256 32 r.version r.key r.iv r.seq) in
      if not (length info == 2 + 2 + 8 + 32 + 4 + 8)
      then (h, some wrong_info_size)
      else lift_errno (controlled k (set_after_ulp k r.opt r.skip info) h)
]

abbrev pub chacha20_info : ℕ → List ℕ → List ℕ → List ℕ → CryptoInfo
chacha20_info version key iv seq = record {
  version = version;
  cipher_type = cipher_chacha20_poly1305;
  iv = copy_into 12 iv;
  key = copy_into 32 key;
  salt = [];
  rec_seq = copy_into 8 seq;
}

abbrev chacha20_lengths : List ℕ → List ℕ → List ℕ → Option Error
chacha20_lengths key iv seq =
    if not (length key == 32)
    then some wrong_key_length
    else if not (length iv == 12)
    then some wrong_iv_length
    else if not (length seq == 8)
    then some wrong_seq_length
    else none

pub enable_chacha20_poly1305 : Enable
unfolding image
enable_chacha20_poly1305 k r h = elim (chacha20_lengths r.key r.iv r.seq) [
  | some e ↦ (h, some e)
  | none ↦
      let info = image k.native_uint16 (chacha20_info r.version r.key r.iv r.seq) in
      if not (length info == 2 + 2 + 12 + 32 + 0 + 8)
      then (h, some wrong_info_size)
      else lift_errno (controlled k (set_after_ulp k r.opt r.skip info) h)
]
