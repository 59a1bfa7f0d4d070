-- ===== src/Ktls/CryptoInfo/Image.antt =====
-- The bytes of a filled struct.
use goktls.Base.{
  ℕ, zero, suc, ◌+◌, ◌%◌, ◌≡◌, ◌≢◌, refl, ap, List, some, arith, length, take, drop, replicate,
  length-append, length-take,
}
use goktls.Ktls.CryptoInfo.{
  wrong_info_size, Request, CryptoInfo, pad_to, struct, lay_out, copy_into, image, gcm_info,
  chacha20_info, enable_aes_128_gcm, enable_aes_256_gcm, enable_chacha20_poly1305,
}
use goktls.Ktls.Socket.{History, Kernel}

length-replicate : (n : ℕ) (v : ℕ) → length (replicate n v) ≡ n
length-replicate zero v = refl
length-replicate (suc n) v = ap suc (length-replicate n v)

-- What alignment adds: nothing for an array of bytes, and a byte for a uint16 behind an odd number.
length-pad_to_one : (xs : List ℕ) → length (pad_to 1 xs) ≡ length xs
unfolding pad_to
length-pad_to_one xs = simp (length-append, length-replicate) (omega arith)

length-pad_to_two : (xs : List ℕ) → length (pad_to 2 xs) ≡ length xs + length xs % 2
unfolding pad_to
length-pad_to_two xs = simp (length-append, length-replicate) (omega arith)

length-copy_into : (n : ℕ) (src : List ℕ) → length (copy_into n src) ≡ n
length-copy_into n src = simp (length-append, length-replicate, length-take) (omega arith)

length-image :
    (native : ℕ → ℕ × ℕ) (c : CryptoInfo)
    → (4 + length c.iv + length c.key + length c.salt + length c.rec_seq) % 2 ≡ 0
    → length (image native c) ≡ 4 + length c.iv + length c.key + length c.salt + length c.rec_seq
unfolding image struct lay_out
length-image native c even =
    simp (length-pad_to_one, length-pad_to_two, length-append) (omega arith)

length-image_gcm :
    (native : ℕ → ℕ × ℕ) (ct ks v : ℕ) (key iv seq : List ℕ)
    → ks % 2 ≡ 0
    → length (image native (gcm_info ct ks v key iv seq)) ≡ 24 + ks
length-image_gcm native ct ks v key iv seq even =
    let i = length-copy_into 8 (drop 4 iv) in
    let k = length-copy_into ks key in
    let s = length-copy_into 4 (take 4 iv) in
    let r = length-copy_into 8 seq in
    let sizes = length-image native (gcm_info ct ks v key iv seq) (omega (arith, i, k, s, r)) in
    omega (arith, sizes, i, k, s, r)

length-image_chacha20 :
    (native : ℕ → ℕ × ℕ) (v : ℕ) (key iv seq : List ℕ)
    → length (image native (chacha20_info v key iv seq)) ≡ 56
length-image_chacha20 native v key iv seq =
    let i = length-copy_into 12 iv in
    let k = length-copy_into 32 key in
    let r = length-copy_into 8 seq in
    let sizes = length-image native (chacha20_info v key iv seq) (omega (arith, i, k, r)) in
    omega (arith, sizes, i, k, r)

-- The assertions on the size of the structs never fail: none of the three functions returns their
-- error, whatever its arguments are. The alignment of the uint16 fields adds no padding.
pub enable-ne-wrong_info_size :
    (k : Kernel) (r : Request) (h : History)
    → ((enable_aes_128_gcm k r h).1 ≢ some wrong_info_size)
      × ((enable_aes_256_gcm k r h).1 ≢ some wrong_info_size)
      × ((enable_chacha20_poly1305 k r h).1 ≢ some wrong_info_size)
unfolding enable_aes_128_gcm enable_aes_256_gcm enable_chacha20_poly1305
enable-ne-wrong_info_size k r h = (
  λ e. ground (arith, length-image_gcm k.native_uint16 51 16 r.version r.key r.iv r.seq refl),
  λ e. ground (arith, length-image_gcm k.native_uint16 52 32 r.version r.key r.iv r.seq refl),
  λ e. ground (arith, length-image_chacha20 k.native_uint16 r.version r.key r.iv r.seq),
)
