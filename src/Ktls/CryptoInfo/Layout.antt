-- ===== src/Ktls/CryptoInfo/Layout.antt =====
-- The bytes that the kernel gets, and when the three functions hand them over.
use goktls.Base.{ℕ, ◌≡◌, ◌||◌, ◌&&◌, arith, ◌==◌, is_none}
use goktls.Ktls.CryptoInfo.{
  Request, enable_aes_128_gcm, enable_aes_256_gcm, enable_chacha20_poly1305,
}
use goktls.Ktls.Socket.{History, Kernel, offloaded}

-- One lemma for the three: the direction counts as offloaded afterwards if it was before, or if
-- the call is for it and returns no error.
pub offloaded-enable_128 :
    (k : Kernel) (r : Request) (h : History) (o : ℕ)
    → offloaded o (enable_aes_128_gcm k r h).0
      ≡ (((r.opt == o) && is_none (enable_aes_128_gcm k r h).1) || offloaded o h)
unfolding enable_aes_128_gcm
offloaded-enable_128 k r h o = ground arith

pub offloaded-enable_256 :
    (k : Kernel) (r : Request) (h : History) (o : ℕ)
    → offloaded o (enable_aes_256_gcm k r h).0
      ≡ (((r.opt == o) && is_none (enable_aes_256_gcm k r h).1) || offloaded o h)
unfolding enable_aes_256_gcm
offloaded-enable_256 k r h o = ground arith

pub offloaded-enable_chacha20 :
    (k : Kernel) (r : Request) (h : History) (o : ℕ)
    → offloaded o (enable_chacha20_poly1305 k r h).0
      ≡ (((r.opt == o) && is_none (enable_chacha20_poly1305 k r h).1) || offloaded o h)
unfolding enable_chacha20_poly1305
offloaded-enable_chacha20 k r h o = ground arith
