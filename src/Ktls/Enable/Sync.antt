-- ===== src/Ktls/Enable/Sync.antt =====
-- Whether the ciphers of a Conn agree with what the kernel has taken over.
use goktls.Base.{
  ℕ, ◌≡◌, ◌∙◌, sym, Bool, true, false, ◌&&◌, ◌||◌, none, ◌==◌, arith, length, is_none,
}
use goktls.Cipher.{ktls, is_ktls}
use goktls.Ktls.CryptoInfo.Layout.{
  offloaded-enable_128, offloaded-enable_256, offloaded-enable_chacha20,
}
use goktls.Ktls.CryptoInfo.{
  Enable, Request, enable_aes_128_gcm, enable_aes_256_gcm, enable_chacha20_poly1305,
}
use goktls.Ktls.Enable.{
  Keys, Offload, Ends, enable_tx_zerocopy_sendfile, enable_rx_expect_no_pad, enable_rx, enable_both,
  enable_aes, enable_chacha20, enable_kernel_tls, client_enable, server_enable,
}
use goktls.Ktls.Features.{Features}
use goktls.Ktls.Socket.{History, Kernel, tls_tx, tls_rx, offloaded}

pub offloaded-zerocopy :
    (k : Kernel) (f : Features) (h : History) (o : ℕ)
    → offloaded o (enable_tx_zerocopy_sendfile k f h) ≡ offloaded o h
unfolding enable_tx_zerocopy_sendfile
offloaded-zerocopy k f h o = ground arith

offloaded-no_pad :
    (k : Kernel) (f : Features) (h : History) (o : ℕ)
    → offloaded o (enable_rx_expect_no_pad k f h) ≡ offloaded o h
unfolding enable_rx_expect_no_pad
offloaded-no_pad k f h o = ground arith

-- What the lemmas on the three enabling functions say of each.
abbrev pub IsExact : Enable → Type 0
IsExact enable =
    (k : Kernel) (r : Request) (h : History) (o : ℕ)
    → offloaded o (enable k r h).0 ≡ (((r.opt == o) && is_none (enable k r h).1) || offloaded o h)

-- The pointers and the kernel agree: the cipher that clientCipher points at is the kernel's exactly
-- if TLS_TX is offloaded, and the other exactly if TLS_RX is.
abbrev pub Agrees : Offload → Type 0
Agrees o =
    (is_ktls o.client_cipher ≡ offloaded tls_tx o.history)
    × (is_ktls o.server_cipher ≡ offloaded tls_rx o.history)

module _ (k : Kernel) (f : Features) (enable : Enable) (exact : IsExact enable) (c : Keys) where
  enable_rx-Agrees :
      (version : ℕ) (ulp ready : Bool) (o : Offload)
      → Agrees o
      → Agrees (enable_rx k f enable c version ulp ready o)
  unfolding enable_rx
  enable_rx-Agrees version ulp ready o a =
      let request : Request = record {
        version = version;
        opt = tls_rx;
        skip = ulp;
        key = c.in_key;
        iv = c.in_iv;
        seq = c.in_seq;
      } in
      ground (
        arith,
        exact k request o.history tls_tx,
        exact k request o.history tls_rx,
        offloaded-no_pad k f (enable k request o.history).0 tls_tx,
        offloaded-no_pad k f (enable k request o.history).0 tls_rx,
      )

  enable_both-Agrees :
      (version : ℕ) (ready_tx ready_rx : Bool) (o : Offload)
      → Agrees o
      → Agrees (enable_both k f enable c version ready_tx ready_rx o)
  unfolding enable_both
  enable_both-Agrees version ready_tx ready_rx o a =
      let request : Request = record {
        version = version;
        opt = tls_tx;
        skip = false;
        key = c.out_key;
        iv = c.out_iv;
        seq = c.out_seq;
      } in
      let after : History = (enable k request o.history).0 in
      ground (
        arith,
        exact k request o.history tls_tx,
        exact k request o.history tls_rx,
        offloaded-zerocopy k f after tls_tx,
        offloaded-zerocopy k f after tls_rx,
        enable_rx-Agrees version false ready_rx o,
        enable_rx-Agrees version true ready_rx
            (record o { history = enable_tx_zerocopy_sendfile k f after; client_cipher = ktls }),
      )

enable_aes-Agrees :
    (k : Kernel) (f : Features) (enable : Enable) (exact : IsExact enable) (len : ℕ) (c : Keys)
    (version : ℕ) (o : Offload)
    → Agrees o
    → Agrees (enable_aes k f enable len c version o)
unfolding enable_aes
enable_aes-Agrees k f enable exact len c version o a =
    enable_both-Agrees k f enable exact c version (length c.out_key == len) (length c.in_key == len)
      o a

enable_chacha20-Agrees :
    (k : Kernel) (f : Features) (c : Keys) (version : ℕ) (o : Offload)
    → Agrees o
    → Agrees (enable_chacha20 k f c version o)
unfolding enable_chacha20
enable_chacha20-Agrees k f c version o a =
    enable_both-Agrees k f enable_chacha20_poly1305 offloaded-enable_chacha20 c version true true o
      a

-- If clientCipher is the kernel's exactly where TLS_TX is offloaded and serverCipher exactly where
-- TLS_RX is, then enableKernelTLS keeps that, for every cipher suite, every kernel and every
-- answer of its calls, also where it returns an error.
pub enable_kernel_tls-Agrees :
    (k : Kernel) (f : Features) (c : Keys) (suite : ℕ) (o : Offload)
    → Agrees o
    → Agrees (enable_kernel_tls k f c suite o)
unfolding enable_kernel_tls
enable_kernel_tls-Agrees k f c suite o a = ground (
  arith,
  enable_aes-Agrees k f enable_aes_128_gcm offloaded-enable_128 16 c 0x0303 o a,
  enable_aes-Agrees k f enable_aes_256_gcm offloaded-enable_256 32 c 0x0303 o a,
  enable_chacha20-Agrees k f c 0x0303 o a,
  enable_aes-Agrees k f enable_aes_128_gcm offloaded-enable_128 16 c 0x0304 o a,
  enable_aes-Agrees k f enable_aes_256_gcm offloaded-enable_256 32 c 0x0304 o a,
  enable_chacha20-Agrees k f c 0x0304 o a,
)

-- The record layer and the kernel agree on who protects each direction.
abbrev pub InSync : Ends → Type 0
InSync e =
    (is_ktls e.out_cipher ≡ offloaded tls_tx e.history)
    × (is_ktls e.in_cipher ≡ offloaded tls_rx e.history)

-- If for each direction the Conn's cipher is the kernel's exactly where the kernel has taken it
-- over, then this is so after enableKernelTLS at the end of a client's handshake too, for every
-- kernel, suite and answer.
pub client_enable-InSync :
    (k : Kernel) (f : Features) (c : Keys) (suite : ℕ) (e : Ends)
    → InSync e
    → InSync (client_enable k f c suite e)
unfolding client_enable
client_enable-InSync k f c suite e s =
    enable_kernel_tls-Agrees k f c suite
      (record {
        history = e.history;
        client_cipher = e.out_cipher;
        server_cipher = e.in_cipher;
        error = none;
      })
      s

-- A server's handshake, which starts with no direction offloaded, sets the ciphers crosswise: that
-- of the input becomes the kernel's exactly if the kernel has the output, and the other way round.
pub server_enable-crosswise :
    (k : Kernel) (f : Features) (c : Keys) (suite : ℕ) (e : Ends)
    → is_ktls e.in_cipher ≡ false
    → is_ktls e.out_cipher ≡ false
    → offloaded tls_tx e.history ≡ false
    → offloaded tls_rx e.history ≡ false
    → let e' = server_enable k f c suite e in
      (is_ktls e'.in_cipher ≡ offloaded tls_tx e'.history)
      × (is_ktls e'.out_cipher ≡ offloaded tls_rx e'.history)
unfolding server_enable
server_enable-crosswise k f c suite e hi ho ht hr =
    enable_kernel_tls-Agrees k f c suite
      (record {
        history = e.history;
        client_cipher = e.in_cipher;
        server_cipher = e.out_cipher;
        error = none;
      })
      (hi ∙ sym ht, ho ∙ sym hr)
