-- ===== src/Ktls/Enable/TxOnly.antt =====
-- A TLS 1.3 connection on a kernel that offloads sending only, which is every kernel before 6.0.
use goktls.Base.{ℕ, ◌≡◌, ◌∙◌, Bool, true, false, [], ◌∷◌, none, arith, length, contains, ◌==◌}
use goktls.Cipher.{is_ktls}
use goktls.Ktls.CryptoInfo.Layout.{
  offloaded-enable_128, offloaded-enable_256, offloaded-enable_chacha20,
}
use goktls.Ktls.CryptoInfo.{
  Enable, Request, enable_aes_128_gcm, enable_aes_256_gcm, enable_chacha20_poly1305,
}
use goktls.Ktls.Enable.{
  Keys, Offload, Ends, enable_rx, enable_both, enable_aes, enable_chacha20, enable_kernel_tls,
  server_enable,
}
use goktls.Ktls.Enable.Sync.{IsExact, offloaded-zerocopy, server_enable-crosswise}
use goktls.Ktls.Features.{Features}
use goktls.Ktls.Socket.{Kernel, tls_tx, tls_rx, offloaded}
use goktls.Protocol.{version_tls13}

module _ (k : Kernel) (f : Features) (no_rx : f.tls13_rx ≡ false) (c : Keys) where
  both_leaves_rx :
      (enable : Enable)
      → IsExact enable
      → (ready_tx ready_rx : Bool) (o : Offload)
      → offloaded tls_rx (enable_both k f enable c version_tls13 ready_tx ready_rx o).history
        ≡ offloaded tls_rx o.history
  unfolding enable_both enable_rx
  both_leaves_rx enable exact ready_tx ready_rx o =
      let request : Request = record {
        version = version_tls13;
        opt = tls_tx;
        skip = false;
        key = c.out_key;
        iv = c.out_iv;
        seq = c.out_seq;
      } in
      ground (
        arith,
        exact k request o.history tls_rx,
        offloaded-zerocopy k f (enable k request o.history).0 tls_rx,
      )

  aes_leaves_rx :
      (enable : Enable)
      → IsExact enable
      → (len : ℕ) (o : Offload)
      → offloaded tls_rx (enable_aes k f enable len c version_tls13 o).history
        ≡ offloaded tls_rx o.history
  unfolding enable_aes
  aes_leaves_rx enable exact len o =
      both_leaves_rx enable exact (length c.out_key == len) (length c.in_key == len) o

  chacha20_leaves_rx :
      (o : Offload)
      → offloaded tls_rx (enable_chacha20 k f c version_tls13 o).history
        ≡ offloaded tls_rx o.history
  unfolding enable_chacha20
  chacha20_leaves_rx o =
      both_leaves_rx enable_chacha20_poly1305 offloaded-enable_chacha20 true true o

  tls13_leaves_rx :
      (suite : ℕ) (o : Offload)
      → contains (0x1301 ∷ 0x1302 ∷ 0x1303 ∷ []) suite ≡ true
      → offloaded tls_rx (enable_kernel_tls k f c suite o).history ≡ offloaded tls_rx o.history
  unfolding enable_kernel_tls
  tls13_leaves_rx suite o h = ground (
    arith,
    aes_leaves_rx enable_aes_128_gcm offloaded-enable_128 16 o,
    aes_leaves_rx enable_aes_256_gcm offloaded-enable_256 32 o,
    chacha20_leaves_rx o,
  )

-- A server with a TLS 1.3 suite whose kernel has no TLS 1.3 RX and which starts with no direction
-- offloaded: if the kernel takes the output over, the Conn reads through the kernel's cipher,
-- which the kernel does not apply, and still encrypts its output itself.
pub server_enable-tx_only :
    (k : Kernel) (f : Features) (c : Keys) (suite : ℕ) (e : Ends)
    → f.tls13_rx ≡ false
    → contains (0x1301 ∷ 0x1302 ∷ 0x1303 ∷ []) suite ≡ true
    → is_ktls e.in_cipher ≡ false
    → is_ktls e.out_cipher ≡ false
    → offloaded tls_tx e.history ≡ false
    → offloaded tls_rx e.history ≡ false
    → offloaded tls_tx (server_enable k f c suite e).history ≡ true
    → let e' = server_enable k f c suite e in
      (is_ktls e'.in_cipher ≡ true)
      × (is_ktls e'.out_cipher ≡ false)
      × (offloaded tls_rx e'.history ≡ false)
unfolding server_enable
server_enable-tx_only k f c suite e no_rx suite13 hi ho ht hr taken =
    let (x, y) = server_enable-crosswise k f c suite e hi ho ht hr in
    let untouched =
      tls13_leaves_rx k f no_rx c suite
        (record {
          history = e.history;
          client_cipher = e.in_cipher;
          server_cipher = e.out_cipher;
          error = none;
        })
        suite13 in
    (x ∙ taken, y ∙ untouched ∙ hr, untouched ∙ hr)
