-- ===== src/Ktls/Enable.antt =====
-- Handing a connection over to the kernel: ktlsEnableAES, ktlsEnableCHACHA20, the two extra
-- options of ktls_cipher_linux.go, and enableKernelTLS of ktls_linux.go.
pub mod Sync
pub mod TxOnly
use goktls.Base.{
  ℕ, Bool, true, false, not, ◌&&◌, ◌||◌, List, [], ◌∷◌, Option, none, some, ◌==◌, if◌then◌else◌,
  length, contains,
}
use goktls.Cipher.{Cipher, ktls}
use goktls.Ktls.CryptoInfo.{
  Error, Request, Enable, lift_errno, enable_aes_128_gcm, enable_aes_256_gcm,
  enable_chacha20_poly1305,
}
use goktls.Ktls.Features.{Features}
use goktls.Ktls.Socket.{
  History, Kernel, sockopt_int, perform, controlled, sol_tls, tls_tx, tls_rx, tls_tx_zerocopy_ro,
  tls_rx_expect_no_pad,
}
use goktls.Protocol.{version_tls12, version_tls13}

-- What the functions read of the Conn and of the key schedule: whether c.conn is a TCP socket, and
-- key, iv and sequence number of both directions.
pub record Keys : Type 0 where
  pub is_tcp : Bool
  pub in_key : List ℕ
  pub out_key : List ℕ
  pub in_iv : List ℕ
  pub out_iv : List ℕ
  pub in_seq : List ℕ
  pub out_seq : List ℕ

-- The history, what the pointers clientCipher and serverCipher point at, and the error returned.
pub record Offload : Type 0 where
  pub history : History
  pub client_cipher : Cipher
  pub server_cipher : Cipher
  pub error : Option Error

-- ktlsEnableTxZerocopySendfile; its caller drops the error.
unfoldable pub enable_tx_zerocopy_sendfile : Kernel → Features → History → History
enable_tx_zerocopy_sendfile k f h =
    if not f.zerocopy
    then h
    else (controlled k (perform k (sockopt_int sol_tls tls_tx_zerocopy_ro 1)) h).0

-- ktlsEnableRxExpectNoPad; its caller drops the error.
unfoldable pub enable_rx_expect_no_pad : Kernel → Features → History → History
enable_rx_expect_no_pad k f h =
    if not f.no_pad
    then h
    else (controlled k (perform k (sockopt_int sol_tls tls_rx_expect_no_pad 1)) h).0

-- The part for RX that ktlsEnableAES and ktlsEnableCHACHA20 end with; `ready` is their test of the
-- key's length, where they have one.
unfoldable pub enable_rx : Kernel → Features → Enable → Keys → ℕ → Bool → Bool → Offload → Offload
enable_rx k f enable c version ulp_enabled ready o =
    if not f.rx || (version == version_tls13) && not f.tls13_rx
    then o
    else if ready && c.is_tcp
    then (let request : Request = record {
      version = version;
      opt = tls_rx;
      skip = ulp_enabled;
      key = c.in_key;
      iv = c.in_iv;
      seq = c.in_seq;
    } in
        elim (enable k request o.history).1 [
          | some e ↦ record o { history = (enable k request o.history).0; error = some e }
          | none ↦ record o {
            history =
                if version == version_tls13
                then enable_rx_expect_no_pad k f (enable k request o.history).0
                else (enable k request o.history).0;
            server_cipher = ktls;
          }
        ])
    else o

-- ktlsEnableAES and ktlsEnableCHACHA20, over the same tests of the keys' lengths.
unfoldable pub enable_both : Kernel → Features → Enable → Keys → ℕ → Bool → Bool → Offload → Offload
enable_both k f enable c version ready_tx ready_rx o =
    if not f.tx
    then o
    else if ready_tx && c.is_tcp
    then (let request : Request = record {
      version = version;
      opt = tls_tx;
      skip = false;
      key = c.out_key;
      iv = c.out_iv;
      seq = c.out_seq;
    } in
        elim (enable k request o.history).1 [
          | some e ↦ record o { history = (enable k request o.history).0; error = some e }
          | none ↦ enable_rx k f enable c version true ready_rx (record o {
            history = enable_tx_zerocopy_sendfile k f (enable k request o.history).0;
            client_cipher = ktls;
          })
        ])
    else enable_rx k f enable c version false ready_rx o

-- ktlsEnableAES: a key of another length leaves its direction alone.
unfoldable pub enable_aes : Kernel → Features → Enable → ℕ → Keys → ℕ → Offload → Offload
enable_aes k f enable key_len c version o =
    enable_both k f enable c version (length c.out_key == key_len) (length c.in_key == key_len) o

-- ktlsEnableCHACHA20 makes no such test.
unfoldable pub enable_chacha20 : Kernel → Features → Keys → ℕ → Offload → Offload
enable_chacha20 k f c version o = enable_both k f enable_chacha20_poly1305 c version true true o

abbrev pub aes_128_gcm_tls12 : List ℕ
aes_128_gcm_tls12 = 0xc02f ∷ 0xc02b ∷ 0x009c ∷ []

abbrev pub aes_256_gcm_tls12 : List ℕ
aes_256_gcm_tls12 = 0xc030 ∷ 0xc02c ∷ 0x009d ∷ []

abbrev pub chacha20_tls12 : List ℕ
chacha20_tls12 = 0xcca8 ∷ 0xcca9 ∷ []

-- enableKernelTLS: the switch over the cipher suite.
unfoldable pub enable_kernel_tls : Kernel → Features → Keys → ℕ → Offload → Offload
enable_kernel_tls k f c suite o =
    if not f.support
    then o
    else if contains aes_128_gcm_tls12 suite
    then (if not f.aes_gcm_128 then o else enable_aes k f enable_aes_128_gcm 16 c version_tls12 o)
    else if contains aes_256_gcm_tls12 suite
    then (if not f.aes_gcm_256 then o else enable_aes k f enable_aes_256_gcm 32 c version_tls12 o)
    else if contains chacha20_tls12 suite
    then (if not f.chacha20_poly1305 then o else enable_chacha20 k f c version_tls12 o)
    else if suite == 0x1301
    then (if not f.aes_gcm_128 || not f.tls13_tx
        then o
        else enable_aes k f enable_aes_128_gcm 16 c version_tls13 o)
    else if suite == 0x1302
    then (if not f.aes_gcm_256 || not f.tls13_tx
        then o
        else enable_aes k f enable_aes_256_gcm 32 c version_tls13 o)
    else if suite == 0x1303
    then (if not f.chacha20_poly1305 || not f.tls13_tx
        then o
        else enable_chacha20 k f c version_tls13 o)
    else o

-- The end of a handshake: the ciphers of c.in and c.out, the kernel's history and the error.
pub record Ends : Type 0 where
  pub in_cipher : Cipher
  pub out_cipher : Cipher
  pub history : History
  pub error : Option Error

-- Both client handshakes call it with &c.out.cipher, &c.in.cipher.
unfoldable pub client_enable : Kernel → Features → Keys → ℕ → Ends → Ends
client_enable k f c suite e =
    let o = enable_kernel_tls k f c suite (record {
      history = e.history;
      client_cipher = e.out_cipher;
      server_cipher = e.in_cipher;
      error = none;
    }) in
    record {
      in_cipher = o.server_cipher;
      out_cipher = o.client_cipher;
      history = o.history;
      error = o.error;
    }

-- Both server handshakes call it with &c.in.cipher, &c.out.cipher.
unfoldable pub server_enable : Kernel → Features → Keys → ℕ → Ends → Ends
server_enable k f c suite e =
    let o = enable_kernel_tls k f c suite (record {
      history = e.history;
      client_cipher = e.in_cipher;
      server_cipher = e.out_cipher;
      error = none;
    }) in
    record {
      in_cipher = o.client_cipher;
      out_cipher = o.server_cipher;
      history = o.history;
      error = o.error;
    }
