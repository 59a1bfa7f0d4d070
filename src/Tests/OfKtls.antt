-- ===== src/Tests/OfKtls.antt =====
-- Tests and examples of the hand-over to the kernel.
use goktls.Base.{
  ◌%◌, ◌/◌, ℕ, ◌+◌, ◌≤◌, ◌<◌, ◌≡◌, ◌≢◌, ◌↔◌, ◌⊎◌, refl, true, false, List, [], ◌∷◌, ◌++◌, none,
  some, arith, length, replicate, take, get_or,
}
use goktls.Cipher.{Cipher, aead, xor_nonce, is_ktls}
use goktls.Ktls.CryptoInfo.Image.{enable-ne-wrong_info_size}
use goktls.Ktls.CryptoInfo.{
  Request, wrong_info_size, image, struct, lay_out, pad_to, enable_aes_128_gcm, enable_aes_256_gcm,
  enable_chacha20_poly1305,
}
use goktls.Ktls.Enable.Sync.{InSync, client_enable-InSync, server_enable-crosswise}
use goktls.Ktls.Enable.TxOnly.{server_enable-tx_only}
use goktls.Ktls.Enable.{
  Keys, Offload, Ends, enable_both, enable_rx, enable_aes, enable_tx_zerocopy_sendfile,
  enable_kernel_tls, client_enable, server_enable,
}
use goktls.Ktls.Features.Startup.{running, Offers, init-version, init-panic}
use goktls.Ktls.Features.{Features, Started, ready, init, features_of}
use goktls.Ktls.Read.Laws.{read_data-received, limited_write_bounds}
use goktls.Ktls.Read.{
  Writer, read_data_from_record, received, eof, limited_write, room, short_write,
}
use goktls.Ktls.Release.{ℤ, atoi, digits_value}
use goktls.Ktls.Socket.{Kernel, tls_tx, tls_rx, offloaded}
use goktls.Protocol.{record_type_application_data, record_type_alert, alert_close_notify}

-- A kernel that does all that it is asked.
abbrev willing : Kernel
willing = record {
  syscall_conn = λ h. none;
  control = λ h. none;
  native_uint16 = λ v. (v % 256, v / 256 % 256);
  setsockopt = λ h c. none;
}

abbrev linux_5_15 : Features
linux_5_15 = features_of (ℤ.pos 5) (ℤ.pos 15)

abbrev keys : Keys
keys = record {
  is_tcp = true;
  in_key = replicate 16 1;
  out_key = replicate 16 2;
  in_iv = replicate 12 3;
  out_iv = replicate 12 4;
  in_seq = replicate 8 0;
  out_seq = replicate 8 0;
}

abbrev user_space : Cipher
user_space = aead (record { form = xor_nonce; nonce = replicate 12 0; handle = 0 })

abbrev before : Ends
before = record { in_cipher = user_space; out_cipher = user_space; history = []; error = none }

abbrev start : Offload
start = record {
  history = [];
  client_cipher = user_space;
  server_cipher = user_space;
  error = none;
}

client_enable-InSync_example : InSync (client_enable willing linux_5_15 keys 0x1301 before)
client_enable-InSync_example =
    client_enable-InSync willing linux_5_15 keys 0x1301 before (refl, refl)

server_enable-crosswise_example :
    let e' = server_enable willing linux_5_15 keys 0x1301 before in
    (is_ktls e'.in_cipher ≡ offloaded tls_tx e'.history)
    × (is_ktls e'.out_cipher ≡ offloaded tls_rx e'.history)
server_enable-crosswise_example =
    server_enable-crosswise willing linux_5_15 keys 0x1301 before refl refl refl refl

no_tls13_rx : linux_5_15.tls13_rx ≡ false
unfolding features_of
no_tls13_rx = refl

taken_over : offloaded tls_tx (server_enable willing linux_5_15 keys 0x1301 before).history ≡ true
unfolding server_enable enable_kernel_tls enable_aes enable_both enable_rx enable_aes_128_gcm image
    struct lay_out pad_to features_of enable_tx_zerocopy_sendfile
taken_over = ground arith

server_enable-tx_only_example :
    let e' = server_enable willing linux_5_15 keys 0x1301 before in
    (is_ktls e'.in_cipher ≡ true)
    × (is_ktls e'.out_cipher ≡ false)
    × (offloaded tls_rx e'.history ≡ false)
server_enable-tx_only_example =
    server_enable-tx_only willing linux_5_15 keys 0x1301 before no_tls13_rx refl refl refl refl refl
      taken_over

six : atoi (b'6' ∷ []) ≡ some (ℤ.pos 6)
unfolding atoi digits_value
six = ground arith

twelve : atoi (b'1' ∷ b'2' ∷ []) ≡ some (ℤ.pos 12)
unfolding atoi digits_value
twelve = ground arith

-- uname's "6.12.3".
init-version_example :
    (f : Features) × (init
        (running (((b'6' ∷ []) ++ b'.' ∷ ((b'1' ∷ b'2' ∷ []) ++ b'.' ∷ b'3' ∷ [])) ++ 0 ∷ []))
      ≡ ready f)
    × Offers 6 12 f
init-version_example =
    init-version (b'6' ∷ []) b'1' (b'2' ∷ []) (b'3' ∷ []) [] 6 12 (omega arith) refl (omega arith)
      (omega arith) six twelve

-- uname's "6.6.10".
init-panic_example :
    init (running (((b'6' ∷ []) ++ b'.' ∷ ((b'6' ∷ []) ++ b'.' ∷ b'1' ∷ b'0' ∷ [])) ++ 0 ∷ []))
    ≡ Started.panic
init-panic_example =
    init-panic (b'6' ∷ []) (b'6' ∷ []) (b'1' ∷ b'0' ∷ []) [] (omega arith) (refl, tt) (omega arith)
      (omega arith)

abbrev request : Request
request = record {
  version = 0x304;
  opt = tls_tx;
  skip = false;
  key = keys.out_key;
  iv = keys.out_iv;
  seq = keys.out_seq;
}

enable-ne-wrong_info_size_example :
    ((enable_aes_128_gcm willing request []).1 ≢ some wrong_info_size)
    × ((enable_aes_256_gcm willing request []).1 ≢ some wrong_info_size)
    × ((enable_chacha20_poly1305 willing request []).1 ≢ some wrong_info_size)
enable-ne-wrong_info_size_example = enable-ne-wrong_info_size willing request []

read_data-received_example :
    let r = read_data_from_record none 0 (received 2 282 2 21 ∷ []) (1 ∷ 0 ∷ []) in
    ((r.1 ≡ none) ↔ (
      (◌<◌ 0 2)
      × (◌≡◌ {A = ℕ} 282 282)
      × (◌≡◌ {A = ℕ} 2 2)
      × (◌≡◌ {A = ℕ} 21 record_type_application_data)))
    × ((r.1 ≡ none) → r.0 ≡ 2)
    × ((r.1 ≡ some eof) ↔ (
        (◌≡◌ {A = ℕ} 2 0)
        ⊎ ((◌≡◌ {A = ℕ} 282 282)
            × (◌≡◌ {A = ℕ} 2 2)
            × (◌≡◌ {A = ℕ} 21 record_type_alert)
            × (◌≤◌ 2 2)
            × (get_or (1 ∷ 0 ∷ []) 1 0 ≡ alert_close_notify))))
read_data-received_example = read_data-received 0 2 282 2 21 [] (1 ∷ 0 ∷ [])

abbrev takes_all : Writer
takes_all p = (length p, none)

takes_no_more : (q : List ℕ) → (takes_all q).0 ≤ length q
takes_no_more q = omega arith

limited_write_bounds_example :
    let r = limited_write takes_all (ℤ.pos 2) (7 ∷ 8 ∷ 9 ∷ []) in
    (r.passed ≡ take 2 (7 ∷ 8 ∷ 9 ∷ []))
    × (r.n + room r.remaining ≡ 2)
    × (r.error ≡ none → (r.passed ≡ 7 ∷ 8 ∷ 9 ∷ []) × (◌<◌ 0 2))
    × ((◌<◌ 0 2) ⊎ ((r.remaining ≡ ℤ.pos 2) × (r.error ≡ some short_write)))
limited_write_bounds_example =
    limited_write_bounds takes_all (ℤ.pos 2) (7 ∷ 8 ∷ 9 ∷ []) takes_no_more
