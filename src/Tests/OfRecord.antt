-- ===== src/Tests/OfRecord.antt =====
-- Tests and examples of the record layer.
use goktls.Base.{ℕ, ◌+◌, ◌-◌, ◌^◌, ◌≡◌, ◌≢◌, ◌↔◌, refl, List, [], ◌∷◌, none, some, arith, replicate}
use goktls.Cipher.{Aead, aead, prefix_nonce, xor_nonce}
use goktls.Protocol.{version_tls12, version_tls13}
use goktls.Record.HalfConn.{HalfConn}
use goktls.Record.Padding.Correct.{IsPadded, extract_padding-IsPadded}
use goktls.Record.Padding.{extract_padding, last_byte}
use goktls.Record.Protect.Tls12.{decrypt-encrypt_tls12_explicit}
use goktls.Record.Protect.Tls13.{decrypt-encrypt_tls13}
use goktls.Record.Protect.{ok, uint16_be, encrypt, decrypt}
use goktls.Record.Seq.{IsSeq, value, inc_seq, inc_seq-value, inc_seq-panic_iff}
use goktls.Tests.Data.{toy_ops, toy_laws, no_random, half}

abbrev zeros : List ℕ
zeros = replicate 8 0

zeros-IsSeq : IsSeq zeros
zeros-IsSeq = record { size = refl; bytes = omega arith }

zeros_not_last : value zeros ≢ 2 ^ 64 - 1
unfolding value
zeros_not_last e = omega arith

inc_seq-value_example :
    (seq' : List ℕ) × (inc_seq zeros ≡ some seq') × (value seq' ≡ value zeros + 1) × IsSeq seq'
inc_seq-value_example = inc_seq-value zeros zeros-IsSeq zeros_not_last

inc_seq-panic_iff_example : (inc_seq zeros ≡ none) ↔ (value zeros ≡ 2 ^ 64 - 1)
inc_seq-panic_iff_example = inc_seq-panic_iff zeros zeros-IsSeq

abbrev xor_aead : Aead
xor_aead = record { form = xor_nonce; nonce = replicate 12 0; handle = 0 }

abbrev tls13_half : HalfConn
tls13_half = half version_tls13 (aead xor_aead)

decrypt-encrypt_tls13_example :
    (rec : List ℕ) × (hc' : HalfConn) × (encrypt toy_ops no_random tls13_half
        (23 ∷ 3 ∷ 3 ∷ 0 ∷ 2 ∷ [])
        (104 ∷ 105 ∷ [])
      ≡ ok (rec, hc'))
    × (decrypt toy_ops tls13_half rec
        ≡ ok (record { plaintext = 104 ∷ 105 ∷ []; typ = 23; state = hc' }))
    × (value hc'.seq ≡ value tls13_half.seq + 1)
decrypt-encrypt_tls13_example =
    decrypt-encrypt_tls13 toy_ops toy_laws no_random tls13_half xor_aead refl refl refl zeros-IsSeq
      zeros_not_last 23 3 3 0 2 (104 ∷ 105 ∷ []) refl (omega arith) (omega arith)

abbrev prefix_aead : Aead
prefix_aead = record { form = prefix_nonce; nonce = replicate 4 0; handle = 0 }

abbrev tls12_half : HalfConn
tls12_half = half version_tls12 (aead prefix_aead)

decrypt-encrypt_tls12_explicit_example :
    (rec : List ℕ) × (hc' : HalfConn) × (encrypt toy_ops no_random tls12_half
        (23 ∷ 3 ∷ 3 ∷ uint16_be 2)
        (104 ∷ 105 ∷ [])
      ≡ ok (rec, hc'))
    × (decrypt toy_ops tls12_half rec
        ≡ ok (record { plaintext = 104 ∷ 105 ∷ []; typ = 23; state = hc' }))
    × (value hc'.seq ≡ value tls12_half.seq + 1)
decrypt-encrypt_tls12_explicit_example =
    decrypt-encrypt_tls12_explicit toy_ops toy_laws no_random tls12_half prefix_aead refl
      (omega arith) refl zeros-IsSeq zeros_not_last 23 3 3 (104 ∷ 105 ∷ []) refl (omega arith)
      (omega arith)

abbrev block : List ℕ
block = 9 ∷ 9 ∷ 2 ∷ 2 ∷ 2 ∷ []

extract_padding-IsPadded_example :
    (IsPadded block → extract_padding block ≡ (last_byte block + 1, 255))
    × (¬ IsPadded block → extract_padding block ≡ (1, 0))
extract_padding-IsPadded_example =
    extract_padding-IsPadded block (omega arith) (omega arith) (omega arith)
