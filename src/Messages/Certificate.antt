-- ===== src/Messages/Certificate.antt =====
-- certificateMsg of handshake_messages.go, up to TLS 1.2.
use goktls.Base.{
  ℕ, zero, suc, ◌+◌, ◌-◌, ◌*◌, ◌/◌, ◌%◌, ◌<◌, ◌≤◌, ◌==◌, ◌≡◌, refl, true, false, not, ◌||◌, List,
  [], ◌∷◌, ◌++◌, Option, none, some, length, if◌then◌else◌, arith, ltb, drop, take, length-append,
  drop-length-append, take-length-append, ==_iff, le→ltb_false,
}
use goktls.Wire.Build.{◌>>=◌}
use goktls.Messages.{type_certificate, IsFilled}
use goktls.Messages.Bytes.{uint24, read24, wrap32, sub32}
use goktls.Messages.Framing.{marshal_with}

pub record CertificateMsg : Type 0 where
  pub raw : Option (List ℕ)
  pub certificates : List (List ℕ)

pub entries : List (List ℕ) → List ℕ
entries [] = []
entries (cert ∷ certs) = uint24 (length cert) ++ (cert ++ entries certs)

-- `i`, the sum of the lengths.
unfoldable pub total : List (List ℕ) → ℕ
total [] = 0
total (cert ∷ certs) = length cert + total certs

pub encoding : List (List ℕ) → List ℕ
unfolding entries total
encoding certs =
    let len = 3 + 3 * length certs + total certs in
    type_certificate ∷ (uint24 len ++ (uint24 (len - 3) ++ entries certs))

unfoldable pub marshal : CertificateMsg → Option (List ℕ × CertificateMsg)
unfolding encoding marshal_with
marshal m =
    marshal_with m.raw m (λ bytes. record m { raw = some bytes }) (some (encoding m.certificates))

-- The first loop counts the certificates, or finds that the lengths do not fit. Each round takes
-- three bytes at least, so the length of `d` is enough fuel.
pub count : ℕ → ℕ → List ℕ → Option ℕ
count zero certs_len d = if certs_len == 0 then some 0 else none
count (suc fuel) certs_len d =
    let cert_len = read24 d 0 in
    let rest = count fuel (sub32 certs_len (3 + cert_len)) (drop cert_len (drop 3 d)) in
    if certs_len == 0
    then some 0
    else if ltb (length d) 4 || ltb (wrap32 (length d)) (3 + cert_len)
    then none
    else rest >>= λ n. some (suc n)

-- The second loop takes them.
pub slices : ℕ → List ℕ → List (List ℕ)
slices zero d = []
slices (suc n) d = take (read24 d 0) (drop 3 d) ∷ slices n (drop (read24 d 0) (drop 3 d))

unfoldable pub unmarshal : List ℕ → Option CertificateMsg
unfolding count slices
unmarshal bytes =
    let certs_len = read24 bytes 4 in
    if ltb (length bytes) 7
    then none
    else if not (wrap32 (length bytes) == wrap32 (certs_len + 7))
    then none
    else do
      n ← count (length bytes) certs_len (drop 7 bytes)
      some (record { raw = some bytes; certificates = slices n (drop 7 bytes) })

pub length-entries :
    (certs : List (List ℕ)) → length (entries certs) ≡ 3 * length certs + total certs
unfolding entries total
length-entries [] = omega arith
length-entries (cert ∷ certs) =
    omega (arith, length-entries certs, length-append {0} cert (entries certs))

count-entries :
    (fuel : ℕ) (certs : List (List ℕ))
    → IsFilled certs
    → length (entries certs) < 16777216
    → length (entries certs) ≤ fuel
    → count fuel (length (entries certs)) (entries certs) ≡ some (length certs)
unfolding count entries
count-entries zero [] ok small enough = refl
count-entries (suc fuel) [] ok small enough = refl
count-entries zero (cert ∷ certs) ok small enough = absurd (omega arith)
count-entries (suc fuel) (cert ∷ certs) ok small enough =
    let len = length-append {0} cert (entries certs) in
    let same : length cert / 65536 % 256 * 65536 + length cert / 256 % 256 * 256 + length cert % 256
        ≡ length cert =
      omega arith in
    let later = count-entries fuel certs ok.1 (omega arith) (omega arith) in
    let left : sub32 (suc (suc (suc (length (cert ++ entries certs))))) (3 + length cert)
        ≡ length (entries certs) =
      omega arith in
    rw (same, drop-length-append cert (entries certs), left, later) (ground arith)

slices-entries :
    (certs : List (List ℕ))
    → length (entries certs) < 16777216
    → slices (length certs) (entries certs) ≡ certs
unfolding slices entries
slices-entries [] small = refl
slices-entries (cert ∷ certs) small =
    let len = length-append {0} cert (entries certs) in
    let same : length cert / 65536 % 256 * 65536 + length cert / 256 % 256 * 256 + length cert % 256
        ≡ length cert =
      omega arith in
    rw (
      same,
      drop-length-append cert (entries certs),
      take-length-append cert (entries certs),
      slices-entries certs (omega arith),
    )

read_back :
    (certs : List (List ℕ))
    → IsFilled certs
    → 3 + 3 * length certs + total certs < 16777216
    → unmarshal (encoding certs)
      ≡ some (record { raw = some (encoding certs); certificates = certs })
unfolding encoding unmarshal
read_back certs ok small =
    let all = entries certs in
    let len = length-entries certs in
    let same : read24 (encoding certs) 4 ≡ length all = omega arith in
    let counted = count-entries (length (encoding certs)) certs ok (omega arith) (omega arith) in
    let cut = slices-entries certs (omega arith) in
    let long : ltb (length (encoding certs)) 7 ≡ false = le→ltb_false 7 _ (omega arith) in
    let fits : (wrap32 (length (encoding certs)) == wrap32 (length all + 7)) ≡ true =
      (==_iff _ _).1 (omega arith) in
    rw (same, counted, cut, long, fits)

-- A list of certificates, none of them empty, whose encoding has a length below 2 ^ 24 is read back
-- as it is, with the bytes kept.
pub unmarshal-marshal_certificate :
    (m : CertificateMsg) {bytes : List ℕ} {m' : CertificateMsg}
    → m.raw ≡ none
    → IsFilled m.certificates
    → 3 + 3 * length m.certificates + total m.certificates < 16777216
    → marshal m ≡ some (bytes, m')
    → unmarshal bytes ≡ some m'
unfolding marshal
unmarshal-marshal_certificate m {bytes} {m'} fresh ok small e =
    let same : bytes ≡ encoding m.certificates = ground arith in
    let kept : m' ≡ record { raw = some (encoding m.certificates); certificates = m.certificates } =
      ground arith in
    rw (same, kept) (read_back m.certificates ok small)
