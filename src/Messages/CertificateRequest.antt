-- ===== src/Messages/CertificateRequest.antt =====
-- certificateRequestMsg of handshake_messages.go, up to TLS 1.2.
use goktls.Base.{
  ℕ, zero, suc, ◌+◌, ◌*◌, ◌/◌, ◌%◌, ◌<◌, ◌≤◌, ◌==◌, ◌≡◌, refl, Bool, true, false, not, ◌||◌, List,
  [], ◌∷◌, ◌++◌, Option, none, some, length, if◌then◌else◌, arith, ltb, leb, get_or, drop, take,
  min, length-append, drop-length-append, take-length-append, take_of_length-le, drop_of_length-le,
  Bool-cases, inl, inr, ==_iff, le→ltb_false, lt→leb_false,
}
use goktls.Wire.Build.{◌>>=◌, is_empty}
use goktls.Messages.{type_certificate_request, IsWords}
use goktls.Messages.Bytes.{uint16, uint24, read16, read24, sub32}
use goktls.Messages.Framing.{marshal_with}

pub record CertificateRequestMsg : Type 0 where
  pub raw : Option (List ℕ)
  pub has_signature_algorithm : Bool
  pub certificate_types : List ℕ
  pub supported_signature_algorithms : List ℕ
  pub certificate_authorities : List (List ℕ)

-- The loops of marshal: two bytes for each algorithm, a length and the bytes for each authority.
pub algorithms : List ℕ → List ℕ
algorithms [] = []
algorithms (a ∷ as') = uint16 a ++ algorithms as'

pub authorities : List (List ℕ) → List ℕ
authorities [] = []
authorities (ca ∷ cas) = uint16 (length ca) ++ (ca ++ authorities cas)

-- `casLength`.
unfoldable pub cas_length : List (List ℕ) → ℕ
cas_length [] = 0
cas_length (ca ∷ cas) = 2 + length ca + cas_length cas

abbrev algorithm_block : CertificateRequestMsg → List ℕ
algorithm_block m =
    if m.has_signature_algorithm
    then uint16 (length m.supported_signature_algorithms * 2)
      ++ algorithms m.supported_signature_algorithms
    else []

abbrev message_length : CertificateRequestMsg → ℕ
message_length m =
    1
    + length m.certificate_types
    + 2
    + cas_length m.certificate_authorities
    + (if m.has_signature_algorithm then 2 + 2 * length m.supported_signature_algorithms else 0)

pub encoding : CertificateRequestMsg → List ℕ
unfolding algorithms authorities cas_length
encoding m =
    type_certificate_request
    ∷ (uint24 (message_length m)
        ++ ((length m.certificate_types % 256)
            ∷ (m.certificate_types
                ++ (algorithm_block m
                    ++ (uint16 (cas_length m.certificate_authorities)
                        ++ authorities m.certificate_authorities)))))

unfoldable pub marshal : CertificateRequestMsg → Option (List ℕ × CertificateRequestMsg)
unfolding encoding marshal_with
marshal m = marshal_with m.raw m (λ bytes. record m { raw = some bytes }) (some (encoding m))

-- `n` algorithms from the front, and what is left.
pub take_algorithms : ℕ → List ℕ → List ℕ × List ℕ
take_algorithms zero d = ([], d)
take_algorithms (suc n) d =
    let (as', rest) = take_algorithms n (drop 2 d) in (read16 d 0 ∷ as', rest)

pub read_algorithms : CertificateRequestMsg → List ℕ → Option (List ℕ × List ℕ)
unfolding take_algorithms
read_algorithms m d =
    if not m.has_signature_algorithm
    then some (m.supported_signature_algorithms, d)
    else if ltb (length d) 2 || (read16 d 0 % 2 == 1) || ltb (length (drop 2 d)) (read16 d 0)
    then none
    else some (take_algorithms (read16 d 0 / 2) (drop 2 d))

-- The loop over `cas`; each round takes two bytes at least.
pub take_authorities : ℕ → List ℕ → Option (List (List ℕ))
take_authorities fuel [] = some []
take_authorities zero (x ∷ cas) = none
take_authorities (suc fuel) (x ∷ cas) =
    let d = x ∷ cas in
    let ca_len = read16 d 0 in
    let rest = take_authorities fuel (drop ca_len (drop 2 d)) in
    if ltb (length d) 2 || ltb (length (drop 2 d)) ca_len
    then none
    else rest >>= λ more. some (take ca_len (drop 2 d) ∷ more)

-- The authorities, and what stands behind them.
pub read_authorities : List ℕ → Option (List (List ℕ) × List ℕ)
unfolding take_authorities
read_authorities d =
    let len = read16 d 0 in
    if ltb (length d) 2 || ltb (length (drop 2 d)) len
    then none
    else take_authorities len (take len (drop 2 d)) >>= λ cas. some (cas, drop len (drop 2 d))

-- The receiver `m` has set the flag; without it the algorithms stay what they were.
unfoldable pub unmarshal : CertificateRequestMsg → List ℕ → Option CertificateRequestMsg
unfolding read_algorithms read_authorities
unmarshal m bytes =
    let num = get_or bytes 4 0 in
    let d = drop 5 bytes in
    if ltb (length bytes) 5
    then none
    else if not (sub32 (length bytes) 4 == read24 bytes 1)
    then none
    else if (num == 0) || leb (length d) num || not (min num (length d) == num)
    then none
    else do
      (algs, rest) ← read_algorithms m (drop num d)
      (cas, left) ← read_authorities rest
      if not (is_empty left)
          then none
          else some (record m {
            raw = some bytes;
            certificate_types = take num d;
            supported_signature_algorithms = algs;
            certificate_authorities = cas;
          })

pub length-authorities : (cas : List (List ℕ)) → length (authorities cas) ≡ cas_length cas
unfolding authorities cas_length
length-authorities [] = omega arith
length-authorities (ca ∷ cas) =
    omega (arith, length-authorities cas, length-append {0} ca (authorities cas))

take_algorithms-algorithms :
    (as' rest : List ℕ)
    → IsWords as'
    → take_algorithms (length as') (algorithms as' ++ rest) ≡ (as', rest)
unfolding take_algorithms algorithms
take_algorithms-algorithms [] rest ok = refl
take_algorithms-algorithms (a ∷ as') rest ok =
    let same : a / 256 % 256 * 256 + a % 256 ≡ a = omega arith in
    rw (same, take_algorithms-algorithms as' rest ok.1)

length-algorithms : (as' : List ℕ) → length (algorithms as') ≡ length as' * 2
unfolding algorithms
length-algorithms [] = omega arith
length-algorithms (a ∷ as') = omega (arith, length-algorithms as')

take_authorities-authorities :
    (fuel : ℕ) (cas : List (List ℕ))
    → cas_length cas ≤ fuel
    → cas_length cas < 65536
    → take_authorities fuel (authorities cas) ≡ some cas
unfolding take_authorities authorities cas_length
take_authorities-authorities zero [] enough small = refl
take_authorities-authorities (suc fuel) [] enough small = refl
take_authorities-authorities zero (ca ∷ cas) enough small = absurd (omega arith)
take_authorities-authorities (suc fuel) (ca ∷ cas) enough small =
    let same : length ca / 256 % 256 * 256 + length ca % 256 ≡ length ca = omega arith in
    let len = length-append {0} ca (authorities cas) in
    let long : ltb (length (ca ++ authorities cas)) (length ca) ≡ false =
      le→ltb_false (length ca) _ (omega arith) in
    let two : ltb (suc (suc (length (ca ++ authorities cas)))) 2 ≡ false =
      le→ltb_false 2 _ (omega arith) in
    rw (
      same,
      long,
      two,
      drop-length-append ca (authorities cas),
      take-length-append ca (authorities cas),
      take_authorities-authorities fuel cas (omega arith) (omega arith),
    )

read_authorities-authorities :
    (cas : List (List ℕ))
    → cas_length cas < 65536
    → read_authorities (uint16 (cas_length cas) ++ authorities cas) ≡ some (cas, [])
unfolding read_authorities
read_authorities-authorities cas small =
    let same : cas_length cas / 256 % 256 * 256 + cas_length cas % 256 ≡ cas_length cas =
      omega arith in
    let len = length-authorities cas in
    let long : ltb (length (authorities cas)) (cas_length cas) ≡ false =
      le→ltb_false (cas_length cas) _ (omega arith) in
    let two : ltb (suc (suc (length (authorities cas)))) 2 ≡ false =
      le→ltb_false 2 _ (omega arith) in
    rw (
      same,
      long,
      two,
      take_of_length-le (cas_length cas) (authorities cas) (omega arith),
      drop_of_length-le (cas_length cas) (authorities cas) (omega arith),
      take_authorities-authorities (cas_length cas) cas (omega arith) small,
    )

-- What marshal puts into one byte or two fits, and there is a certificate type.
pub record IsCanonical (m : CertificateRequestMsg) : Type 0 where
  pub some_type : 0 < length m.certificate_types
  pub types : length m.certificate_types < 256
  pub algorithms : IsWords m.supported_signature_algorithms
  pub count : length m.supported_signature_algorithms < 32768
  pub authorities : cas_length m.certificate_authorities < 65536

read_algorithms-block :
    (m old : CertificateRequestMsg) (rest : List ℕ)
    → IsCanonical m
    → old.has_signature_algorithm ≡ m.has_signature_algorithm
    → read_algorithms old (algorithm_block m ++ rest)
      ≡ some (
        if m.has_signature_algorithm
            then m.supported_signature_algorithms
            else old.supported_signature_algorithms,
        rest,
      )
unfolding read_algorithms
read_algorithms-block m old rest ok flag = elim (Bool-cases m.has_signature_algorithm) [
  | inr no_algorithms ↦ rw (flag, no_algorithms)
  | inl algs ↦
      let n = length m.supported_signature_algorithms in
      let count = ok.count in
      let len = length-append {0} (algorithms m.supported_signature_algorithms) rest in
      let len' = length-algorithms m.supported_signature_algorithms in
      let same : n * 2 / 256 % 256 * 256 + n * 2 % 256 ≡ n * 2 = omega arith in
      let half : n * 2 / 2 ≡ n = omega arith in
      let even : (n * 2 % 2 == 1) ≡ false = ground arith in
      let two : ltb (suc (suc (length (algorithms m.supported_signature_algorithms ++ rest)))) 2
          ≡ false =
        le→ltb_false 2 _ (omega arith) in
      let long : ltb (length (algorithms m.supported_signature_algorithms ++ rest)) (n * 2)
          ≡ false =
        le→ltb_false (n * 2) _ (omega arith) in
      rw (
        flag,
        algs,
        same,
        half,
        even,
        two,
        long,
        take_algorithms-algorithms m.supported_signature_algorithms rest ok.algorithms,
      )
]

length-algorithm_block :
    (m : CertificateRequestMsg)
    → length (algorithm_block m)
      ≡ (if m.has_signature_algorithm then 2 + 2 * length m.supported_signature_algorithms else 0)
length-algorithm_block m = elim (Bool-cases m.has_signature_algorithm) [
  | inr no_algorithms ↦ rw no_algorithms
  | inl algs ↦ rw algs (omega (arith, length-algorithms m.supported_signature_algorithms))
]

algorithm_block_bound :
    (m : CertificateRequestMsg)
    → length m.supported_signature_algorithms < 32768
    → length (algorithm_block m) ≤ 65538
algorithm_block_bound m count = elim (Bool-cases m.has_signature_algorithm) [
  | inr no_algorithms ↦ rw no_algorithms (omega arith)
  | inl algs ↦ rw algs (omega (arith, length-algorithms m.supported_signature_algorithms))
]

read_back :
    (m old : CertificateRequestMsg)
    → IsCanonical m
    → old.has_signature_algorithm ≡ m.has_signature_algorithm
    → unmarshal old (encoding m)
      ≡ some (record m {
        raw = some (encoding m);
        supported_signature_algorithms =
            if m.has_signature_algorithm
            then m.supported_signature_algorithms
            else old.supported_signature_algorithms;
      })
unfolding encoding unmarshal
read_back m old ok flag =
    let tail =
      uint16 (cas_length m.certificate_authorities) ++ authorities m.certificate_authorities in
    let block = algorithm_block m in
    let rest = block ++ tail in
    let n = length m.certificate_types in
    let len1 = length-append {0} m.certificate_types rest in
    let len2 = length-append {0} block tail in
    let len3 = length-algorithm_block m in
    let len4 = length-authorities m.certificate_authorities in
    let byte : n % 256 ≡ n = ground (arith, ok.types) in
    let bound = algorithm_block_bound m ok.count in
    let long : ltb (length (encoding m)) 5 ≡ false = le→ltb_false 5 _ (omega arith) in
    let fits : (sub32 (length (encoding m)) 4 == read24 (encoding m) 1) ≡ true =
      (==_iff _ _).1 (omega arith) in
    let some_type : (n == 0) ≡ false = ground (arith, ok.some_type) in
    let more : leb (length (m.certificate_types ++ rest)) n ≡ false =
      lt→leb_false n _ (omega arith) in
    let copied : (min n (length (m.certificate_types ++ rest)) == n) ≡ true =
      (==_iff _ _).1 (omega arith) in
    rw (
      long,
      fits,
      byte,
      some_type,
      more,
      copied,
      take-length-append m.certificate_types rest,
      drop-length-append m.certificate_types rest,
      read_algorithms-block m old tail ok flag,
      read_authorities-authorities m.certificate_authorities ok.authorities,
      flag,
    )

-- A certificate request with at most 255 certificate types, but one at least, 16-bit algorithms and
-- authorities whose encoding has a length below 2 ^ 16 is read back by a receiver with the same
-- flag, whatever else it held: with the flag the algorithms too, without it those it had.
pub unmarshal-marshal_certificate_request :
    (m old : CertificateRequestMsg) {bytes : List ℕ} {m' : CertificateRequestMsg}
    → m.raw ≡ none
    → IsCanonical m
    → old.has_signature_algorithm ≡ m.has_signature_algorithm
    → marshal m ≡ some (bytes, m')
    → unmarshal old bytes
      ≡ some (record m' {
        supported_signature_algorithms =
            if m.has_signature_algorithm
            then m.supported_signature_algorithms
            else old.supported_signature_algorithms;
      })
unfolding marshal
unmarshal-marshal_certificate_request m old {bytes} {m'} fresh ok flag e =
    let same : bytes ≡ encoding m = ground arith in
    let kept : m' ≡ record m { raw = some (encoding m) } = ground arith in
    rw (same, kept) (read_back m old ok flag)
