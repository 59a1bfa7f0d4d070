-- ===== src/Tests/BigEndian.antt =====
-- A cryptobyte of numbers most significant byte first, which meets the laws.
use goktls.Base.{
  ℕ, ◌+◌, ◌*◌, ◌/◌, ◌%◌, ◌<◌, ◌≡◌, refl, sym, ap, List, [], ◌∷◌, ◌++◌, Option, none, some, ltb,
  if◌then◌else◌, length, take, drop, arith, take-length-append, drop-length-append, length-append,
  append_assoc, le→ltb_false, Bool-cases, inl, inr, false,
}
use goktls.Wire.{Width, w8, w16, w24, w32, size, limit, CryptoByte, IsLawful}
use goktls.Wire.Build.{◌>>=◌}

be_uint : Width → ℕ → List ℕ
be_uint w8 n = (n % 256) ∷ []
be_uint w16 n = (n / 256 % 256) ∷ (n % 256) ∷ []
be_uint w24 n = (n / 65536 % 256) ∷ (n / 256 % 256) ∷ (n % 256) ∷ []
be_uint w32 n = (n / 16777216 % 256) ∷ (n / 65536 % 256) ∷ (n / 256 % 256) ∷ (n % 256) ∷ []

be_read_uint : Width → List ℕ → Option (ℕ × List ℕ)
be_read_uint w8 (a ∷ s) = some (a, s)
be_read_uint w16 (a ∷ b ∷ s) = some (a * 256 + b, s)
be_read_uint w24 (a ∷ b ∷ c ∷ s) = some (a * 65536 + b * 256 + c, s)
be_read_uint w32 (a ∷ b ∷ c ∷ d ∷ s) = some (a * 16777216 + b * 65536 + c * 256 + d, s)
be_read_uint _ _ = none

be_read_bytes : ℕ → List ℕ → Option (List ℕ × List ℕ)
be_read_bytes n s = if ltb (length s) n then none else some (take n s, drop n s)

be_skip : ℕ → List ℕ → Option (List ℕ)
be_skip n s = if ltb (length s) n then none else some (drop n s)

be_prefixed : Width → List ℕ → Option (List ℕ)
unfolding be_uint
be_prefixed w body =
    if ltb (length body) (limit w) then some (be_uint w (length body) ++ body) else none

be_read_prefixed : Width → List ℕ → Option (List ℕ × List ℕ)
unfolding be_read_uint be_read_bytes
be_read_prefixed w s = do (n, rest) ← be_read_uint w s; be_read_bytes n rest

unfoldable pub big_endian : CryptoByte
unfolding be_uint be_read_uint be_read_bytes be_skip be_prefixed be_read_prefixed
big_endian = record {
  uint = be_uint;
  prefixed = be_prefixed;
  read_uint = be_read_uint;
  read_prefixed = be_read_prefixed;
  read_bytes = be_read_bytes;
  skip = be_skip;
}

be_read_bytes-append :
    (n : ℕ) (xs rest : List ℕ) → length xs ≡ n → be_read_bytes n (xs ++ rest) ≡ some (xs, rest)
unfolding be_read_bytes
be_read_bytes-append n xs rest e =
    let long : ltb (length (xs ++ rest)) (length xs) ≡ false =
      le→ltb_false (length xs) _ (omega (arith, length-append {0} xs rest)) in
    rw (sym e, long, take-length-append xs rest, drop-length-append xs rest)

be_read_uint-uint :
    (w : Width) (n : ℕ) (rest : List ℕ)
    → n < limit w
    → be_read_uint w (be_uint w n ++ rest) ≡ some (n, rest)
unfolding be_read_uint be_uint
be_read_uint-uint w8 n rest h = ap (λ (k : ℕ). some (k, rest)) (omega arith)
be_read_uint-uint w16 n rest h = ap (λ (k : ℕ). some (k, rest)) (omega arith)
be_read_uint-uint w24 n rest h = ap (λ (k : ℕ). some (k, rest)) (omega arith)
be_read_uint-uint w32 n rest h = ap (λ (k : ℕ). some (k, rest)) (omega arith)

be_read_prefixed-prefixed :
    (w : Width) (body s rest : List ℕ)
    → be_prefixed w body ≡ some s
    → be_read_prefixed w (s ++ rest) ≡ some (body, rest)
unfolding be_prefixed be_read_prefixed
be_read_prefixed-prefixed w body s rest e = elim (Bool-cases (ltb (length body) (limit w))) [
  | inr big ↦ absurd (ground arith)
  | inl fits ↦
      let small : length body < limit w = ground arith in
      let same : s ≡ be_uint w (length body) ++ body = ground arith in
      let front = be_read_uint-uint w (length body) (body ++ rest) small in
      rw (same, append_assoc (be_uint w (length body)) body rest, front)
        (be_read_bytes-append (length body) body rest refl)
]

be_skip-append : (n : ℕ) (xs rest : List ℕ) → length xs ≡ n → be_skip n (xs ++ rest) ≡ some rest
unfolding be_skip
be_skip-append n xs rest e =
    let long : ltb (length (xs ++ rest)) (length xs) ≡ false =
      le→ltb_false (length xs) _ (omega (arith, length-append {0} xs rest)) in
    rw (sym e, long, drop-length-append xs rest)

be_length-uint : (w : Width) (n : ℕ) → length (be_uint w n) ≡ size w
unfolding be_uint
be_length-uint w8 n = refl
be_length-uint w16 n = refl
be_length-uint w24 n = refl
be_length-uint w32 n = refl

pub big_endian-IsLawful : IsLawful big_endian
unfolding big_endian be_prefixed
big_endian-IsLawful = record {
  length-uint = be_length-uint;
  read_uint-uint = be_read_uint-uint;
  prefixed_lem = λ w body. refl;
  read_prefixed-prefixed = be_read_prefixed-prefixed;
  read_bytes-append = be_read_bytes-append;
  skip-append = be_skip-append;
}
