-- ===== src/Wire/Build.antt =====
-- Building messages: a cryptobyte.Builder is the bytes that it holds, or its error. A read of what
-- was built gives it back.
use goktls.Base.{
  ℕ, ◌+◌, ◌≡◌, ◌<◌, ◌∙◌, refl, sym, ap, Bool, true, false, List, [], ◌∷◌, ◌++◌, Option, none, some,
  if◌then◌else◌, length, arith, append_assoc, append-nil, length-append, ◌==◌,
}
use goktls.Wire.{Width, w8, w16, w24, w32, size, limit, CryptoByte, IsLawful}

abbrev pub Builder : Type 0
Builder = Option (List ℕ)

infixl 5 ◌>>=◌
abbrev pub ◌>>=◌ {ℓ κ} : {A : Type ℓ} {B : Type κ} → Option A → (A → Option B) → Option B
none >>= f = none
some a >>= f = f a

pub >>=-eq-some {ℓ κ} :
    {A : Type ℓ} {B : Type κ} (m : Option A) (f : A → Option B) {b : B}
    → (m >>= f) ≡ some b
    → (a : A) × (m ≡ some a) × (f a ≡ some b)
>>=-eq-some none f e = cc
>>=-eq-some (some a) f e = (a, refl, e)

-- One addition after another.
infixr 6 ◌⊕◌
unfoldable pub ◌⊕◌ : Builder → Builder → Builder
none ⊕ b = none
some s ⊕ none = none
some s ⊕ some t = some (s ++ t)

-- The additions of a function, in their order.
abbrev pub in_turn : List Builder → Builder
in_turn [] = some []
in_turn (b ∷ bs) = b ⊕ in_turn bs

-- An addition under `if`, and a loop of additions.
abbrev pub optional : Bool → Builder → Builder
optional true b = b
optional false b = some []

unfoldable pub each {ℓ} : {A : Type ℓ} → (A → Builder) → List A → Builder
each f [] = some []
each f (x ∷ xs) = f x ⊕ each f xs

-- AddBytes, and addBytesWithLength.
abbrev pub add_bytes : List ℕ → Builder
add_bytes xs = some xs

unfoldable pub add_bytes_with_length : List ℕ → ℕ → Builder
add_bytes_with_length xs n = if length xs == n then some xs else none

abbrev pub is_empty {ℓ} : {A : Type ℓ} → List A → Bool
is_empty [] = true
is_empty (x ∷ xs) = false

pub is_empty-eq_false {ℓ} : {A : Type ℓ} (xs : List A) → 0 < length xs → is_empty xs ≡ false
is_empty-eq_false [] h = absurd (omega arith)
is_empty-eq_false (x ∷ xs) h = refl

-- What a builder that succeeds is made of.
pub built_both :
    (a b : Builder) {s : List ℕ}
    → a ⊕ b ≡ some s
    → (x : List ℕ) × (y : List ℕ) × (a ≡ some x) × (b ≡ some y) × (s ≡ x ++ y)
unfolding ◌⊕◌
built_both none b e = absurd (cc e)
built_both (some x) none e = absurd (cc e)
built_both (some x) (some y) e = (x, y, refl, refl, ground arith)

pub ⊕-assoc : (a b c : Builder) → (a ⊕ b) ⊕ c ≡ a ⊕ (b ⊕ c)
unfolding ◌⊕◌
⊕-assoc none b c = refl
⊕-assoc (some x) none c = refl
⊕-assoc (some x) (some y) none = refl
⊕-assoc (some x) (some y) (some z) = ap some (append_assoc x y z)

pub nothing-⊕ : (b : Builder) → some [] ⊕ b ≡ b
unfolding ◌⊕◌
nothing-⊕ none = refl
nothing-⊕ (some x) = refl

pub ⊕-nothing : (b : Builder) → b ⊕ some [] ≡ b
unfolding ◌⊕◌
⊕-nothing none = refl
⊕-nothing (some x) = ap some (append-nil x)

pub in_turn_two-⊕ : (a b c : Builder) → in_turn (a ∷ b ∷ []) ⊕ c ≡ a ⊕ (b ⊕ c)
in_turn_two-⊕ a b c = ap (λ (t : Builder). (a ⊕ t) ⊕ c) (⊕-nothing b) ∙ ⊕-assoc a b c

module _ (cb : CryptoByte) where
  abbrev pub add_uint : Width → ℕ → Builder
  add_uint w n = some (cb.uint w n)

  -- AddUintNLengthPrefixed.
  unfoldable pub add_prefixed : Width → Builder → Builder
  add_prefixed w none = none
  add_prefixed w (some body) = cb.prefixed w body

module _ (cb : CryptoByte) (laws : IsLawful cb) where
  pub length-prefixed :
      (w : Width) (body : List ℕ) {s : List ℕ}
      → cb.prefixed w body ≡ some s
      → length s ≡ size w + length body
  length-prefixed w body e = ground (
    arith,
    laws.prefixed_lem w body,
    laws.length-uint w (length body),
    length-append (cb.uint w (length body)) body,
  )

  -- A read of what stands first gives it and leaves what was added behind it.
  pub read_uint-add :
      (w : Width) (n : ℕ) (more : Builder) {s : List ℕ}
      → n < limit w
      → add_uint cb w n ⊕ more ≡ some s
      → (rest : List ℕ) × (more ≡ some rest)
        × (length s ≡ size w + length rest)
        × (cb.read_uint w s ≡ some (n, rest))
  unfolding ◌⊕◌
  read_uint-add w n none small e = absurd (cc e)
  read_uint-add w n (some rest) {s} small e =
      let same : s ≡ cb.uint w n ++ rest = ground arith in
      (
        rest,
        refl,
        rw same (omega (arith, laws.length-uint w n, length-append {0} (cb.uint w n) rest)),
        rw same (laws.read_uint-uint w n rest small),
      )

  pub read_uint-only :
      (w : Width) (n : ℕ) {s : List ℕ}
      → n < limit w
      → add_uint cb w n ≡ some s
      → cb.read_uint w s ≡ some (n, [])
  read_uint-only w n small e =
      let (rest, e_rest, len, e_read) =
        read_uint-add w n (some []) small (⊕-nothing (add_uint cb w n) ∙ e) in
      ground arith

  pub length-add_uint :
      (w : Width) (n : ℕ) {s : List ℕ} → add_uint cb w n ≡ some s → (length s == size w) ≡ true
  length-add_uint w n e = ground (arith, laws.length-uint w n)

  pub read_prefixed-add :
      (w : Width) (b more : Builder) {s : List ℕ}
      → add_prefixed cb w b ⊕ more ≡ some s
      → (body : List ℕ) × (rest : List ℕ) × (b ≡ some body)
        × (more ≡ some rest)
        × (length s ≡ size w + length body + length rest)
        × (cb.read_prefixed w s ≡ some (body, rest))
  unfolding add_prefixed ◌⊕◌
  read_prefixed-add w none more e = absurd (cc e)
  read_prefixed-add w (some body) more e =
      let (x, rest, e_x, e_rest, e_s) = built_both (cb.prefixed w body) more e in
      (
        body,
        rest,
        refl,
        e_rest,
        omega (arith, ap (length {0}) e_s, length-append {0} x rest, length-prefixed w body e_x),
        ap (cb.read_prefixed w) e_s ∙ laws.read_prefixed-prefixed w body x rest e_x,
      )

  pub read_prefixed-only :
      (w : Width) (b : Builder) {s : List ℕ}
      → add_prefixed cb w b ≡ some s
      → (body : List ℕ) × (b ≡ some body)
        × (length s ≡ size w + length body)
        × (cb.read_prefixed w s ≡ some (body, []))
  read_prefixed-only w b e =
      let (body, rest, e_b, e_rest, len, e_read) =
        read_prefixed-add w b (some []) (⊕-nothing (add_prefixed cb w b) ∙ e) in
      (body, e_b, ground (arith), ground arith)

  -- A length of 0 is an empty prefixed string.
  pub add_prefixed-nothing : (w : Width) → add_prefixed cb w (some []) ≡ add_uint cb w 0
  unfolding add_prefixed
  add_prefixed-nothing w8 = rw (laws.prefixed_lem w8 [], append-nil (cb.uint w8 0))
  add_prefixed-nothing w16 = rw (laws.prefixed_lem w16 [], append-nil (cb.uint w16 0))
  add_prefixed-nothing w24 = rw (laws.prefixed_lem w24 [], append-nil (cb.uint w24 0))
  add_prefixed-nothing w32 = rw (laws.prefixed_lem w32 [], append-nil (cb.uint w32 0))

  -- ReadBytes of all that there is.
  pub read_bytes-all : (xs : List ℕ) → cb.read_bytes (length xs) xs ≡ some (xs, [])
  read_bytes-all xs =
      ap (cb.read_bytes (length xs)) (sym (append-nil xs))
      ∙ laws.read_bytes-append (length xs) xs [] refl

  pub read_bytes-add :
      (n : ℕ) (xs : List ℕ) (more : Builder) {s : List ℕ}
      → add_bytes_with_length xs n ⊕ more ≡ some s
      → (rest : List ℕ) × (more ≡ some rest) × (cb.read_bytes n s ≡ some (xs, rest))
  unfolding add_bytes_with_length ◌⊕◌
  read_bytes-add n xs none e = absurd (ground arith)
  read_bytes-add n xs (some rest) {s} e =
      let long : length xs ≡ n = ground arith in
      let same : s ≡ xs ++ rest = ground arith in
      (rest, refl, rw same (laws.read_bytes-append n xs rest long))

  -- The four bytes in front of a handshake message are its type and its length.
  pub skip-header :
      (typ : ℕ) (b : Builder) {s : List ℕ}
      → in_turn (add_uint cb Width.w8 typ ∷ add_prefixed cb Width.w24 b ∷ []) ≡ some s
      → (body : List ℕ) × (b ≡ some body) × (cb.skip 4 s ≡ some body)
  unfolding add_prefixed ◌⊕◌
  skip-header typ none e = absurd (cc e)
  skip-header typ (some body) {s} e =
      let len = cb.uint Width.w24 (length body) in
      let head = cb.uint Width.w8 typ in
      let four : length (head ++ len) ≡ 4 = omega (
        arith,
        length-append {0} head len,
        laws.length-uint Width.w8 typ,
        laws.length-uint Width.w24 (length body),
      ) in
      let same : s ≡ (head ++ len) ++ body = ground (
        arith,
        laws.prefixed_lem Width.w24 body,
        append_assoc head len body,
        append-nil (len ++ body),
      ) in
      (body, refl, rw same (laws.skip-append 4 (head ++ len) body four))
