-- ===== src/Wire/Lists.antt =====
-- The loops of the readers: elements are read until the string is empty.
use goktls.Base.{
  ℕ, zero, suc, ◌≤◌, ◌<◌, if◌then◌else◌, ◌≡◌, List, [], ◌∷◌, Option, none, some, length, arith, All,
  refl, ◌∙◌,
}
use goktls.Wire.{Width, limit, size_pos, CryptoByte, IsLawful}
use goktls.Wire.Build.{
  Builder, ◌⊕◌, ◌>>=◌, each, add_uint, add_prefixed, add_bytes, read_uint-add, read_prefixed-add,
  ⊕-nothing, is_empty, is_empty-eq_false,
}

abbrev pub Reader {ℓ} : Type ℓ → Type ℓ
Reader A = List ℕ → Option (A × List ℕ)

-- `for !s.Empty()` around one read. Each read takes a byte at least, so the length is enough fuel.
unfoldable pub read_all {ℓ} : {A : Type ℓ} → Reader A → ℕ → List ℕ → Option (List A)
read_all read fuel [] = some []
read_all read zero (x ∷ s) = none
read_all read (suc fuel) (x ∷ s) = do
  (a, rest) ← read (x ∷ s)
  more ← read_all read fuel rest
  some (a ∷ more)

-- What was added for one element is read back, whatever was added behind it.
abbrev pub Parses {ℓ κ} : {A : Type ℓ} → (A → Type κ) → (A → Builder) → Reader A → Type (ℓ ⊔ κ)
Parses {A} P add read =
    (a : A) (more : Builder) (s : List ℕ)
    → P a
    → add a ⊕ more ≡ some s
    → (rest : List ℕ) × (more ≡ some rest)
      × (suc (length rest) ≤ length s)
      × (read s ≡ some (a, rest))

unfoldable pub read_list {ℓ} : {A : Type ℓ} → Reader A → List ℕ → Option (List A)
unfolding read_all
read_list read s = read_all read (length s) s

read_all-next {ℓ} :
    {A : Type ℓ} (read : Reader A) (fuel : ℕ) (a : A) (as' : List A) {s rest : List ℕ}
    → suc (length rest) ≤ length s
    → length s ≤ fuel
    → read s ≡ some (a, rest)
    → ((fuel' : ℕ) → length rest ≤ fuel' → read_all read fuel' rest ≡ some as')
    → read_all read fuel s ≡ some (a ∷ as')
unfolding read_all
read_all-next read fuel a as' {s = []} less long e next = absurd (omega arith)
read_all-next read zero a as' {s = b ∷ s} less long e next = absurd (omega arith)
read_all-next read (suc fuel) a as' {s = b ∷ s} less long e next = rw (e, next fuel (omega arith))

pub read_all-each {ℓ κ} :
    {A : Type ℓ} (P : A → Type κ) (add : A → Builder) (read : Reader A)
    → Parses P add read
    → (xs : List A) (fuel : ℕ) (s : List ℕ) → All P xs
    → length s ≤ fuel
    → each add xs ≡ some s
    → read_all read fuel s ≡ some xs
unfolding read_all each
read_all-each P add read reads [] fuel [] ok long e = refl
read_all-each P add read reads [] fuel (b ∷ s) ok long e = absurd (cc e)
read_all-each P add read reads (x ∷ xs) fuel s ok long e =
    let (rest, e_rest, less, e_read) = reads x (each add xs) s ok.0 e in
    read_all-next read fuel x xs less long e_read
      λ fuel' enough. read_all-each P add read reads xs fuel' rest ok.1 enough e_rest

-- The same with the length for fuel, as `read_list` has it.
pub read_list-each {ℓ κ} :
    {A : Type ℓ} (P : A → Type κ) (add : A → Builder) (read : Reader A)
    → Parses P add read
    → (xs : List A) {s : List ℕ} → All P xs
    → each add xs ≡ some s
    → read_list read s ≡ some xs
unfolding read_list
read_list-each P add read reads xs {s} ok e =
    read_all-each P add read reads xs (length s) s ok (omega arith) e

-- A list of one element at least takes one byte at least.
pub length-each-pos {ℓ κ} :
    {A : Type ℓ} (P : A → Type κ) (add : A → Builder) (read : Reader A)
    → Parses P add read
    → (xs : List A) {s : List ℕ} → All P xs
    → 0 < length xs
    → each add xs ≡ some s
    → 0 < length s
unfolding each
length-each-pos P add read reads [] ok some_of e = absurd (omega arith)
length-each-pos P add read reads (a ∷ xs) {s} ok some_of e =
    let (rest, e_rest, less, e_read) = reads a (each add xs) s ok.0 e in omega arith

-- Lists of numbers, and of strings that may not be empty.
module _ (cb : CryptoByte) where
  unfoldable pub read_some : Width → Reader (List ℕ)
  read_some w s = do (x, rest) ← cb.read_prefixed w s; if is_empty x then none else some (x, rest)

  -- A string that may not be empty, read to its end.
  unfoldable pub read_elements {ℓ} :
      {A : Type ℓ} → Width → Reader A → List ℕ → Option (List A × List ℕ)
  unfolding read_some
  read_elements w read s = do (x, rest) ← read_some w s; xs ← read_list read x; some (xs, rest)

  -- A loop of AddUint16 under a prefix, and strings under prefixes of their own.
  unfoldable pub uints : Width → List ℕ → Builder
  uints w xs = add_prefixed cb w (each (add_uint cb Width.w16) xs)

  unfoldable pub strings : Width → Width → List (List ℕ) → Builder
  strings w v xs = add_prefixed cb w (each (λ x. add_prefixed cb v (add_bytes x)) xs)

  module _ (laws : IsLawful cb) where
    pub read_some-add :
        (w : Width) (x : List ℕ) (more : Builder) (s : List ℕ)
        → 0 < length x
        → add_prefixed cb w (add_bytes x) ⊕ more ≡ some s
        → (rest : List ℕ) × (more ≡ some rest)
          × (suc (length rest) ≤ length s)
          × (read_some w s ≡ some (x, rest))
    unfolding read_some
    read_some-add w x more s long e =
        let (body, rest, e_body, e_rest, len, e_read) =
          read_prefixed-add cb laws w (add_bytes x) more e in
        let same : body ≡ x = ground arith in
        (rest, e_rest, omega (arith, len, size_pos w), rw (e_read, same, is_empty-eq_false x long))

    pub read_some-only :
        (w : Width) (x : List ℕ) {s : List ℕ}
        → 0 < length x
        → add_prefixed cb w (add_bytes x) ≡ some s
        → read_some w s ≡ some (x, [])
    read_some-only w x {s} long e =
        let (rest, e_rest, less, e_read) = read_some-add w x (some []) s long (⊕-nothing _ ∙ e) in
        ground arith

    pub read_uint-Parses : (w : Width) → Parses (λ x. x < limit w) (add_uint cb w) (cb.read_uint w)
    read_uint-Parses w x more s small e =
        let (rest, e_rest, long, e_read) = read_uint-add cb laws w x more small e in
        (rest, e_rest, omega (arith, long, size_pos w), e_read)

    module _ {ℓ κ} {A : Type ℓ} (P : A → Type κ) (add : A → Builder) (read : Reader A)
        (reads : Parses P add read) where
      pub read_elements-add :
          (w : Width) (xs : List A) (more : Builder) {s : List ℕ}
          → All P xs
          → 0 < length xs
          → add_prefixed cb w (each add xs) ⊕ more ≡ some s
          → (rest : List ℕ) × (more ≡ some rest) × (read_elements w read s ≡ some (xs, rest))
      unfolding read_elements read_some
      read_elements-add w xs more {s} ok some_of e =
          let (body, rest, e_body, e_rest, len, e_read) =
            read_prefixed-add cb laws w (each add xs) more e in
          let long : 0 < length body = length-each-pos P add read reads xs ok some_of e_body in
          (
            rest,
            e_rest,
            rw (e_read, is_empty-eq_false body long, read_list-each P add read reads xs ok e_body),
          )

      pub read_elements-only :
          (w : Width) (xs : List A) {s : List ℕ}
          → All P xs
          → 0 < length xs
          → add_prefixed cb w (each add xs) ≡ some s
          → read_elements w read s ≡ some (xs, [])
      read_elements-only w xs ok some_of e =
          let (rest, e_rest, e_read) =
            read_elements-add w xs (some []) ok some_of (⊕-nothing _ ∙ e) in
          ground arith

    pub read_elements-uints :
        (w : Width) (xs : List ℕ) {s : List ℕ}
        → All (λ x. x < 65536) xs
        → 0 < length xs
        → uints w xs ≡ some s
        → read_elements w (cb.read_uint Width.w16) s ≡ some (xs, [])
    unfolding uints
    read_elements-uints w xs ok some_of e =
        read_elements-only (λ x. x < 65536) (add_uint cb Width.w16) (cb.read_uint Width.w16)
          (read_uint-Parses Width.w16) w xs ok some_of e

    pub read_elements-strings :
        (w v : Width) (xs : List (List ℕ)) (more : Builder) {s : List ℕ}
        → All (λ x. 0 < length x) xs
        → 0 < length xs
        → strings w v xs ⊕ more ≡ some s
        → (rest : List ℕ) × (more ≡ some rest) × (read_elements w (read_some v) s ≡ some (xs, rest))
    unfolding strings
    read_elements-strings w v xs more ok some_of e =
        read_elements-add (λ x. 0 < length x) (λ x. add_prefixed cb v (add_bytes x)) (read_some v)
          (read_some-add v) w xs more ok some_of e

    pub read_elements-strings_only :
        (w v : Width) (xs : List (List ℕ)) {s : List ℕ}
        → All (λ x. 0 < length x) xs
        → 0 < length xs
        → strings w v xs ≡ some s
        → read_elements w (read_some v) s ≡ some (xs, [])
    read_elements-strings_only w v xs ok some_of e =
        let (rest, e_rest, e_read) =
          read_elements-strings w v xs (some []) ok some_of (⊕-nothing _ ∙ e) in
        ground arith
