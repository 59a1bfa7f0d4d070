-- ===== src/Record/Protect/ContentType.antt =====
-- The search for the content type in a TLS 1.3 plaintext.
use native.Mathlib.Nat.{add-zero, add-suc}
use goktls.Base.{
  ℕ, zero, suc, ◌+◌, ◌≡◌, ◌≢◌, ◌∙◌, refl, ap, false, List, [], ◌∷◌, ◌++◌, some, arith, length,
  get_or, replicate, length-append, ◌==◌, take-length-append,
}
use goktls.Record.Protect.{find_content_type}

length-replicate : (k : ℕ) → length {A = ℕ} (replicate k 0) ≡ k
length-replicate zero = refl
length-replicate (suc k) = ap suc (length-replicate k)

get_or-append : (xs : List ℕ) (y : ℕ) (ys : List ℕ) → get_or (xs ++ y ∷ ys) (length xs) 0 ≡ y
get_or-append [] y ys = refl
get_or-append (x ∷ xs) y ys = get_or-append xs y ys

get_or-zeros : (k i : ℕ) → get_or {A = ℕ} (replicate k 0) i 0 ≡ 0
get_or-zeros zero i = refl
get_or-zeros (suc k) zero = refl
get_or-zeros (suc k) (suc i) = get_or-zeros k i

get_or-behind :
    (xs : List ℕ) (y : ℕ) (ys : List ℕ) (i : ℕ)
    → get_or (xs ++ y ∷ ys) (suc (length xs + i)) 0 ≡ get_or ys i 0
get_or-behind [] y ys i = ap (λ (j : ℕ). get_or ys j 0) (omega arith)
get_or-behind (x ∷ xs) y ys i =
    ap (λ (j : ℕ). get_or (xs ++ y ∷ ys) j 0) (omega arith) ∙ get_or-behind xs y ys i

module _ (content : List ℕ) (typ pad : ℕ) (h : typ ≢ 0) where
  abbrev padded : List ℕ
  padded = content ++ typ ∷ replicate pad 0

  find_from : (j : ℕ) → find_content_type padded (suc (length content + j)) ≡ some (content, typ)
  unfolding find_content_type
  find_from zero = rw (
    add-zero (length content),
    get_or-append content typ (replicate pad 0),
    typ_nonzero typ h,
    take-length-append content (typ ∷ replicate pad 0),
  )
    where
      typ_nonzero : (typ : ℕ) → typ ≢ 0 → (typ == 0) ≡ false
      typ_nonzero typ h = ground arith
  find_from (suc j) =
      rw
        (
          add-suc (length content) j,
          get_or-behind content typ (replicate pad 0) j,
          get_or-zeros pad j,
        )
        (find_from j)

-- On a content, a type that is not zero, and zeros behind it, the search from the end finds
-- content and type, whatever the number of zeros is.
pub find_content_type-padded :
    (content : List ℕ) (typ pad : ℕ)
    → typ ≢ 0
    → find_content_type
        (content ++ typ ∷ replicate pad 0)
        (length (content ++ typ ∷ replicate pad 0))
      ≡ some (content, typ)
find_content_type-padded content typ pad h =
    ap (find_content_type (content ++ typ ∷ replicate pad 0)) whole
    ∙ find_from content typ pad h pad
  where
    whole : length (content ++ typ ∷ replicate pad 0) ≡ suc (length content + pad)
    whole = omega (arith, length-append content (typ ∷ replicate pad 0), length-replicate pad)
