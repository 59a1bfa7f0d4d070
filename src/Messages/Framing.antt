-- ===== src/Messages/Framing.antt =====
-- What the marshal methods share: the cached bytes, and the type and length in front of a message.
use goktls.Base.{ℕ, ◌≡◌, length, List, [], ◌∷◌, Option, none, some, sym, ap, ◌∙◌, arith}
use goktls.Wire.{Width, CryptoByte, IsLawful}
use goktls.Wire.Build.{
  Builder, ◌>>=◌, >>=-eq-some, add_uint, add_prefixed, in_turn, skip-header, built_both,
  read_prefixed-add,
}

module _ (cb : CryptoByte) where
  -- `b.AddUint8(typ)` and `b.AddUint24LengthPrefixed` around the body.
  unfoldable pub framed : ℕ → Builder → Builder
  framed typ body = in_turn (add_uint cb Width.w8 typ ∷ add_prefixed cb Width.w24 body ∷ [])

-- The bytes and the message that keeps them, `keep bytes`; where `raw` is set it is returned.
unfoldable pub marshal_with :
    {M : Type 0} → Option (List ℕ) → M → (List ℕ → M) → Builder → Option (List ℕ × M)
marshal_with (some raw) m keep b = some (raw, m)
marshal_with none m keep b = do bytes ← b; some (bytes, keep bytes)

pub marshal_with-framed :
    {M : Type 0} (cb : CryptoByte)
    → IsLawful cb
    → (typ : ℕ) (body : Builder) (raw : Option (List ℕ)) (m : M) (keep : List ℕ → M)
      {bytes : List ℕ} {m' : M}
    → raw ≡ none
    → marshal_with raw m keep (framed cb typ body) ≡ some (bytes, m')
    → (s : List ℕ) × (body ≡ some s) × (cb.skip 4 bytes ≡ some s) × (m' ≡ keep bytes)
unfolding marshal_with framed
marshal_with-framed cb laws typ body (some raw) m keep fresh e = absurd (cc fresh)
marshal_with-framed cb laws typ body none m keep {bytes} {m'} fresh e =
    let (written, e_written, e_pair) = >>=-eq-some (framed cb typ body) _ e in
    let same : written ≡ bytes = ground arith in
    let kept : m' ≡ keep written = ground arith in
    let (s, e_s, e_skip) = skip-header cb laws typ body e_written in
    (s, e_s, ap (cb.skip 4) (sym same) ∙ e_skip, kept ∙ ap keep same)

-- For the reader that skips the type only.
pub marshal_with-framed_whole :
    {M : Type 0} (cb : CryptoByte)
    → IsLawful cb
    → (typ : ℕ) (body : Builder) (raw : Option (List ℕ)) (m : M) (keep : List ℕ → M)
      {bytes : List ℕ} {m' : M}
    → raw ≡ none
    → marshal_with raw m keep (framed cb typ body) ≡ some (bytes, m')
    → (s : List ℕ) × (rest : List ℕ) × (body ≡ some s)
      × (cb.skip 1 bytes ≡ some rest)
      × (cb.read_prefixed Width.w24 rest ≡ some (s, []))
      × (m' ≡ keep bytes)
unfolding marshal_with framed
marshal_with-framed_whole cb laws typ body (some raw) m keep fresh e = absurd (cc fresh)
marshal_with-framed_whole cb laws typ body none m keep {bytes} {m'} fresh e =
    let (written, e_written, e_pair) = >>=-eq-some (framed cb typ body) _ e in
    let same : written ≡ bytes = ground arith in
    let kept : m' ≡ keep written = ground arith in
    let (head, rest, e_head, e_rest, e_all) = built_both (add_uint cb Width.w8 typ) _ e_written in
    let one : length head ≡ 1 = ground (arith, laws.length-uint Width.w8 typ) in
    let (s, left, e_s, e_left, len, e_read) =
      read_prefixed-add cb laws Width.w24 body (some []) e_rest in
    let nothing : left ≡ [] = ground arith in
    (
      s,
      rest,
      e_s,
      ap (cb.skip 1) (sym same ∙ e_all) ∙ laws.skip-append 1 head rest one,
      e_read ∙ ap (λ (t : List ℕ). some (s, t)) nothing,
      kept ∙ ap keep same,
    )
