-- ===== src/Messages/Certificate13/Entries.antt =====
-- The entries of a TLS 1.3 certificate chain are read back.
use goktls.Base.{
  ℕ, zero, suc, ◌<◌, ◌≤◌, ◌≡◌, refl, sym, ap, ◌∙◌, true, false, List, [], ◌∷◌, ◌++◌, Option, none,
  some, length, if◌then◌else◌, arith, ltb, append-nil, append_assoc,
}
use goktls.Wire.{Width, CryptoByte, IsLawful}
use goktls.Wire.Build.{
  Builder, in_turn_two-⊕, add_bytes, add_prefixed, read_prefixed-add, read_uint-add,
}
use goktls.Wire.Lists.{strings, read_some-add, read_elements-strings_only}
use goktls.Wire.Extensions.{read_extensions, Handles, Reads, Reads-extension, Reads-done, Reads-all}
use goktls.Messages.{extension_status_request, extension_sct, status_type_ocsp, IsFilled}
use goktls.Messages.Certificate13.{
  Certificate, is_some, or_nil, staple, leaf_extensions, entries, parse_status_request, parse_sct,
  parse_extension, read_entries,
}

-- A staple is not empty, nor is a list of timestamps or a timestamp; without a leaf there are none.
pub record IsCanonical (c : Certificate) : Type 0 where
  pub staple : is_some c.ocsp_staple ≡ true → 0 < length (or_nil c.ocsp_staple)
  pub some_timestamp : is_some c.timestamps ≡ true → 0 < length (or_nil c.timestamps)
  pub timestamps : IsFilled (or_nil c.timestamps)
  pub no_leaf : c.chain ≡ [] → (c.ocsp_staple ≡ none) × (c.timestamps ≡ none)

some-or_nil {ℓ} : {A : Type ℓ} (o : Option (List A)) → is_some o ≡ true → o ≡ some (or_nil o)
some-or_nil none c = cc
some-or_nil (some xs) c = refl

is_some-none {ℓ} : {A : Type ℓ} (o : Option A) → is_some o ≡ false → o ≡ none
is_some-none none c = refl
is_some-none (some x) c = cc

module _ (cb : CryptoByte) (laws : IsLawful cb) where
  module _ (c : Certificate) (ok : IsCanonical c) where
    staple-Handles :
        (more : Builder) (d : Certificate)
        → ltb 1 (length d.chain) ≡ false
        → d.ocsp_staple ≡ none
        → Handles cb
            (parse_extension cb)
            (is_some c.ocsp_staple)
            extension_status_request
            (staple cb c)
            more
            d
            (record d { ocsp_staple = c.ocsp_staple })
    unfolding parse_extension parse_status_request staple
    staple-Handles more d leaf old = record {
      present = λ h data' ext e e'.
          let (s1, e1, len1, r1) =
            read_uint-add cb laws Width.w8 status_type_ocsp _ (omega arith) e in
          let (left, e_left, less, r2) =
            read_some-add cb laws Width.w24 (or_nil c.ocsp_staple) (some []) s1 (ok.staple h) e1 in
          let nothing : left ≡ [] = ground arith in
          rw (leaf, r1, r2, nothing, sym (some-or_nil c.ocsp_staple h));
      absent = λ h. ground (arith, is_some-none c.ocsp_staple h);
    }

    timestamps-Handles :
        (more : Builder) (d : Certificate)
        → ltb 1 (length d.chain) ≡ false
        → d.timestamps ≡ none
        → Handles cb
            (parse_extension cb)
            (is_some c.timestamps)
            extension_sct
            (strings cb Width.w16 Width.w16 (or_nil c.timestamps))
            more
            d
            (record d { timestamps = c.timestamps })
    unfolding parse_extension parse_sct
    timestamps-Handles more d leaf old = record {
      present = λ h data' ext e e'.
          let read =
            read_elements-strings_only cb laws Width.w16 Width.w16 (or_nil c.timestamps)
              ok.timestamps (ok.some_timestamp h) e in
          rw (leaf, read, old, sym (some-or_nil c.timestamps h));
      absent = λ h. ground (arith, is_some-none c.timestamps h);
    }

    leaf-Reads :
        (d : Certificate) (s : List ℕ)
        → ltb 1 (length d.chain) ≡ false
        → d.ocsp_staple ≡ none
        → d.timestamps ≡ none
        → leaf_extensions cb c ≡ some s
        → Reads cb
            (parse_extension cb)
            false
            (extension_status_request ∷ extension_sct ∷ [])
            s
            d
            (record d { ocsp_staple = c.ocsp_staple; timestamps = c.timestamps })
    unfolding leaf_extensions
    leaf-Reads d s leaf no_staple no_timestamps e =
        Reads-extension cb (parse_extension cb) laws false _ extension_status_request _ _ _
          (staple-Handles _ d leaf no_staple) (omega arith) refl
          (λ s1 e1.
            Reads-extension cb (parse_extension cb) laws false _ extension_sct _ _ _
              (timestamps-Handles _ _ leaf no_timestamps) (omega arith) refl
              (λ s2 e2. Reads-done cb (parse_extension cb) false [] s2 _ e2) e1)
          e

  read_entries-next :
      (fuel : ℕ) (cert : List ℕ) (d : Certificate) {s rest extensions rest' : List ℕ}
      {d' r : Certificate}
      → length rest' < length s
      → length s ≤ fuel
      → cb.read_prefixed Width.w24 s ≡ some (cert, rest)
      → cb.read_prefixed Width.w16 rest ≡ some (extensions, rest')
      → read_extensions cb
          (parse_extension cb)
          false
          (length extensions)
          extensions
          []
          (record d { chain = d.chain ++ cert ∷ [] })
        ≡ some d'
      → ((fuel' : ℕ) → length rest' ≤ fuel' → read_entries cb fuel' rest' d' ≡ some r)
      → read_entries cb fuel s d ≡ some r
  unfolding read_entries
  read_entries-next fuel cert d {s = []} less long e f g next = absurd (omega arith)
  read_entries-next zero cert d {s = b ∷ s} less long e f g next = absurd (omega arith)
  read_entries-next (suc fuel) cert d {s = b ∷ s} less long e f g next =
      rw (e, f, g) (next fuel (omega arith))

  -- One entry, up to its extensions.
  entry :
      (c : Certificate) (i : ℕ) (cert : List ℕ) (certs : List (List ℕ)) (s : List ℕ)
      → entries cb c i (cert ∷ certs) ≡ some s
      → (rest : List ℕ) × (extensions : List ℕ) × (rest' : List ℕ) × ((if ltb 0 i
            then some []
            else leaf_extensions cb c)
          ≡ some extensions)
        × (entries cb c (suc i) certs ≡ some rest')
        × (length rest' < length s)
        × (cb.read_prefixed Width.w24 s ≡ some (cert, rest))
        × (cb.read_prefixed Width.w16 rest ≡ some (extensions, rest'))
  unfolding entries
  entry c i cert certs s e =
      let e' =
        sym (
          in_turn_two-⊕ (add_prefixed cb Width.w24 (add_bytes cert)) _ (entries cb c (suc i) certs))
        ∙ e in
      let (body, rest, e_b, e_rest, len, r1) =
        read_prefixed-add cb laws Width.w24 (add_bytes cert) _ e' in
      let (extensions, rest', e_x, e_rest', len', r2) =
        read_prefixed-add cb laws Width.w16 _ _ e_rest in
      let same : body ≡ cert = ground arith in
      (
        rest,
        extensions,
        rest',
        e_x,
        e_rest',
        omega arith,
        r1 ∙ ap (λ (t : List ℕ). some (t, rest)) same,
        r2,
      )

  read_entries-rest :
      (fuel : ℕ) (c : Certificate) (i : ℕ) (certs : List (List ℕ)) (s : List ℕ) (d : Certificate)
      → length s ≤ fuel
      → entries cb c (suc i) certs ≡ some s
      → read_entries cb fuel s d ≡ some (record d { chain = d.chain ++ certs })
  unfolding entries read_entries
  read_entries-rest fuel c i [] [] d enough e = rw (append-nil d.chain)
  read_entries-rest fuel c i [] (b ∷ s) d enough e = absurd (cc e)
  read_entries-rest fuel c i (cert ∷ certs) s d enough e =
      let (rest, extensions, rest', e_x, e_rest', less, r1, r2) = entry c (suc i) cert certs s e in
      let longer = record d { chain = d.chain ++ cert ∷ [] } in
      let behind : ltb 0 (suc i) ≡ true = ground arith in
      let e_x' : some [] ≡ some extensions = rw behind at e_x in
      let reads = Reads-done cb (parse_extension cb) false [] extensions longer e_x' in
      let done = Reads-all cb (parse_extension cb) false [] extensions reads in
      read_entries-next fuel cert d less enough r1 r2 done λ fuel' enough'.
        rw (sym (append_assoc d.chain (cert ∷ []) certs))
          (read_entries-rest fuel' c (suc i) certs rest' longer enough' e_rest')

  read_chain :
      (c : Certificate) (certs : List (List ℕ)) (s : List ℕ)
      → IsCanonical c
      → c.chain ≡ certs
      → entries cb c 0 certs ≡ some s
      → read_entries cb (length s) s (record { chain = []; ocsp_staple = none; timestamps = none })
        ≡ some c
  unfolding entries read_entries
  read_chain c [] [] ok chain e = ground (arith, ok.no_leaf chain)
  read_chain c [] (b ∷ s) ok chain e = absurd (cc e)
  read_chain c (cert ∷ certs) s ok chain e =
      let (rest, extensions, rest', e_x, e_rest', less, r1, r2) = entry c 0 cert certs s e in
      let leaf : Certificate = record {
        chain = cert ∷ [];
        ocsp_staple = none;
        timestamps = none;
      } in
      let reads = leaf-Reads c ok leaf extensions refl refl refl e_x in
      let done =
        Reads-all cb (parse_extension cb) false (extension_status_request ∷ extension_sct ∷ [])
          extensions reads in
      let whole : record c { chain = cert ∷ certs } ≡ c =
        ap (λ (t : List (List ℕ)). record c { chain = t }) (sym chain) in
      read_entries-next (length s) cert
        (record { chain = []; ocsp_staple = none; timestamps = none }) less (omega arith) r1 r2 done
        λ fuel' enough'.
          read_entries-rest fuel' c 0 certs rest'
            (record leaf { ocsp_staple = c.ocsp_staple; timestamps = c.timestamps }) enough' e_rest'
          ∙ ap some whole

  pub read_entries-entries :
      (c : Certificate) (s : List ℕ)
      → IsCanonical c
      → entries cb c 0 c.chain ≡ some s
      → read_entries cb (length s) s (record { chain = []; ocsp_staple = none; timestamps = none })
        ≡ some c
  read_entries-entries c s ok e = read_chain c c.chain s ok refl e
