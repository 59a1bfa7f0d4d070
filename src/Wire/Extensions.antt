-- ===== src/Wire/Extensions.antt =====
-- The extensions of a handshake message: each is written as a type and a block with a length, and
-- all are read by one loop around a switch on the type.
use goktls.Base.{
  ℕ, zero, suc, ◌≤◌, ◌<◌, ◌≡◌, Bool, true, false, not, ◌&&◌, if◌then◌else◌, List, [], ◌∷◌, Option,
  none, some, length, arith, All, refl, sym, ap, ◌∙◌, contains,
}
use goktls.Wire.{Width, CryptoByte, IsLawful}
use goktls.Wire.Build.{
  Builder, ◌⊕◌, ◌>>=◌, optional, nothing-⊕, add_prefixed-nothing, ⊕-assoc, add_uint, add_prefixed,
  add_bytes, in_turn, read_uint-add, read_prefixed-add, is_empty, is_empty-eq_false,
}

unseen-nil : (fresh : List ℕ) → All (λ t. contains [] t ≡ false) fresh
unseen-nil [] = tt
unseen-nil (t ∷ fresh) = (refl, unseen-nil fresh)

unseen-cons :
    (typ : ℕ) (seen fresh : List ℕ)
    → contains fresh typ ≡ false
    → All (λ t. contains seen t ≡ false) fresh
    → All (λ t. contains (typ ∷ seen) t ≡ false) fresh
unseen-cons typ seen [] new f = tt
unseen-cons typ seen (t ∷ fresh) new f =
    (ground arith, unseen-cons typ seen fresh (ground arith) f.1)

module _ (cb : CryptoByte) where
  -- One extension.
  unfoldable pub extension : ℕ → Builder → Builder
  extension typ body = add_uint cb Width.w16 typ ⊕ add_prefixed cb Width.w16 body

  -- One with no data, which the code writes as the number 0.
  unfoldable pub empty_extension : ℕ → Builder
  empty_extension typ = add_uint cb Width.w16 typ ⊕ add_uint cb Width.w16 0

  pub empty_extension_lem : IsLawful cb → (typ : ℕ) → empty_extension typ ≡ extension typ (some [])
  unfolding empty_extension extension
  empty_extension_lem laws typ = rw (add_prefixed-nothing cb laws Width.w16)

  extension_more :
      (typ : ℕ) (body more : Builder)
      → extension typ body ⊕ more
        ≡ add_uint cb Width.w16 typ ⊕ (add_prefixed cb Width.w16 body ⊕ more)
  unfolding extension
  extension_more typ body more = ⊕-assoc _ _ more

  module _ {M : Type 0} (parse : ℕ → List ℕ → List ℕ → M → Option (M × List ℕ)) where
    -- `parse typ ext_data extensions m` is the switch: it returns the message and what is left of
    -- ext_data, or `none` for `return false`. With `unique` a type that was seen is refused.
    unfoldable pub read_extensions : Bool → ℕ → List ℕ → List ℕ → M → Option M
    read_extensions unique fuel [] seen m = some m
    read_extensions unique zero (x ∷ s) seen m = none
    read_extensions unique (suc fuel) (x ∷ s) seen m = do
      (typ, rest) ← cb.read_uint Width.w16 (x ∷ s)
      (ext_data, extensions) ← cb.read_prefixed Width.w16 rest
      if unique && contains seen typ
          then none
          else parse typ ext_data extensions m >>= λ r.
              if is_empty r.1 then read_extensions unique fuel extensions (typ ∷ seen) r.0 else none

    read_extensions-next :
        (unique : Bool) (fuel : ℕ) (seen : List ℕ) (typ : ℕ) {s rest body extensions : List ℕ}
        {m m' r : M}
        → 0 < length s
        → length s ≤ fuel
        → length extensions < length s
        → contains seen typ ≡ false
        → cb.read_uint Width.w16 s ≡ some (typ, rest)
        → cb.read_prefixed Width.w16 rest ≡ some (body, extensions)
        → parse typ body extensions m ≡ some (m', [])
        → ((fuel' : ℕ)
            → length extensions ≤ fuel'
            → read_extensions unique fuel' extensions (typ ∷ seen) m' ≡ some r)
        → read_extensions unique fuel s seen m ≡ some r
    unfolding read_extensions
    read_extensions-next unique fuel seen typ {s = []} some_of long less new e f g next =
        absurd (omega arith)
    read_extensions-next unique zero seen typ {s = b ∷ s} some_of long less new e f g next =
        absurd (omega arith)
    read_extensions-next true (suc fuel) seen typ {s = b ∷ s} some_of long less new e f g next =
        rw (e, f, new, g) (next fuel (omega arith))
    read_extensions-next false (suc fuel) seen typ {s = b ∷ s} some_of long less new e f g next =
        rw (e, f, g) (next fuel (omega arith))

    -- The hellos end in an optional block of extensions, and in nothing else.
    unfoldable pub read_block : Bool → List ℕ → M → Option M
    read_block unique s m = if is_empty s then some m else do
      (extensions, left) ← cb.read_prefixed Width.w16 s
      if not (is_empty left)
          then none
          else read_extensions unique (length extensions) extensions [] m

    -- Whatever was seen but the types in `fresh`, and with enough fuel, the loop ends in `r`.
    pub record Reads (unique : Bool) (fresh : List ℕ) (s : List ℕ) (m r : M) : Type 0 where
      pub run :
          (fuel : ℕ) (seen : List ℕ)
          → All (λ t. contains seen t ≡ false) fresh
          → length s ≤ fuel
          → read_extensions unique fuel s seen m ≡ some r

    pub Reads-done :
        (unique : Bool) (fresh s : List ℕ) (m : M) → in_turn [] ≡ some s → Reads unique fresh s m m
    unfolding read_extensions
    Reads-done unique fresh [] m e = record { run = λ fuel seen f long. refl }
    Reads-done unique fresh (b ∷ s) m e = absurd (cc e)

    -- Where there are no bytes the message stays what it was.
    pub Reads-nothing :
        (unique : Bool) (fresh : List ℕ) {m r : M} → Reads unique fresh [] m r → m ≡ r
    unfolding read_extensions
    Reads-nothing unique fresh reads =
        ground (arith, reads.run 0 [] (unseen-nil fresh) (omega arith))

    -- All of them, from nothing seen.
    pub Reads-all :
        (unique : Bool) (fresh s : List ℕ) {m r : M}
        → Reads unique fresh s m r
        → read_extensions unique (length s) s [] m ≡ some r
    Reads-all unique fresh s reads = reads.run (length s) [] (unseen-nil fresh) (omega arith)

    -- What one extension, which is written if `c` holds, makes of the message when it is read.
    pub record Handles (c : Bool) (typ : ℕ) (body more : Builder) (m m' : M) : Type 0 where
      pub present :
          c ≡ true
          → (ext_data extensions : List ℕ) → body ≡ some ext_data
          → more ≡ some extensions
          → parse typ ext_data extensions m ≡ some (m', [])
      pub absent : c ≡ false → m' ≡ m

    -- An extension that is left out may be of any type.
    pub Reads-skip :
        (unique : Bool) (c : Bool) (typ : ℕ) (fresh : List ℕ) (body more : Builder) {s : List ℕ}
        {m m' r : M}
        → Handles c typ body more m m'
        → c ≡ false
        → ((extensions : List ℕ) → more ≡ some extensions → Reads unique fresh extensions m' r)
        → optional c (extension typ body) ⊕ more ≡ some s
        → Reads unique fresh s m r
    Reads-skip unique true typ fresh body more handles skipped next e = absurd (cc skipped)
    Reads-skip unique false typ fresh body more {s} {m' = m'} {r = r} handles skipped next e =
        let later : Reads unique fresh s m' r = next s (sym (nothing-⊕ more) ∙ e) in
        rw (sym (handles.absent refl)) later

    module _ (laws : IsLawful cb) where
      pub Reads-extension :
          (unique : Bool) (c : Bool) (typ : ℕ) (fresh : List ℕ) (body more : Builder) {s : List ℕ}
          {m m' r : M}
          → Handles c typ body more m m'
          → typ < 65536
          → contains fresh typ ≡ false
          → ((extensions : List ℕ) → more ≡ some extensions → Reads unique fresh extensions m' r)
          → optional c (extension typ body) ⊕ more ≡ some s
          → Reads unique (typ ∷ fresh) s m r
      Reads-extension unique true typ fresh body more {s} handles small new next e =
          let e' : add_uint cb Width.w16 typ ⊕ (add_prefixed cb Width.w16 body ⊕ more) ≡ some s =
            sym (extension_more typ body more) ∙ e in
          let (rest, e_rest, len, e_typ) =
            read_uint-add cb laws Width.w16 typ (add_prefixed cb Width.w16 body ⊕ more) small e' in
          let (ext_data, extensions, e_body, e_more, len', e_data) =
            read_prefixed-add cb laws Width.w16 body more e_rest in
          let less : length extensions < length s = omega arith in
          record {
            run = λ fuel seen f long.
                read_extensions-next unique fuel seen typ (omega arith) long less f.0 e_typ e_data
                  (handles.present refl ext_data extensions e_body e_more)
                  (λ fuel' enough.
                    (next extensions e_more).run fuel' (typ ∷ seen)
                      (unseen-cons typ seen fresh new f.1) enough);
          }
      Reads-extension unique false typ fresh body more handles small new next e =
          let later = next _ (sym (nothing-⊕ more) ∙ e) in
          record {
            run = λ fuel seen f long. rw (sym (handles.absent refl)) (later.run fuel seen f.1 long);
          }

      -- An extension with no data.
      pub Reads-empty :
          (unique : Bool) (c : Bool) (typ : ℕ) (fresh : List ℕ) (more : Builder) {s : List ℕ}
          {m m' r : M}
          → Handles c typ (some []) more m m'
          → typ < 65536
          → contains fresh typ ≡ false
          → ((extensions : List ℕ) → more ≡ some extensions → Reads unique fresh extensions m' r)
          → optional c (empty_extension typ) ⊕ more ≡ some s
          → Reads unique (typ ∷ fresh) s m r
      Reads-empty unique c typ fresh more handles small new next e =
          Reads-extension unique c typ fresh (some []) more handles small new next
            (ap (λ (x : Builder). optional c x ⊕ more) (sym (empty_extension_lem laws typ)) ∙ e)

      -- The block of extensions, which is left out where there are none.
      pub read_block-Reads :
          (unique : Bool) (fresh ext_bytes : List ℕ) {s : List ℕ} {m r : M}
          → Reads unique fresh ext_bytes m r
          → in_turn (
              optional (not (is_empty ext_bytes)) (add_prefixed cb Width.w16 (add_bytes ext_bytes))
              ∷ [])
            ≡ some s
          → read_block unique s m ≡ some r
      unfolding read_block
      read_block-Reads unique fresh [] {s} reads e =
          let nothing : s ≡ [] = ground (arith, nothing-⊕ (some [])) in
          rw (nothing, Reads-nothing unique fresh reads)
      read_block-Reads unique fresh (b ∷ bs) {s} reads e =
          let (body, left, e_body, e_left, len, e_read) =
            read_prefixed-add cb laws Width.w16 (add_bytes (b ∷ bs)) (some []) e in
          let same : body ≡ b ∷ bs = ground arith in
          let nothing : left ≡ [] = ground arith in
          rw (is_empty-eq_false s (omega arith), e_read, same, nothing)
            (Reads-all unique fresh (b ∷ bs) reads)
