-- ===== src/Messages/ClientHello/Binders/Follows.antt =====
-- The binders at the end of a ClientHello that marshal of handshake_messages.go writes.
use goktls.Base.{
  ℕ, ◌<◌, ltb, ◌≡◌, ◌∙◌, refl, sym, ap, true, false, List, [], ◌∷◌, ◌++◌, none, some, length, arith,
  append_assoc, length-append,
}
use goktls.Wire.{Width, w8, w16, w24, limit, CryptoByte, IsLawful}
use goktls.Wire.Build.{
  Builder, ◌⊕◌, >>=-eq-some, add_prefixed, add_uint, built_both, in_turn, is_empty,
  is_empty-eq_false, ⊕-nothing,
}
use goktls.Wire.Extensions.{extension}
use goktls.Messages.{type_client_hello}
use goktls.Messages.ClientHello.{ClientHelloMsg, binders, extensions, fields, marshal}

-- Where the first builder gives bytes that end in d, the second gives them with d' for d.
pub record Follows (d d' : List ℕ) (b b' : Builder) : Type 0 where
  pub follows : (s : List ℕ) → b ≡ some s → (p : List ℕ) × (s ≡ p ++ d) × (b' ≡ some (p ++ d'))

pub built_together : (x y : List ℕ) → some x ⊕ some y ≡ some (x ++ y)
unfolding ◌⊕◌
built_together x y = refl

module _ (d d' : List ℕ) where
  after : (a : Builder) {b b' : Builder} → Follows d d' b b' → Follows d d' (a ⊕ b) (a ⊕ b')
  after a {b} {b'} f = record {
    follows = λ s e.
        let (x, y, e_a, e_b, e_s) = built_both a b e in
        let (p, e_y, e_b') = f.follows y e_b in
        (
          x ++ p,
          e_s ∙ ap (◌++◌ x) e_y ∙ sym (append_assoc x p d),
          ap (λ t. t ⊕ b') e_a
              ∙ ap (◌⊕◌ (some x)) e_b'
              ∙ built_together x (p ++ d')
              ∙ ap some (sym (append_assoc x p d')),
        );
  }

  at_end : {b b' : Builder} → Follows d d' b b' → Follows d d' (b ⊕ some []) (b' ⊕ some [])
  at_end {b} {b'} f = record {
    follows = λ s e.
        let (p, e_s, e_b') = f.follows s (sym (⊕-nothing b) ∙ e) in (p, e_s, ⊕-nothing b' ∙ e_b');
  }

  under_prefix :
      (cb : CryptoByte)
      → IsLawful cb
      → (w : Width) (b b' : Builder) → length d ≡ length d'
      → Follows d d' b b'
      → Follows d d' (add_prefixed cb w b) (add_prefixed cb w b')
  unfolding add_prefixed
  under_prefix cb laws w none b' same f = record { follows = λ s e. absurd (cc e) }
  under_prefix cb laws w (some body) b' same f = record {
    follows = λ s e.
        let (p, e_body, e_b') = f.follows body refl in
        let len : length (p ++ d') ≡ length body =
          omega (arith, ap (length {0}) e_body, length-append {0} p d, length-append {0} p d') in
        let small : ltb (length body) (limit w) ≡ true = ground (arith, laws.prefixed_lem w body) in
        let e_s : s ≡ cb.uint w (length body) ++ body = ground (arith, laws.prefixed_lem w body) in
        (
          cb.uint w (length body) ++ p,
          e_s ∙ ap (◌++◌ (cb.uint w (length body))) e_body ∙ sym (append_assoc _ p d),
          rw (e_b', laws.prefixed_lem w (p ++ d'), len, small)
              (ap some (sym (append_assoc _ p d'))),
        );
  }

-- What marshal does with a message that has no bytes yet.
module _ (cb : CryptoByte) (m : ClientHelloMsg) (unmade : m.raw ≡ none) where
  abbrev whole : List ℕ → Builder
  whole ext =
      in_turn (add_uint cb w8 type_client_hello ∷ add_prefixed cb w24 (fields cb m ext) ∷ [])

  pub marshal_made :
      (bytes : List ℕ) (m' : ClientHelloMsg)
      → marshal cb m ≡ some (bytes, m')
      → (ext : List ℕ) × (extensions cb m ≡ some ext)
        × (whole ext ≡ some bytes)
        × (m' ≡ record m { raw = some bytes })
  unfolding marshal
  marshal_made bytes m' e =
      let e' = rw unmade at e in
      let (ext, e_ext, e_rest) = >>=-eq-some (extensions cb m) _ e' in
      let (written, e_written, e_pair) = >>=-eq-some (whole ext) _ e_rest in
      (ext, e_ext, ground (arith), ground arith)

  pub marshal_makes :
      (ext bytes : List ℕ)
      → extensions cb m ≡ some ext
      → whole ext ≡ some bytes
      → marshal cb m ≡ some (bytes, record m { raw = some bytes })
  unfolding marshal
  marshal_makes ext bytes e_ext e = rw (unmade, e_ext, e) refl

-- The binders are the last bytes of the extensions, and of the message.
module _ (cb : CryptoByte) (laws : IsLawful cb) (m : ClientHelloMsg) (bs : List (List ℕ)) where
  module _ (d d' : List ℕ) (same : length d ≡ length d')
      (base : Follows d d' (binders cb m.psk_binders) (binders cb bs)) where
    pub follow_extensions :
        is_empty m.psk_identities ≡ false
        → Follows d d' (extensions cb m) (extensions cb (record m { psk_binders = bs }))
    unfolding extensions extension
    follow_extensions some_psk =
        let psk : Follows d d' _ _ = at_end d d' (
          rw some_psk (
            after d d' _
              (under_prefix d d' cb laws w16 _ _ same (after d d' _ (at_end d d' base))))) in
        after d d' _ (
          after d d' _ (
            after d d' _ (
              after d d' _ (
                after d d' _ (
                  after d d' _ (
                    after d d' _ (
                      after d d' _ (
                        after d d' _ (
                          after d d' _ (
                            after d d' _ (
                              after d d' _
                                (after d d' _ (after d d' _ (after d d' _ psk))))))))))))))

    follow_rest : (p : List ℕ) → Follows d d' (some (p ++ d)) (some (p ++ d'))
    follow_rest p = record { follows = λ s e. (p, ground (arith), refl) }

    follow_fields :
        (p : List ℕ)
        → is_empty (p ++ d) ≡ false
        → is_empty (p ++ d') ≡ false
        → Follows d d' (fields cb m (p ++ d)) (fields cb (record m { psk_binders = bs }) (p ++ d'))
    unfolding fields
    follow_fields p filled filled' =
        let ext : Follows d d' _ _ =
          at_end d d'
            (rw (filled, filled') (under_prefix d d' cb laws w16 _ _ same (follow_rest p))) in
        after d d' _ (after d d' _ (after d d' _ (after d d' _ (after d d' _ ext))))

    follow_message :
        (p : List ℕ) (typ : List ℕ)
        → is_empty (p ++ d) ≡ false
        → is_empty (p ++ d') ≡ false
        → Follows d d' (in_turn (some typ ∷ add_prefixed cb w24 (fields cb m (p ++ d)) ∷ [])) (
            in_turn (
              some typ
              ∷ add_prefixed cb w24 (fields cb (record m { psk_binders = bs }) (p ++ d'))
              ∷ []))
    follow_message p typ filled filled' =
        after d d' _
          (at_end d d' (under_prefix d d' cb laws w24 _ _ same (follow_fields p filled filled')))

    pub follow_marshal :
        m.raw ≡ none
        → is_empty m.psk_identities ≡ false
        → 0 < length d
        → (bytes : List ℕ) (m' : ClientHelloMsg) → marshal cb m ≡ some (bytes, m')
        → (p : List ℕ) × (bytes ≡ p ++ d)
          × (marshal cb (record m { psk_binders = bs })
              ≡ some (p ++ d', record m { raw = some (p ++ d'); psk_binders = bs }))
          × (m' ≡ record m { raw = some bytes })
    follow_marshal unmade some_psk long bytes m' e =
        let (ext, e_ext, e_bytes, e_m') = marshal_made cb m unmade bytes m' e in
        let (q, e_q, e_ext') = (follow_extensions some_psk).follows ext e_ext in
        let message =
          follow_message q (cb.uint w8 type_client_hello)
            (is_empty-eq_false (q ++ d) (omega (arith, length-append {0} q d)))
            (is_empty-eq_false (q ++ d') (omega (arith, length-append {0} q d'))) in
        let (p, e_p, e_new) = message.follows bytes (ap (whole cb m unmade) (sym e_q) ∙ e_bytes) in
        let made =
          marshal_makes cb (record m { psk_binders = bs }) unmade (q ++ d') (p ++ d') e_ext'
            e_new in
        (p, e_p, made, e_m')
