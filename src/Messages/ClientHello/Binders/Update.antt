-- ===== src/Messages/ClientHello/Binders/Update.antt =====
-- updateBinders of handshake_messages.go against marshal.
use goktls.Base.{
  ℕ, ◌+◌, ◌-◌, ◌<◌, ◌==◌, ltb, ◌≡◌, ◌∙◌, refl, ap, true, false, List, [], ◌∷◌, ◌++◌, none, some,
  length, arith, take, length-append, take-length-append,
}
use goktls.Wire.{w8, w16, limit, CryptoByte, IsLawful}
use goktls.Wire.Build.{
  Builder, ◌⊕◌, each, add_bytes, add_prefixed, built_both, read_prefixed-only, length-prefixed,
  is_empty,
}
use goktls.Wire.Lists.{strings}
use goktls.Messages.ClientHello.{ClientHelloMsg, binders, extensions, marshal}
use goktls.Messages.ClientHello.Binders.{
  Completion, gives, binders_len, same_lengths, marshal_without_binders, overwrite_binders,
  update_binders,
}
use goktls.Messages.ClientHello.Binders.Follows.{
  Follows, built_together, marshal_made, follow_marshal, follow_extensions,
}

binders_len_pos : (bs : List (List ℕ)) → 0 < binders_len bs
unfolding binders_len
binders_len_pos [] = omega arith
binders_len_pos (b ∷ bs) = omega arith

binders_len-same :
    (cs bs : List (List ℕ))
    → (length bs == length cs) ≡ true
    → same_lengths cs bs ≡ true
    → binders_len bs ≡ binders_len cs
unfolding binders_len same_lengths
binders_len-same [] [] long e = refl
binders_len-same [] (b ∷ bs) long e = absurd (ground arith)
binders_len-same (c ∷ cs) [] long e = absurd (cc e)
binders_len-same (c ∷ cs) (b ∷ bs) long e = ground (arith, binders_len-same cs bs)

-- What stands for one binder.
module _ (cb : CryptoByte) (laws : IsLawful cb) where
  abbrev each_binder : List (List ℕ) → Builder
  each_binder bs = each (λ b. add_prefixed cb w8 (add_bytes b)) bs

  length-each_binder :
      (bs : List (List ℕ)) (s : List ℕ) → each_binder bs ≡ some s → 2 + length s ≡ binders_len bs
  unfolding each binders_len add_prefixed
  length-each_binder [] s e = ground arith
  length-each_binder (b ∷ bs) s e =
      let (x, y, e_x, e_y, e_s) = built_both _ (each_binder bs) e in
      let shorter = length-each_binder bs y e_y in
      omega (arith, ap (length {0}) e_s, length-append {0} x y, length-prefixed cb laws w8 b e_x)

  -- Binders of the same lengths are written as well as the others are.
  each_binder-same :
      (cs bs : List (List ℕ)) (s : List ℕ)
      → (length bs == length cs) ≡ true
      → same_lengths cs bs ≡ true
      → each_binder cs ≡ some s
      → (t : List ℕ) × (each_binder bs ≡ some t)
  unfolding each same_lengths ◌⊕◌ add_prefixed
  each_binder-same [] [] s long e written = ([], refl)
  each_binder-same [] (b ∷ bs) s long e written = absurd (ground arith)
  each_binder-same (c ∷ cs) [] s long e written = absurd (cc e)
  each_binder-same (c ∷ cs) (b ∷ bs) s long e written =
      let (x, y, e_x, e_y, e_s) = built_both _ (each_binder cs) written in
      let (t, e_t) = each_binder-same cs bs y (ground arith) (ground arith) e_y in
      let small : ltb (length c) (limit w8) ≡ true = ground (arith, laws.prefixed_lem w8 c) in
      let len : length b ≡ length c = ground arith in
      let e_b : cb.prefixed w8 b ≡ some (cb.uint w8 (length b) ++ b) =
        ground (arith, laws.prefixed_lem w8 b) in
      ((cb.uint w8 (length b) ++ b) ++ t, rw (e_b, e_t) refl)

  binders-same :
      (cs bs : List (List ℕ)) (d : List ℕ)
      → (length bs == length cs) ≡ true
      → same_lengths cs bs ≡ true
      → binders cb cs ≡ some d
      → (d' : List ℕ) × (binders cb bs ≡ some d')
        × (length d ≡ binders_len cs)
        × (length d' ≡ binders_len bs)
  unfolding binders strings add_prefixed
  binders-same cs bs d long e written =
      let (body, e_body, len, e_read) = read_prefixed-only cb laws w16 (each_binder cs) written in
      let (t, e_t) = each_binder-same cs bs body long e e_body in
      let len_cs = length-each_binder cs body e_body in
      let len_bs = length-each_binder bs t e_t in
      let len_t : length t ≡ length body = omega (arith, binders_len-same cs bs long e) in
      let e_d : cb.prefixed w16 body ≡ some d = rw e_body at written in
      let small : ltb (length body) (limit w16) ≡ true =
        ground (arith, laws.prefixed_lem w16 body) in
      let e_new : cb.prefixed w16 t ≡ some (cb.uint w16 (length t) ++ t) =
        laws.prefixed_lem w16 t ∙ rw (len_t, small) refl in
      (
        cb.uint w16 (length t) ++ t,
        rw e_t e_new,
        omega (arith, len, len_cs),
        omega (
          arith,
          len_bs,
          length-append {0} (cb.uint w16 (length t)) t,
          laws.length-uint w16 (length t),
        ),
      )

-- The bytes that stand are the ones that a message with the new binders marshals to.
module _ (cb : CryptoByte) (laws : IsLawful cb) (m : ClientHelloMsg) where
  binders-made :
      is_empty m.psk_identities ≡ false
      → (ext : List ℕ) → extensions cb m ≡ some ext
      → (b : Builder) → binders cb m.psk_binders ≡ b
      → (d : List ℕ) × (b ≡ some d)
  binders-made some_psk ext e (some d) eq = (d, refl)
  binders-made some_psk ext e none eq =
      let long = 0 ∷ ext in
      let none_follow : Follows long long _ _ = record {
        follows = λ s e_s. absurd (cc (eq, e_s));
      } in
      let (p, e_p, e_new) =
        (follow_extensions cb laws m m.psk_binders long long refl none_follow some_psk).follows ext
          e in
      absurd (omega (arith, ap (length {0}) e_p, length-append {0} p long))

  marshal_without_binders_lem :
      (p raw : List ℕ) (made : ClientHelloMsg)
      → marshal cb made ≡ some (raw, made)
      → binders_len made.psk_binders + length p ≡ length raw
      → take (length p) raw ≡ p
      → marshal_without_binders cb made ≡ gives (p, made)
  unfolding marshal_without_binders
  marshal_without_binders_lem p raw made e_raw len front =
      let fits : ltb (length raw) (binders_len made.psk_binders) ≡ false = ground arith in
      let cut : length raw - binders_len made.psk_binders ≡ length p = omega arith in
      rw (marshal_without_binders, e_raw) (rw (fits, cut, front) refl)

  overwrite_binders_lem :
      (p d' raw : List ℕ) (made : ClientHelloMsg)
      → marshal_without_binders cb made ≡ gives (p, made)
      → take (length p) raw ≡ p
      → binders cb made.psk_binders ≡ some d'
      → length (p ++ d') ≡ length raw
      → overwrite_binders cb made raw ≡ gives (record made { raw = some (p ++ d') })
  unfolding overwrite_binders
  overwrite_binders_lem p d' raw made cut front new out =
      let right : (length (p ++ d') == length raw) ≡ true = ground arith in
      rw (overwrite_binders, cut) (rw (front, new, built_together p d') (rw right refl))

  marshal_kept :
      (raw : List ℕ) (bs : List (List ℕ))
      → marshal cb (record m { raw = some raw; psk_binders = bs })
        ≡ some (raw, record m { raw = some raw; psk_binders = bs })
  unfolding marshal
  marshal_kept raw bs = refl

  update_binders_lem :
      (bs : List (List ℕ)) (raw : List ℕ) {r : Completion ClientHelloMsg}
      → (length bs == length m.psk_binders) ≡ true
      → same_lengths m.psk_binders bs ≡ true
      → overwrite_binders cb (record m { raw = some raw; psk_binders = bs }) raw ≡ r
      → update_binders cb (record m { raw = some raw }) bs ≡ r
  unfolding update_binders
  update_binders_lem bs raw count lengths e = rw (count, lengths) e

  -- Where a ClientHello with PSKs has been marshalled, updateBinders with binders of the same
  -- lengths succeeds without a panic, and the bytes that it leaves in m.raw are those that marshal
  -- gives for the message with the new binders.
  pub update_binders-marshal :
      (bs : List (List ℕ)) (bytes : List ℕ) (m' : ClientHelloMsg)
      → m.raw ≡ none
      → is_empty m.psk_identities ≡ false
      → (length bs == length m.psk_binders) ≡ true
      → same_lengths m.psk_binders bs ≡ true
      → marshal cb m ≡ some (bytes, m')
      → (out : List ℕ) × (marshal cb (record m { psk_binders = bs })
          ≡ some (out, record m { raw = some out; psk_binders = bs }))
        × (update_binders cb m' bs ≡ gives (record m { raw = some out; psk_binders = bs }))
  update_binders-marshal bs bytes m' unmade some_psk count lengths e =
      let (ext, e_ext, e_bytes, e_made) = marshal_made cb m unmade bytes m' e in
      let (d, old) = binders-made some_psk ext e_ext _ refl in
      let (d', new, len_d, len_d') = binders-same cb laws m.psk_binders bs d count lengths old in
      let same = binders_len-same m.psk_binders bs count lengths in
      let base : Follows d d' (binders cb m.psk_binders) (binders cb bs) = record {
        follows = λ s e_s. ([], ground (arith), new);
      } in
      let (p, e_p, made, e_m') =
        follow_marshal cb laws m bs d d' (omega arith) base unmade some_psk
          (omega (arith, binders_len_pos bs)) bytes m' e in
      let now : ClientHelloMsg = record m { raw = some bytes; psk_binders = bs } in
      let front : take (length p) bytes ≡ p = ap (take (length p)) e_p ∙ take-length-append p d in
      let long : length bytes ≡ length p + length d = ap (length {0}) e_p ∙ length-append p d in
      (
        p ++ d',
        made,
        ap (λ h. update_binders cb h bs) e_m'
            ∙ update_binders_lem bs bytes count lengths (
                overwrite_binders_lem p d' bytes now
                  (marshal_without_binders_lem p bytes now (marshal_kept bytes bs)
                    (omega (arith, long, same, len_d)) front)
                  front new (omega (arith, long, length-append {0} p d', same, len_d, len_d'))),
      )
