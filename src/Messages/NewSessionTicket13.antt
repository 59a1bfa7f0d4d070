-- ===== src/Messages/NewSessionTicket13.antt =====
-- newSessionTicketMsgTLS13 of handshake_messages.go.
use goktls.Base.{
  ℕ, ◌<◌, ◌==◌, ◌≡◌, refl, sym, ap, ◌∙◌, false, not, List, [], ◌∷◌, Option, none, some, length,
  if◌then◌else◌, arith,
}
use goktls.Wire.{Width, CryptoByte, IsLawful}
use goktls.Wire.Build.{
  Builder, ◌>>=◌, optional, add_bytes, add_uint, add_prefixed, in_turn, is_empty, read_prefixed-add,
  read_uint-add, read_uint-only,
}
use goktls.Wire.Extensions.{
  extension, read_extensions, Handles, Reads-extension, Reads-done, Reads-all,
}
use goktls.Messages.{type_new_session_ticket, extension_early_data}
use goktls.Messages.Framing.{framed, marshal_with, marshal_with-framed}

pub record NewSessionTicketMsg13 : Type 0 where
  pub raw : Option (List ℕ)
  pub lifetime : ℕ
  pub age_add : ℕ
  pub nonce : List ℕ
  pub label : List ℕ
  pub max_early_data : ℕ

module _ (cb : CryptoByte) where
  pub extensions : NewSessionTicketMsg13 → Builder
  extensions m = in_turn (
      optional (not (m.max_early_data == 0))
        (extension cb extension_early_data (add_uint cb Width.w32 m.max_early_data))
      ∷ [])

  unfoldable pub marshal : NewSessionTicketMsg13 → Option (List ℕ × NewSessionTicketMsg13)
  unfolding extensions
  marshal m =
      marshal_with m.raw m (λ bytes. record m { raw = some bytes })
        (framed cb type_new_session_ticket (
          in_turn (
            add_uint cb Width.w32 m.lifetime
            ∷ add_uint cb Width.w32 m.age_add
            ∷ add_prefixed cb Width.w8 (add_bytes m.nonce)
            ∷ add_prefixed cb Width.w16 (add_bytes m.label)
            ∷ add_prefixed cb Width.w16 (extensions m)
            ∷ [])))

  unfoldable pub parse_extension :
      ℕ → List ℕ → List ℕ → NewSessionTicketMsg13 → Option (NewSessionTicketMsg13 × List ℕ)
  parse_extension typ ext_data extensions m =
      if typ == extension_early_data
      then (do
        (max_early_data, left) ← cb.read_uint Width.w32 ext_data
        some (record m { max_early_data = max_early_data }, left))
      else some (m, [])

  unfoldable pub unmarshal : List ℕ → Option NewSessionTicketMsg13
  unfolding parse_extension
  unmarshal bytes = do
    s ← cb.skip 4 bytes
    (lifetime, s) ← cb.read_uint Width.w32 s
    (age_add, s) ← cb.read_uint Width.w32 s
    (nonce, s) ← cb.read_prefixed Width.w8 s
    (label, s) ← cb.read_prefixed Width.w16 s
    (extensions, left) ← cb.read_prefixed Width.w16 s
    if not (is_empty left)
        then none
        else read_extensions cb parse_extension false (length extensions) extensions [] (record {
          raw = some bytes;
          lifetime = lifetime;
          age_add = age_add;
          nonce = nonce;
          label = label;
          max_early_data = 0;
        })

pub record InRange (m : NewSessionTicketMsg13) : Type 0 where
  pub lifetime : m.lifetime < 4294967296
  pub age_add : m.age_add < 4294967296
  pub max_early_data : m.max_early_data < 4294967296

module _ (cb : CryptoByte) (laws : IsLawful cb) (m : NewSessionTicketMsg13) (ok : InRange m) where
  early_data-Handles :
      (more : Builder) (blank : NewSessionTicketMsg13)
      → blank.max_early_data ≡ 0
      → Handles cb
          (parse_extension cb)
          (not (m.max_early_data == 0))
          extension_early_data
          (add_uint cb Width.w32 m.max_early_data)
          more
          blank
          (record blank { max_early_data = m.max_early_data })
  unfolding parse_extension
  early_data-Handles more blank old = record {
    present =
        λ c d ext e e'. rw (read_uint-only cb laws Width.w32 m.max_early_data ok.max_early_data e);
    absent = λ c. ground arith;
  }

  -- A TLS 1.3 session ticket with 32-bit numbers that marshal writes anew is read back as it is,
  -- with the bytes kept.
  pub unmarshal-marshal_new_session_ticket13 :
      {bytes : List ℕ} {m' : NewSessionTicketMsg13}
      → m.raw ≡ none
      → marshal cb m ≡ some (bytes, m')
      → unmarshal cb bytes ≡ some m'
  unfolding marshal unmarshal extensions
  unmarshal-marshal_new_session_ticket13 {bytes} fresh e =
      let (s, e_s, e_skip, kept) =
        marshal_with-framed cb laws type_new_session_ticket _ m.raw m _ fresh e in
      let (s1, e1, len1, r1) = read_uint-add cb laws Width.w32 m.lifetime _ ok.lifetime e_s in
      let (s2, e2, len2, r2) = read_uint-add cb laws Width.w32 m.age_add _ ok.age_add e1 in
      let (b3, s3, eb3, e3, len3, r3) =
        read_prefixed-add cb laws Width.w8 (add_bytes m.nonce) _ e2 in
      let (b4, s4, eb4, e4, len4, r4) =
        read_prefixed-add cb laws Width.w16 (add_bytes m.label) _ e3 in
      let (body, left, e_body, e_left, len, e_read) =
        read_prefixed-add cb laws Width.w16 (extensions cb m) (some []) e4 in
      let same3 : b3 ≡ m.nonce = ground arith in
      let same4 : b4 ≡ m.label = ground arith in
      let nothing : left ≡ [] = ground arith in
      let reads =
        Reads-extension cb (parse_extension cb) laws false _ extension_early_data [] _ _
          (early_data-Handles (in_turn []) (record m { raw = some bytes; max_early_data = 0 }) refl)
          (omega arith) refl (λ t et. Reads-done cb (parse_extension cb) false [] t _ et) e_body in
      let back : unmarshal cb bytes ≡ some (record m { raw = some bytes }) =
        rw (e_skip, r1, r2, r3, same3, r4, same4, e_read, nothing)
          (Reads-all cb (parse_extension cb) false (extension_early_data ∷ []) body reads) in
      back ∙ ap some (sym kept)
