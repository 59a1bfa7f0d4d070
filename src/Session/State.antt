-- ===== src/Session/State.antt =====
-- sessionState and sessionStateTLS13 of ticket.go, and addUint64 and readUint64 of
-- handshake_messages.go.
use goktls.Base.{
  ℕ, ◌+◌, ◌*◌, ◌/◌, ◌%◌, ◌<◌, ◌==◌, ◌≡◌, sym, ap, ◌∙◌, Bool, not, List, [], ◌∷◌, Option, none, some,
  length, All, if◌then◌else◌, arith,
}
use goktls.Wire.{Width, CryptoByte, IsLawful}
use goktls.Wire.Build.{
  Builder, ◌⊕◌, ◌>>=◌, each, add_bytes, add_uint, add_prefixed, in_turn, is_empty,
  read_prefixed-add, read_uint-add, in_turn_two-⊕,
}
use goktls.Wire.Lists.{Parses, Reader, read_list, read_list-each, read_some, read_some-add}
use goktls.Messages.Certificate13.{Certificate, entries, marshal_certificate, unmarshal_certificate}
use goktls.Messages.Certificate13.Entries.{IsCanonical, read_entries-entries}
use goktls.Protocol.{version_tls13}

pub record SessionState : Type 0 where
  pub vers : ℕ
  pub cipher_suite : ℕ
  pub created_at : ℕ
  pub master_secret : List ℕ
  pub certificates : List (List ℕ)
  pub used_old_key : Bool

pub record SessionState13 : Type 0 where
  pub cipher_suite : ℕ
  pub created_at : ℕ
  pub resumption_secret : List ℕ
  pub certificate : Certificate

module _ (cb : CryptoByte) where
  unfoldable pub add_uint64 : ℕ → Builder
  add_uint64 v = in_turn (
      add_uint cb Width.w32 (v / 4294967296 % 4294967296)
      ∷ add_uint cb Width.w32 (v % 4294967296)
      ∷ [])

  unfoldable pub read_uint64 : Reader ℕ
  read_uint64 s = do
    (hi, s) ← cb.read_uint Width.w32 s
    (lo, s) ← cb.read_uint Width.w32 s
    some (hi * 4294967296 + lo, s)

  unfoldable pub marshal : SessionState → Builder
  unfolding add_uint64
  marshal m = in_turn (
      add_uint cb Width.w16 m.vers
      ∷ add_uint cb Width.w16 m.cipher_suite
      ∷ add_uint64 m.created_at
      ∷ add_prefixed cb Width.w16 (add_bytes m.master_secret)
      ∷ add_prefixed cb Width.w24
          (each (λ cert. add_prefixed cb Width.w24 (add_bytes cert)) m.certificates)
      ∷ [])

  -- The receiver keeps its usedOldKey.
  unfoldable pub unmarshal : SessionState → List ℕ → Option SessionState
  unfolding read_uint64
  unmarshal m s = do
    (vers, s) ← cb.read_uint Width.w16 s
    (cipher_suite, s) ← cb.read_uint Width.w16 s
    (created_at, s) ← read_uint64 s
    (master_secret, s) ← read_some cb Width.w16 s
    (cert_list, left) ← cb.read_prefixed Width.w24 s
    certificates ← read_list (cb.read_prefixed Width.w24) cert_list
    if not (is_empty left)
        then none
        else some (record {
          vers = vers;
          cipher_suite = cipher_suite;
          created_at = created_at;
          master_secret = master_secret;
          certificates = certificates;
          used_old_key = m.used_old_key;
        })

  unfoldable pub marshal13 : SessionState13 → Builder
  unfolding add_uint64
  marshal13 m = in_turn (
      add_uint cb Width.w16 version_tls13
      ∷ add_uint cb Width.w8 0
      ∷ add_uint cb Width.w16 m.cipher_suite
      ∷ add_uint64 m.created_at
      ∷ add_prefixed cb Width.w8 (add_bytes m.resumption_secret)
      ∷ marshal_certificate cb m.certificate
      ∷ [])

  unfoldable pub unmarshal13 : List ℕ → Option SessionState13
  unfolding read_uint64
  unmarshal13 s = do
    (version, s) ← cb.read_uint Width.w16 s
    (revision, s) ← (if not (version == version_tls13) then none else cb.read_uint Width.w8 s)
    (cipher_suite, s) ← (if not (revision == 0) then none else cb.read_uint Width.w16 s)
    (created_at, s) ← read_uint64 s
    (resumption_secret, s) ← read_some cb Width.w8 s
    (certificate, left) ← unmarshal_certificate cb s
    if not (is_empty left)
        then none
        else some (record {
          cipher_suite = cipher_suite;
          created_at = created_at;
          resumption_secret = resumption_secret;
          certificate = certificate;
        })

module _ (cb : CryptoByte) (laws : IsLawful cb) where
  read_uint64-add :
      (v : ℕ) (more : Builder) {s : List ℕ}
      → v < 18446744073709551616
      → add_uint64 cb v ⊕ more ≡ some s
      → (rest : List ℕ) × (more ≡ some rest) × (read_uint64 cb s ≡ some (v, rest))
  unfolding add_uint64 read_uint64
  read_uint64-add v more small e =
      let e' =
        sym (in_turn_two-⊕ (add_uint cb Width.w32 (v / 4294967296 % 4294967296)) _ more) ∙ e in
      let (s1, e1, len1, r1) =
        read_uint-add cb laws Width.w32 (v / 4294967296 % 4294967296) _ (omega arith) e' in
      let (s2, e2, len2, r2) =
        read_uint-add cb laws Width.w32 (v % 4294967296) more (omega arith) e1 in
      let whole : v / 4294967296 % 4294967296 * 4294967296 + v % 4294967296 ≡ v = omega arith in
      (s2, e2, rw (r1, r2, whole))

  certificate-Parses :
      Parses
        (λ cert. Unit {0})
        (λ cert. add_prefixed cb Width.w24 (add_bytes cert))
        (cb.read_prefixed Width.w24)
  certificate-Parses cert more s ok e =
      let (body, rest, e_b, e_rest, len, r) =
        read_prefixed-add cb laws Width.w24 (add_bytes cert) more e in
      let same : body ≡ cert = ground arith in
      (rest, e_rest, omega (arith, len), r ∙ ap (λ (t : List ℕ). some (t, rest)) same)

  all_fine : (certs : List (List ℕ)) → All (λ cert. Unit {0}) certs
  all_fine [] = tt
  all_fine (cert ∷ certs) = (tt, all_fine certs)

  -- A session with a secret and with numbers in range comes back from the content of a ticket, but
  -- for usedOldKey, which is the receiver's.
  pub unmarshal-marshal_session_state :
      (m old : SessionState) {bytes : List ℕ}
      → m.vers < 65536
      → m.cipher_suite < 65536
      → m.created_at < 18446744073709551616
      → 0 < length m.master_secret
      → marshal cb m ≡ some bytes
      → unmarshal cb old bytes ≡ some (record m { used_old_key = old.used_old_key })
  unfolding marshal unmarshal
  unmarshal-marshal_session_state m old v c t secret e =
      let (s1, e1, len1, r1) = read_uint-add cb laws Width.w16 m.vers _ v e in
      let (s2, e2, len2, r2) = read_uint-add cb laws Width.w16 m.cipher_suite _ c e1 in
      let (s3, e3, r3) = read_uint64-add m.created_at _ t e2 in
      let (s4, e4, less, r4) = read_some-add cb laws Width.w16 m.master_secret _ s3 secret e3 in
      let (body, left, e_b, e_left, len5, r5) =
        read_prefixed-add cb laws Width.w24 _ (some []) e4 in
      let certs =
        read_list-each _ (λ cert. add_prefixed cb Width.w24 (add_bytes cert))
          (cb.read_prefixed Width.w24) certificate-Parses m.certificates (all_fine m.certificates)
          e_b in
      let nothing : left ≡ [] = ground arith in rw (r1, r2, r3, r4, r5, certs, nothing)

  -- A TLS 1.3 session with a secret, numbers in range and a certificate without empty parts comes
  -- back from the content of a ticket.
  pub unmarshal-marshal_session_state13 :
      (m : SessionState13) {bytes : List ℕ}
      → m.cipher_suite < 65536
      → m.created_at < 18446744073709551616
      → 0 < length m.resumption_secret
      → IsCanonical m.certificate
      → marshal13 cb m ≡ some bytes
      → unmarshal13 cb bytes ≡ some m
  unfolding marshal13 unmarshal13 marshal_certificate unmarshal_certificate
  unmarshal-marshal_session_state13 m c t secret ok e =
      let (s1, e1, len1, r1) = read_uint-add cb laws Width.w16 version_tls13 _ (omega arith) e in
      let (s2, e2, len2, r2) = read_uint-add cb laws Width.w8 0 _ (omega arith) e1 in
      let (s3, e3, len3, r3) = read_uint-add cb laws Width.w16 m.cipher_suite _ c e2 in
      let (s4, e4, r4) = read_uint64-add m.created_at _ t e3 in
      let (s5, e5, less, r5) = read_some-add cb laws Width.w8 m.resumption_secret _ s4 secret e4 in
      let (body, left, e_b, e_left, len6, r6) =
        read_prefixed-add cb laws Width.w24 (entries cb m.certificate 0 m.certificate.chain)
          (some []) e5 in
      let chain = read_entries-entries cb laws m.certificate body ok e_b in
      let nothing : left ≡ [] = ground arith in rw (r1, r2, r3, r4, r5, r6, chain, nothing)
