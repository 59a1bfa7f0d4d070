-- ===== src/Messages/Alpn.antt =====
-- The ALPN extension of a server, which holds one protocol.
use goktls.Base.{ℕ, ◌<◌, ◌≡◌, not, List, [], Option, none, some, length, if◌then◌else◌, arith}
use goktls.Wire.{Width, CryptoByte, IsLawful}
use goktls.Wire.Build.{
  Builder, ◌>>=◌, add_bytes, add_prefixed, is_empty, is_empty-eq_false, read_prefixed-only,
}
use goktls.Wire.Lists.{read_some}

module _ (cb : CryptoByte) where
  unfoldable pub one_protocol : List ℕ → Builder
  one_protocol proto = add_prefixed cb Width.w16 (add_prefixed cb Width.w8 (add_bytes proto))

  unfoldable pub read_protocol : List ℕ → Option (List ℕ × List ℕ)
  read_protocol ext_data = do
    (proto_list, left) ← read_some cb Width.w16 ext_data
    (proto, others) ← read_some cb Width.w8 proto_list
    if not (is_empty others) then none else some (proto, left)

  module _ (laws : IsLawful cb) where
    pub read_protocol-only :
        (proto : List ℕ) {s : List ℕ}
        → 0 < length proto
        → one_protocol proto ≡ some s
        → read_protocol s ≡ some (proto, [])
    unfolding one_protocol read_protocol read_some
    read_protocol-only proto long e =
        let (body, e_body, len, e_read) = read_prefixed-only cb laws Width.w16 _ e in
        let (inner, e_inner, len', e_read') =
          read_prefixed-only cb laws Width.w8 (add_bytes proto) e_body in
        let same : inner ≡ proto = ground arith in
        let some_of : 0 < length body = omega arith in
        rw (e_read, is_empty-eq_false body some_of, e_read', same, is_empty-eq_false proto long)
