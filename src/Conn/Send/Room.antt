-- ===== src/Conn/Send/Room.antt =====
-- The room for a payload in each record, and the end of the loop of writeRecordLocked.
use goktls.Base.{
  ℕ, zero, suc, ◌+◌, ◌*◌, ◌≤◌, ◌<◌, ◌≡◌, ◌⊎◌, ◌∙◌, refl, ap, List, [], ◌∷◌, Option, none, some,
  arith, length, length-append, length-drop, take, drop, take-append-drop, inl, inr, Option-cases,
}
use goktls.Cipher.{Cipher, Ops, absent, stream, aead, cbc, ktls}
use goktls.Conn.Send.Fragments.{round_missing, round_panics, round_fails, round_goes_on}
use goktls.Conn.Send.{
  payload_bytes, max_payload_size_for_write, send_fragment, send_fragments, header_of, write,
}
use goktls.Conn.{Conn, Network, returns, panics, Outcome-cases}
use goktls.Record.HalfConn.{HalfConn, ConnError, explicit_nonce_len}
use goktls.Record.Protect.Block.{HasKnownBlock, encrypt_keeps}
use goktls.Record.Protect.Values.{Result-cases}
use goktls.Record.Protect.{encrypt}

-- AEADs and MACs that add a few bytes to a record, as all of crypto/cipher and crypto/hmac.
pub record IsModest (ops : Ops) : Type 0 where
  pub overhead : (h : ℕ) → ops.overhead h ≤ 256
  pub mac_size : (h : ℕ) → ops.mac_size h ≤ 64

module _ (ops : Ops) (modest : IsModest ops) where
  payload_positive :
      (hc : HalfConn) (cipher : Cipher) (vers m : ℕ)
      → hc.cipher ≡ cipher
      → HasKnownBlock cipher
      → payload_bytes ops hc vers ≡ some m
      → 0 < m
  unfolding payload_bytes explicit_nonce_len
  payload_positive hc absent vers m e known found = ground arith
  payload_positive hc (stream h) vers m e known found = elim (Option-cases hc.mac) [
    | inl missing ↦ absurd (ground arith)
    | inr (mac, here) ↦ ground (arith, modest.mac_size mac)
  ]
  payload_positive hc (aead a) vers m e known found = ground (arith, modest.overhead a.handle)
  payload_positive hc (cbc c) vers m e known found = elim (Option-cases hc.mac) [
    | inl missing ↦ absurd (ground arith)
    | inr (mac, here) ↦ elim known [
      | inl eight ↦ ground (arith, eight, modest.mac_size mac)
      | inr sixteen ↦ ground (arith, sixteen, modest.mac_size mac)
    ]
  ]
  payload_positive hc ktls vers m e known found = ground arith

  product_positive : (a k : ℕ) → 0 < a → 0 < a * (k + 1)
  product_positive a k h = grind arith

  max_payload_positive :
      (c : Conn) (typ m : ℕ) (c' : Conn)
      → HasKnownBlock c.out.cipher
      → max_payload_size_for_write ops c typ ≡ some (m, c')
      → (0 < m) × (c'.out ≡ c.out)
  unfolding max_payload_size_for_write
  max_payload_positive c typ m c' known found =
      elim (Option-cases (payload_bytes ops c.out c.vers)) [
        | inl missing ↦ (ground (arith, missing), ground arith)
        | inr (p, here) ↦
            let positive = payload_positive c.out c.out.cipher c.vers p refl known here in
            (ground (arith, product_positive p c.packets_sent positive), ground arith)
      ]

  module _ (net : Network) where
    fragment_keeps :
        (c : Conn) (typ : ℕ) (payload : List ℕ) (c' : Conn)
        → HasKnownBlock c.out.cipher
        → send_fragment ops net c typ payload ≡ returns none c'
        → HasKnownBlock c'.out.cipher
    unfolding send_fragment write
    fragment_keeps c typ payload c' known sent =
        let header = header_of typ c.vers (length payload) in
        elim (Result-cases (encrypt ops net.rand c.out header payload)) [
          | inl ((rec, out), p) ↦
              let same : c'.out ≡ out = ground (arith, p) in
              rw same (encrypt_keeps ops net.rand c.out header payload rec out known p)
          | inr (inl (a, p)) ↦ absurd (ground (arith, p))
          | inr (inr (inl (m, p))) ↦ absurd (ground (arith, p))
          | inr (inr (inr p)) ↦ absurd (ground (arith, p))
        ]

    -- With an AEAD or MAC that adds a few bytes and a block cipher of 8 or 16 bytes, the loop ends
    -- on any fuel of at least the data's length: it panics, or it returns, counted from n on, the
    -- length of all of the data if there is no error, and no more than that in any case.
    pub send_fragments_count :
        (fuel : ℕ) (c : Conn) (typ : ℕ) (block : List ℕ) (n : ℕ)
        → HasKnownBlock c.out.cipher
        → length block ≤ fuel
        → (send_fragments ops net fuel c typ block n ≡ some panics)
          ⊎ ((n' : ℕ) × (e : Option ConnError) × (c' : Conn) × (send_fragments ops net fuel c typ
                  block n
                ≡ some (returns (n', e) c'))
              × (n' ≤ n + length block)
              × (e ≡ none → n' ≡ n + length block))
    send_fragments_count fuel c typ [] n known enough =
        inr (n, none, c, unfold send_fragments in refl, ground (arith), λ z. ground arith)
    send_fragments_count zero c typ (b ∷ bs) n known enough = absurd (omega arith)
    send_fragments_count (suc fuel) c typ (b ∷ bs) n known enough =
        elim (Option-cases (max_payload_size_for_write ops c typ)) [
          | inl missing ↦ inl (round_missing ops net fuel c typ b bs n missing)
          | inr ((m, c1), found) ↦
              let (positive, out) = max_payload_positive c typ m c1 known found in
              let known1 : HasKnownBlock c1.out.cipher = rw out known in
              elim (Outcome-cases (send_fragment ops net c1 typ (take m (b ∷ bs)))) [
                | inl p ↦ inl (round_panics ops net fuel c typ b bs n m c1 found p)
                | inr (some x, c2, p) ↦ inr (
                  n,
                  some x,
                  c2,
                  round_fails ops net fuel c typ b bs n m c1 found x c2 p,
                  omega (arith),
                  λ z. absurd (cc z),
                )
                | inr (none, c2, p) ↦
                    let known2 = fragment_keeps c1 typ (take m (b ∷ bs)) c2 known1 p in
                    let same = round_goes_on ops net fuel c typ b bs n m c1 found c2 p in
                    let cut = ap length (take-append-drop m (b ∷ bs)) in
                    let sum = length-append (take m (b ∷ bs)) (drop m (b ∷ bs)) in
                    let less = length-drop m (b ∷ bs) in
                    elim (send_fragments_count fuel c2 typ (drop m (b ∷ bs))
                      (n + length (take m (b ∷ bs))) known2 (omega arith)) [
                        | inl q ↦ inl (same ∙ q)
                        | inr (n', e, c', q, most, all) ↦ inr (
                          n',
                          e,
                          c',
                          same ∙ q,
                          omega (arith, most, cut, sum),
                          λ z. omega (arith, all z, cut, sum),
                        )
                      ]
              ]
        ]
