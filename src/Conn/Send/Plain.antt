-- ===== src/Conn/Send/Plain.antt =====
-- Sending before any cipher is set, with buffering: the records of the handshake's first messages.
use goktls.Base.{
  ℕ, zero, suc, ◌+◌, ◌≤◌, ◌<◌, ◌≡◌, ◌≢◌, ◌∙◌, refl, ap, sym, true, List, [], ◌∷◌, ◌++◌, Option,
  none, some, arith, append_assoc, append-nil, length, length-append, take, drop, All,
  take-append-drop, length-take, length-drop, inl, inr, Option-cases,
}
use goktls.Cipher.{Ops, absent}
use goktls.Conn.Send.Fragments.{max_payload_size_for_write_bounds, round_goes_on}
use goktls.Conn.Send.{
  payload_bytes, max_payload_size_for_write, header_of, send_fragment, send_fragments, write,
  WriteResult,
}
use goktls.Conn.{Conn, Network, returns}
use goktls.Protocol.{max_plaintext}
use goktls.Record.HalfConn.{explicit_nonce_len, HalfConn}
use goktls.Record.Protect.{encrypt}

-- The records that carry the payloads.
abbrev pub frames : ℕ → ℕ → List (List ℕ) → List ℕ
frames typ vers [] = []
frames typ vers (p ∷ ps) = (header_of typ vers (length p) ++ p) ++ frames typ vers ps

abbrev pub joined : List (List ℕ) → List ℕ
joined [] = []
joined (p ∷ ps) = p ++ joined ps

abbrev finished : ℕ → Conn → Option WriteResult
finished k c = some (returns (k, none) c)

-- A payload that a record may carry.
abbrev pub Fits : List ℕ → Type 0
Fits p = (0 < length p) × (length p ≤ max_plaintext)

module _ (ops : Ops) (net : Network) where
  plain_found :
      (c : Conn) (typ : ℕ) → c.out.cipher ≡ absent → max_payload_size_for_write ops c typ ≢ none
  unfolding max_payload_size_for_write payload_bytes explicit_nonce_len
  plain_found c typ h e = ground arith

  plain_positive :
      (c : Conn) (typ m : ℕ) (c' : Conn)
      → c.out.cipher ≡ absent
      → max_payload_size_for_write ops c typ ≡ some (m, c')
      → 0 < m
  unfolding max_payload_size_for_write payload_bytes explicit_nonce_len
  plain_positive c typ m c' h e = ground arith

  plain_fragment :
      (c : Conn) (typ : ℕ) (payload : List ℕ)
      → c.out.cipher ≡ absent
      → c.buffering ≡ true
      → send_fragment ops net c typ payload
        ≡ returns none (record c {
          send_buf = c.send_buf ++ (header_of typ c.vers (length payload) ++ payload);
        })
  unfolding send_fragment encrypt write
  plain_fragment c typ payload h b = ground arith

  -- What a state keeps while fragments are sent.
  abbrev Like : Conn → Conn → Type 0
  Like c c' = (c'.out ≡ c.out) × (c'.vers ≡ c.vers) × (c'.buffering ≡ c.buffering)

  max_payload_keeps :
      (c : Conn) (typ m : ℕ) (c' : Conn)
      → max_payload_size_for_write ops c typ ≡ some (m, c')
      → Like c c' × (c'.send_buf ≡ c.send_buf)
  unfolding max_payload_size_for_write
  max_payload_keeps c typ m c' e = ((ground arith, ground arith, ground arith), ground arith)

  -- Without a cipher and with buffering, writeRecordLocked's loop ends without an error on any
  -- fuel of at least the data's length: all of the data is cut into payloads of 1 to 2^14 bytes,
  -- whose records are appended to sendBuf, and the cipher state and the version stay as they are.
  pub send_fragments-plain :
      (fuel : ℕ) (c : Conn) (typ : ℕ) (block : List ℕ) (n : ℕ)
      → c.out.cipher ≡ absent
      → c.buffering ≡ true
      → length block ≤ fuel
      → (payloads : List (List ℕ)) × (c' : Conn) × (send_fragments ops net fuel c typ block n
          ≡ some (returns (n + length block, none) c'))
        × (joined payloads ≡ block)
        × All Fits payloads
        × (c'.send_buf ≡ c.send_buf ++ frames typ c.vers payloads)
        × (c'.out ≡ c.out)
        × (c'.vers ≡ c.vers)
  send_fragments-plain fuel c typ [] n h b le =
      unfold send_fragments in
      ([], c, ground arith, refl, tt, sym (append-nil c.send_buf), refl, refl)
  send_fragments-plain zero c typ (x ∷ xs) n h b le = absurd (omega arith)
  send_fragments-plain (suc fuel) c typ (x ∷ xs) n h b le =
      elim (Option-cases (max_payload_size_for_write ops c typ)) [
        | inl missing ↦ absurd (plain_found c typ h missing)
        | inr ((m, c1), found) ↦
            let (like, same) = max_payload_keeps c typ m c1 found in
            let positive = plain_positive c typ m c1 h found in
            let bound = (max_payload_size_for_write_bounds ops c typ found).0 in
            let p : List ℕ = take m (x ∷ xs) in
            let h1 : c1.out.cipher ≡ absent = ap (λ (o : HalfConn). o.cipher) like.0 ∙ h in
            let b1 : c1.buffering ≡ true = like.2 ∙ b in
            let sent = plain_fragment c1 typ p h1 b1 in
            let c2 : Conn = record c1 {
              send_buf = c1.send_buf ++ (header_of typ c1.vers (length p) ++ p);
            } in
            let cut = length-drop m (x ∷ xs) in
            let (ps, c3, run, all, fits, buf, out, vers) =
              send_fragments-plain fuel c2 typ (drop m (x ∷ xs)) (n + length p) h1 b1
                (omega arith) in
            let whole = length-append p (drop m (x ∷ xs)) in
            let sum : n + length p + length (drop m (x ∷ xs)) ≡ n + length (x ∷ xs) =
              omega (arith, whole, ap length (take-append-drop m (x ∷ xs))) in
            (
              p ∷ ps,
              c3,
              round_goes_on ops net fuel c typ x xs n m c1 found c2 sent
                  ∙ run
                  ∙ ap (λ (k : ℕ). finished k c3) sum,
              ap (◌++◌ p) all ∙ take-append-drop m (x ∷ xs),
              (
                (omega (arith, length-take m (x ∷ xs)), omega (arith, length-take m (x ∷ xs))),
                fits,
              ),
              buf
                  ∙ append_assoc c1.send_buf (header_of typ c1.vers (length p) ++ p)
                      (frames typ c1.vers ps)
                  ∙ ap
                      (λ (s : List ℕ).
                        s ++ ((header_of typ c1.vers (length p) ++ p) ++ frames typ c1.vers ps))
                      same
                  ∙ ap
                      (λ (v : ℕ).
                        c.send_buf ++ ((header_of typ v (length p) ++ p) ++ frames typ v ps))
                      like.1,
              out ∙ like.0,
              vers ∙ like.1,
            )
      ]
