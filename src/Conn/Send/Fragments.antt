-- ===== src/Conn/Send/Fragments.antt =====
-- How data is cut into records.
use goktls.Base.{ℕ, suc, ◌+◌, ◌≤◌, ◌≡◌, List, ◌∷◌, none, some, arith, length, take, drop}
use goktls.Cipher.{Ops}
use goktls.Conn.{Conn, Network, returns, panics}
use goktls.Conn.Send.{max_payload_size_for_write, send_fragment, send_fragments}
use goktls.Protocol.{max_plaintext}
use goktls.Record.HalfConn.{ConnError}

-- Whatever the cipher, where maxPayloadSizeForWrite does not panic it gives at most 2^14, and only
-- the count of packets changes, by one at most.
pub max_payload_size_for_write_bounds :
    (ops : Ops) (c : Conn) (typ : ℕ) {m : ℕ} {c' : Conn}
    → max_payload_size_for_write ops c typ ≡ some (m, c')
    → (m ≤ max_plaintext)
      × (c' ≡ record c { packets_sent = c'.packets_sent })
      × (c.packets_sent ≤ c'.packets_sent)
      × (c'.packets_sent ≤ c.packets_sent + 1)
unfolding max_payload_size_for_write
max_payload_size_for_write_bounds ops c typ e =
    (ground arith, ground arith, ground arith, ground arith)

-- A round of the loop, by what max_payload_size_for_write and send_fragment give.
module _ (ops : Ops) (net : Network) (fuel : ℕ) (c : Conn) (typ b : ℕ) (bs : List ℕ) (n : ℕ) where
  pub round_missing :
      max_payload_size_for_write ops c typ ≡ none
      → send_fragments ops net (suc fuel) c typ (b ∷ bs) n ≡ some panics
  unfolding send_fragments
  round_missing e = rw (e, send_fragments)

  module _ (m : ℕ) (c1 : Conn) (found : max_payload_size_for_write ops c typ ≡ some (m, c1)) where
    pub round_panics :
        send_fragment ops net c1 typ (take m (b ∷ bs)) ≡ panics
        → send_fragments ops net (suc fuel) c typ (b ∷ bs) n ≡ some panics
    unfolding send_fragments
    round_panics e = rw (found, send_fragments, e)

    pub round_fails :
        (x : ConnError) (c2 : Conn)
        → send_fragment ops net c1 typ (take m (b ∷ bs)) ≡ returns (some x) c2
        → send_fragments ops net (suc fuel) c typ (b ∷ bs) n ≡ some (returns (n, some x) c2)
    unfolding send_fragments
    round_fails x c2 e = rw (found, send_fragments, e)

    pub round_goes_on :
        (c2 : Conn)
        → send_fragment ops net c1 typ (take m (b ∷ bs)) ≡ returns none c2
        → send_fragments ops net (suc fuel) c typ (b ∷ bs) n
          ≡ send_fragments ops net fuel c2 typ (drop m (b ∷ bs)) (n + length (take m (b ∷ bs)))
    unfolding send_fragments
    round_goes_on c2 e = rw (found, send_fragments, e)
