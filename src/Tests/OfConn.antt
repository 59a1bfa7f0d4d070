-- ===== src/Tests/OfConn.antt =====
-- Tests and examples of sending and receiving records.
use goktls.Base.{
  ℕ, ◌+◌, ◌≤◌, ◌≡◌, ◌≢◌, ◌⊎◌, refl, true, false, List, [], ◌∷◌, ◌++◌, Option, none, some, All,
  arith, length, replicate,
}
use goktls.Cipher.{absent, aead, xor_nonce}
use goktls.Conn.Interlock.{
  Calls, at_rest, begin_write, end_write, begin_close, Reach, rest, next, write_begins, write_ends,
  close_begins, IsConsistent, Reach-IsConsistent,
}
use goktls.Conn.Receive.Contract.{Progress, read_record_or_ccs-Progress}
use goktls.Conn.Receive.Termination.{read_record_or_ccs-answers}
use goktls.Conn.Receive.Fetch.{
  read_from, read_from_until, fetch, fetch_record, check_header, fetch_body,
}
use goktls.Conn.Receive.Deliver.{handle, deliver, deliver_handshake, reset_retries}
use goktls.Conn.Receive.Loop.{read_one, read_record_or_ccs}
use goktls.Conn.Send.Room.{IsModest, send_fragments_count}
use goktls.Conn.Send.Plain.{frames, joined, Fits, send_fragments-plain}
use goktls.Conn.Send.{send_fragments}
use goktls.Conn.{Conn, returns, panics, chunk}
use goktls.Record.HalfConn.{ConnError, explicit_nonce_len}
use goktls.Record.Protect.{decrypt}
use goktls.Record.Seq.{inc_seq, increment}
use goktls.Tests.Data.{toy_ops, open_network, half, fresh}

-- A handshake record of two bytes, in two pieces.
abbrev arriving : Conn
arriving = fresh (chunk (22 ∷ 3 ∷ 1 ∷ []) none ∷ chunk (0 ∷ 2 ∷ 1 ∷ 0 ∷ []) none ∷ [])

abbrev arrived : Conn
arrived = record (fresh []) {
  hand = 1 ∷ 0 ∷ [];
  input_half = record (half 0 absent) { seq = replicate 7 0 ++ 1 ∷ [] };
}

handshake_is_read :
    read_record_or_ccs toy_ops open_network 17 false arriving ≡ some (returns none arrived)
unfolding read_record_or_ccs read_one fetch fetch_record check_header fetch_body read_from_until
    read_from handle deliver deliver_handshake reset_retries decrypt inc_seq increment
    explicit_nonce_len
handshake_is_read = refl

read_record_or_ccs-Progress_example : Progress false arriving arrived
read_record_or_ccs-Progress_example =
    read_record_or_ccs-Progress toy_ops open_network false 17 arriving arrived handshake_is_read

read_record_or_ccs-answers_example :
    read_record_or_ccs toy_ops open_network 17 false arriving ≢ none
read_record_or_ccs-answers_example =
    read_record_or_ccs-answers toy_ops open_network 17 false arriving (omega arith) (omega arith)

abbrev hello : List ℕ
hello = 1 ∷ 2 ∷ 3 ∷ []

send_fragments-plain_example :
    (payloads : List (List ℕ)) × (c' : Conn) × (send_fragments toy_ops open_network 3
        (fresh [])
        22
        hello
        0
      ≡ some (returns (0 + length hello, none) c'))
    × (joined payloads ≡ hello)
    × All Fits payloads
    × (c'.send_buf ≡ [] ++ frames 22 0 payloads)
    × (c'.out ≡ half 0 absent)
    × (c'.vers ≡ 0)
send_fragments-plain_example =
    send_fragments-plain toy_ops open_network 3 (fresh []) 22 hello 0 refl refl (omega arith)

toy_ops-IsModest : IsModest toy_ops
toy_ops-IsModest = record { overhead = λ h. omega arith; mac_size = λ h. omega arith }

-- Under TLS 1.3, with an AEAD.
abbrev protected : Conn
protected = record (fresh []) {
  vers = 0x304;
  out = half 0x304 (aead (record { form = xor_nonce; nonce = replicate 12 0; handle = 0 }));
}

send_fragments_count_example :
    (send_fragments toy_ops open_network 3 protected 22 hello 0 ≡ some panics)
    ⊎ ((n' : ℕ) × (e : Option ConnError) × (c' : Conn) × (send_fragments toy_ops open_network 3
            protected 22 hello 0
          ≡ some (returns (n', e) c'))
        × (n' ≤ 0 + length hello)
        × (e ≡ none → n' ≡ 0 + length hello))
send_fragments_count_example =
    send_fragments_count toy_ops toy_ops-IsModest open_network 3 protected 22 hello 0 tt
      (omega arith)

-- A Write, and a Close after it.
abbrev closed : Calls
closed = record { active_call = 1; writing = 0; closes = 1; notifies = true }

write_then_close : Reach 1 closed
unfolding begin_write end_write begin_close
write_then_close =
    next
      (next (next rest (write_begins at_rest 2 refl) (omega arith))
        (write_ends (record at_rest { active_call = 2; writing = 1 }) (omega arith)) (omega arith))
      (close_begins at_rest 1 true refl) (omega arith)

Reach-IsConsistent_example : IsConsistent closed
Reach-IsConsistent_example = Reach-IsConsistent 1 (omega arith) write_then_close
