-- ===== src/Ktls/Read/Laws.antt =====
-- What reading and writing through the kernel promise.
use goktls.Base.{
  ℕ, zero, suc, inr, none, ◌+◌, ◌≤◌, ◌<◌, ◌≡◌, ◌⊎◌, ◌↔◌, refl, List, ◌∷◌, Option, some, arith,
  length, take, length-take, take_of_length-le, get_or,
}
use goktls.Ktls.Read.{
  Attempt, again, received, read_record, read_data_from_record, Writer, limited_write, room,
  short_write, eof,
}
use goktls.Ktls.Release.{ℤ}
use goktls.Protocol.{record_type_application_data, record_type_alert, alert_close_notify}

-- EAGAIN is not seen by the caller.
pub read_record-again :
    (conn_error : Option ℕ) (deadline : ℕ) (attempts : List Attempt)
    → read_record conn_error deadline (again ∷ attempts) ≡ read_record conn_error deadline attempts
unfolding read_record
read_record-again none deadline attempts = refl
read_record-again (some e) deadline attempts = refl

-- A read of data for which recvmsg gives n bytes at once: it succeeds exactly if n is not 0 and the
-- control message is the kernel's TLS one for an application data record, and then returns n. The
-- error io.EOF is returned exactly for an empty read and for a close_notify alert of at least two
-- bytes.
pub read_data-received :
    (deadline n level cmsg typ : ℕ) (rest : List Attempt) (b : List ℕ)
    → let r = read_data_from_record none deadline (received n level cmsg typ ∷ rest) b in
      ((r.1 ≡ none) ↔ ((0 < n) × (level ≡ 282) × (cmsg ≡ 2) × (typ ≡ record_type_application_data)))
      × ((r.1 ≡ none) → r.0 ≡ n)
      × ((r.1 ≡ some eof) ↔ (
          (n ≡ 0)
          ⊎ ((level ≡ 282)
              × (cmsg ≡ 2)
              × (typ ≡ record_type_alert)
              × (2 ≤ n)
              × (get_or b 1 0 ≡ alert_close_notify))))
unfolding read_data_from_record
read_data-received deadline n level cmsg typ rest b = (
  (λ e. ground arith, λ h. ground arith),
  λ e. ground arith,
  (λ e. ground arith, λ h. ground arith),
)

-- With a writer that keeps to n ≤ len(p), and room for N bytes, or for none where N is negative:
-- the bytes passed on are the first ones of p that there is room for; what was written and the room
-- afterwards are together the room before; a write succeeds only if nothing of p was cut off and N
-- is above 0; and where N is 0 or less, N stays and the error is io.ErrShortWrite.
pub limited_write_bounds :
    (w : Writer) (limit : ℤ) (p : List ℕ)
    → ((q : List ℕ) → (w q).0 ≤ length q)
    → let r = limited_write w limit p in
      (r.passed ≡ take (room limit) p)
      × (r.n + room r.remaining ≡ room limit)
      × (r.error ≡ none → (r.passed ≡ p) × (0 < room limit))
      × ((0 < room limit) ⊎ ((r.remaining ≡ limit) × (r.error ≡ some short_write)))
unfolding limited_write
limited_write_bounds w (ℤ.negsuc m) p keeps = (refl, refl, (λ e. absurd (cc e)), inr (refl, refl))
limited_write_bounds w (ℤ.pos zero) p keeps = (refl, refl, (λ e. absurd (cc e)), inr (refl, refl))
limited_write_bounds w (ℤ.pos (suc k)) p keeps =
    ground
      (arith, keeps p, keeps (take (suc k) p), length-take (suc k) p, take_of_length-le (suc k) p)
