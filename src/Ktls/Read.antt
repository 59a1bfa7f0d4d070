-- ===== src/Ktls/Read.antt =====
-- Reading records from a kernel TLS socket, and the limited writer: ktlsReadRecord and
-- ktlsReadDataFromRecord of ktls_linux.go, LimitedWriter.Write of ktls_io.go.
pub mod Laws
use goktls.Base.{
  ℕ, ◌+◌, ◌-◌, Bool, true, false, not, List, [], ◌∷◌, Option, none, some, ◌==◌, leb, ltb,
  if◌then◌else◌, length, take, get_or,
}
use goktls.Ktls.Release.{ℤ}
use goktls.Ktls.Socket.{sol_tls}
use goktls.Protocol.{record_type_alert, record_type_application_data, alert_close_notify}

abbrev pub tls_get_record_type : ℕ
tls_get_record_type = 2

-- What one run of the function passed to rwc.Read sees: recvmsg is to be tried again (EAGAIN), or
-- fails with an errno, or gives n bytes beside the control message with its level, its type and
-- the byte of the record type.
pub data Attempt : Type 0 where
  again : Attempt
  failed : ℕ → Attempt
  received : (n level cmsg_type typ : ℕ) → Attempt

pub data ReadError : Type 0 where
  eof : ReadError
  errno : ℕ → ReadError
  closed : ℕ → ReadError
  unsupported_level : ℕ → ReadError
  unsupported_cmsg : ℕ → ReadError
  alert_too_short : ReadError
  unsupported_alert : ℕ → ReadError
  unsupported_record : ℕ → ReadError

-- The type, the size and the error of a read.
pub record Record : Type 0 where
  pub typ : ℕ
  pub n : ℕ
  pub error : Option ReadError

abbrev failing : ℕ → ReadError → Record
failing n e = record { typ = 0; n = n; error = some e }

-- The checks on the control message. A size of 0 without an error is turned into io.EOF.
abbrev check : ℕ → ℕ → ℕ → ℕ → Record
check n level cmsg_type typ =
    if n == 0
    then failing 0 eof
    else if not (level == sol_tls)
    then failing 0 (unsupported_level level)
    else if not (cmsg_type == tls_get_record_type)
    then failing 0 (unsupported_cmsg cmsg_type)
    else record { typ = typ; n = n; error = none }

-- ktlsReadRecord. The poller runs the function again for as long as it returns false; when the
-- attempts are over, rwc.Read fails with `deadline`, for example the error of a deadline that has
-- passed, after a last recvmsg that returned -1. `conn_error` is the error of c.SyscallConn.
pub read_record : Option ℕ → ℕ → List Attempt → Record
read_record (some e) deadline attempts = failing 0 (errno e)
read_record none deadline [] = failing 0 (closed deadline)
read_record none deadline (again ∷ rest) = read_record none deadline rest
read_record none deadline (failed e ∷ rest) = failing 0 (errno e)
read_record none deadline (received n level cmsg_type typ ∷ rest) = check n level cmsg_type typ

-- ktlsReadDataFromRecord, over the buffer b that the read has filled.
abbrev of_record : List ℕ → Record → ℕ × Option ReadError
of_record b r = elim r.error [
  | some e ↦ (r.n, some e)
  | none ↦
      if r.typ == record_type_alert
      then (if ltb r.n 2
          then (0, some alert_too_short)
          else if get_or b 1 0 == alert_close_notify
          then (0, some eof)
          else (0, some (unsupported_alert (get_or b 0 0))))
      else if r.typ == record_type_application_data
      then (r.n, none)
      else (0, some (unsupported_record r.typ))
]

pub read_data_from_record : Option ℕ → ℕ → List Attempt → List ℕ → ℕ × Option ReadError
unfolding read_record
read_data_from_record conn_error deadline attempts b =
    of_record b (read_record conn_error deadline attempts)

-- A LimitedWriter: the writer below takes bytes and says how many it has written, and with which
-- error. `short_write` is io.ErrShortWrite.
pub data WriteError : Type 0 where
  short_write : WriteError
  other : ℕ → WriteError

abbrev pub Writer : Type 0
Writer = List ℕ → ℕ × Option WriteError

pub record Written : Type 0 where
  pub remaining : ℤ
  pub passed : List ℕ
  pub n : ℕ
  pub error : Option WriteError

abbrev short_if : Bool → Option WriteError → Option WriteError
short_if truncated none = if truncated then some short_write else none
short_if truncated (some e) = some e

-- l.N <= 0.
abbrev pub is_spent : ℤ → Bool
is_spent (ℤ.pos n) = n == 0
is_spent (ℤ.negsuc n) = true

-- What an N above 0 still admits.
abbrev pub room : ℤ → ℕ
room (ℤ.pos n) = n
room (ℤ.negsuc n) = 0

-- l.N -= int64(n) for an N above 0.
abbrev subtract : ℕ → ℕ → ℤ
subtract limit n = if leb n limit then ℤ.pos (limit - n) else ℤ.negsuc (n - limit - 1)

-- LimitedWriter.Write with N = limit, an int64: what N is afterwards, the bytes passed on, and the
-- results. The writer below gives a number that is not negative, as io.Writer asks.
pub limited_write : Writer → ℤ → List ℕ → Written
limited_write w limit p =
    if is_spent limit
    then record { remaining = limit; passed = []; n = 0; error = some short_write }
    else (let truncated = ltb (room limit) (length p) in
        let q = if truncated then take (room limit) p else p in
        record {
          remaining = subtract (room limit) (w q).0;
          passed = q;
          n = (w q).0;
          error = short_if truncated (w q).1;
        })
