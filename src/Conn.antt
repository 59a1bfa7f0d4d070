-- ===== src/Conn.antt =====
-- A connection: the parts of Conn in conn.go that sending and receiving records uses. The network
-- below is a parameter.
pub mod Send
pub mod Receive
pub mod Interlock
pub mod Closing
use goktls.Base.{
  ℕ, ◌+◌, ◌≡◌, ◌⊎◌, inl, inr, refl, Bool, List, [], ◌∷◌, ◌++◌, Option, none, some, length,
  if◌then◌else◌,
}
use goktls.Record.HalfConn.{HalfConn, ConnError}

-- `sent` is what c.conn and the kernel's control messages were handed, the newest first.
pub data Sent : Type 0 where
  bytes : List ℕ → Sent
  control : ℕ → List ℕ → Sent

-- What a Read of c.conn gives, and what ktlsReadRecord gives: a record or its error.
pub data Arrival : Type 0 where
  chunk : List ℕ → Option ConnError → Arrival

pub data KernelRecord : Type 0 where
  received : ℕ → List ℕ → KernelRecord
  failed : ConnError → KernelRecord

-- `incoming` and `kernel_records` are what the reads to come will give; after the last of them the
-- peer has closed.
pub record Conn : Type 0 where
  pub vers : ℕ
  pub have_vers : Bool
  pub handshake_complete : Bool
  pub dynamic_record_sizing_disabled : Bool
  pub input_half : HalfConn
  pub out : HalfConn
  pub raw_input : List ℕ
  pub input : List ℕ
  pub hand : List ℕ
  pub buffering : Bool
  pub send_buf : List ℕ
  pub bytes_sent : ℕ
  pub packets_sent : ℕ
  pub retry_count : ℕ
  pub sent : List Sent
  pub incoming : List Arrival
  pub kernel_records : List KernelRecord

-- c.conn.Write and the sendmsg of ktlsSendCtrlMessage: how many bytes they take and the error, by
-- what was sent before. `rand` is the random source of the configuration.
pub record Network : Type 0 where
  pub write_answer : List Sent → List ℕ → ℕ × Option ConnError
  pub control_answer : List Sent → ℕ → List ℕ → ℕ × Option ConnError
  pub rand : ℕ → Option (List ℕ)

-- A call on a Conn: it returns with the state after it, or panics.
pub data Outcome {ℓ} (A : Type ℓ) : Type ℓ where
  returns : A → Conn → Outcome A
  panics : Outcome A

pub Outcome-cases {ℓ} :
    {A : Type ℓ} (o : Outcome A) → (o ≡ panics) ⊎ ((a : A) × (c : Conn) × (o ≡ returns a c))
Outcome-cases panics = inl refl
Outcome-cases (returns a c) = inr (a, c, refl)
