-- ===== src/Ktls/Socket.antt =====
-- The system calls of ktls_cipher_linux.go on a TCP socket. Their answers are a parameter: a
-- function of the calls made before and of the call. The history holds each call with its answer,
-- the newest first.
use goktls.Base.{ℕ, List, [], ◌∷◌, Option, none, some, Bool, false, ◌&&◌, ◌||◌, ◌==◌, is_none}

pub data Call : Type 0 where
  sockopt_string : (level opt : ℕ) → List ℕ → Call
  sockopt_int : (level opt value : ℕ) → Call

pub record Event : Type 0 where
  pub call : Call
  pub answer : Option ℕ

abbrev pub History : Type 0
History = List Event

-- `syscall_conn` and `control` are the errors of c.SyscallConn and of rwc.Control; where control
-- fails it does not run its function. The errors of setsockopt are error numbers. `native_uint16` is
-- how the machine stores a uint16, its first byte and its second.
pub record Kernel : Type 0 where
  pub syscall_conn : History → Option ℕ
  pub control : History → Option ℕ
  pub native_uint16 : ℕ → ℕ × ℕ
  pub setsockopt : History → Call → Option ℕ

abbrev pub sol_tcp : ℕ
sol_tcp = 6

abbrev pub tcp_ulp : ℕ
tcp_ulp = 31

abbrev pub sol_tls : ℕ
sol_tls = 282

abbrev pub tls_tx : ℕ
tls_tx = 1

abbrev pub tls_rx : ℕ
tls_rx = 2

abbrev pub tls_tx_zerocopy_ro : ℕ
tls_tx_zerocopy_ro = 3

abbrev pub tls_rx_expect_no_pad : ℕ
tls_rx_expect_no_pad = 4

-- setsockopt(SOL_TCP, TCP_ULP, "tls").
abbrev pub ulp_call : Call
ulp_call = sockopt_string sol_tcp tcp_ulp (b't' ∷ b'l' ∷ b's' ∷ [])

abbrev pub perform : Kernel → Call → History → History × Option ℕ
perform k c h = (record { call = c; answer = k.setsockopt h c } ∷ h, k.setsockopt h c)

-- The rest of each function of the file: `rwc, err := c.SyscallConn()`, then rwc.Control around
-- the calls.
abbrev pub controlled : Kernel → (History → History × Option ℕ) → History → History × Option ℕ
controlled k calls h = elim (k.syscall_conn h) [
  | some e ↦ (h, some e)
  | none ↦ elim (k.control h) [ some e ↦ (h, some e) | none ↦ calls h ]
]

-- The kernel has taken over a direction: it has answered the option TLS_TX or TLS_RX with success.
abbrev accepts : ℕ → Event → Bool
accepts opt e = elim e.call [
  | sockopt_string level o info ↦ (level == sol_tls) && ((o == opt) && is_none e.answer)
  | sockopt_int level o value ↦ false
]

abbrev pub offloaded : ℕ → History → Bool
offloaded opt [] = false
offloaded opt (e ∷ h) = accepts opt e || offloaded opt h
