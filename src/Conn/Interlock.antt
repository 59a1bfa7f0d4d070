-- ===== src/Conn/Interlock.antt =====
-- The interlock of Write and Close in conn.go: c.activeCall counts the Writes in flight by twos and
-- keeps in its lowest bit whether Close has been called. The int32 is the number of its 32 bits, and
-- wraps around.
use goktls.Base.{
  ℕ, ◌+◌, ◌-◌, ◌*◌, ◌%◌, ◌^◌, ◌≤◌, ◌<◌, ◌≡◌, Bool, true, false, Option, none, some, ◌==◌,
  if◌then◌else◌, arith,
}

-- The first loop of Write, at the round whose CompareAndSwap succeeds; `none` is net.ErrClosed.
unfoldable pub begin_write : ℕ → Option ℕ
begin_write x = if x % 2 == 0 then some ((x + 2) % 2 ^ 32) else none

-- The deferred c.activeCall.Add(-2).
unfoldable pub end_write : ℕ → ℕ
end_write x = (x + 2 ^ 32 - 2) % 2 ^ 32

-- The first loop of Close: the new value, and whether Close goes on to closeNotify, which it does
-- where the old value was 0. An even value has the bit free, so that `|` adds it.
unfoldable pub begin_close : ℕ → Option (ℕ × Bool)
begin_close x = if x % 2 == 0 then some (x + 1, x == 0) else none

-- What the goroutines have done so far: the Writes in flight, the Closes that went through, and
-- whether one of them went on to closeNotify.
pub record Calls : Type 0 where
  pub active_call : ℕ
  pub writing : ℕ
  pub closes : ℕ
  pub notifies : Bool

abbrev pub at_rest : Calls
at_rest = record { active_call = 0; writing = 0; closes = 0; notifies = false }

-- One atomic operation of some goroutine. A call that is refused changes nothing.
pub data Step : Calls → Calls → Type 0 where
  write_begins :
      (s : Calls) (x : ℕ)
      → begin_write s.active_call ≡ some x
      → Step s (record s { active_call = x; writing = s.writing + 1 })
  write_ends :
      (s : Calls)
      → 0 < s.writing
      → Step s (record s { active_call = end_write s.active_call; writing = s.writing - 1 })
  close_begins :
      (s : Calls) (x : ℕ) (alone : Bool)
      → begin_close s.active_call ≡ some (x, alone)
      → Step s (record s {
        active_call = x;
        closes = s.closes + 1;
        notifies = if alone then true else s.notifies;
      })

-- What the steps lead to where `most` Writes are in flight at once at most.
pub data Reach (most : ℕ) : Calls → Type 0 where
  rest : Reach most at_rest
  next : {s t : Calls} → Reach most s → Step s t → t.writing ≤ most → Reach most t

-- activeCall is what it stands for, Close goes through once at most, and beside a closeNotify no Write
-- is in flight.
abbrev pub IsConsistent : Calls → Type 0
IsConsistent s =
    (s.active_call ≡ 2 * s.writing + s.closes)
    × (s.closes ≤ 1)
    × (s.notifies ≡ true → (s.closes ≡ 1) × (s.writing ≡ 0))

Step-IsConsistent : {s t : Calls} → Step s t → t.writing < 2 ^ 31 → IsConsistent s → IsConsistent t
unfolding begin_write end_write begin_close
Step-IsConsistent (write_begins s x e) few (a, b, c) =
    (ground arith, ground arith, λ n. ground (arith, c))
Step-IsConsistent (write_ends s e) few (a, b, c) =
    (ground arith, ground arith, λ n. ground (arith, c))
Step-IsConsistent (close_begins s x alone e) few (a, b, c) =
    (ground arith, ground arith, λ n. ground (arith, c))

-- However the goroutines interleave, as long as fewer than 2^31 Writes are in flight at once:
-- c.activeCall is twice the Writes in flight, plus one after a Close; Close goes through once at
-- most; and while or after a Close that sends closeNotify, no Write is in flight.
pub Reach-IsConsistent : (most : ℕ) {s : Calls} → most < 2 ^ 31 → Reach most s → IsConsistent s
Reach-IsConsistent most small rest = (omega arith, omega arith, λ n. absurd (cc n))
Reach-IsConsistent most small (next r m few) =
    Step-IsConsistent m (omega arith) (Reach-IsConsistent most small r)
