-- ===== src/Record/Seq.antt =====
-- The sequence number of a halfConn in conn.go: eight bytes, the most significant first.
use native.Mathlib.Decide.{ℕ_discrete}
use native.Mathlib.Nat.{pow-suc}
use goktls.Base.{
  ℕ, ◌+◌, ◌*◌, ◌%◌, ◌^◌, ◌≤◌, ◌<◌, ◌≡◌, ◌-◌, ◌∙◌, ◌≢◌, ◌↔◌, refl, Bool, true, false, List, [], ◌∷◌,
  Option, none, some, arith, ◌==◌, if◌then◌else◌, length, All, IsByte, Bool-cases, inl, inr,
}

-- The loop of incSeq, from the last byte up: the new bytes, and whether all of them became zero.
unfoldable pub increment : List ℕ → List ℕ × Bool
increment [] = ([], true)
increment (b ∷ bs) =
    let (bs', carry) = increment bs in
    if carry then ((b + 1) % 256 ∷ bs', (b + 1) % 256 == 0) else (b ∷ bs', false)

-- incSeq; `none` is its panic, "TLS: sequence number wraparound".
unfoldable pub inc_seq : List ℕ → Option (List ℕ)
unfolding increment
inc_seq seq = if (increment seq).1 then none else some (increment seq).0

-- The number that the bytes stand for.
unfoldable pub value : List ℕ → ℕ
value [] = 0
value (b ∷ bs) = b * 256 ^ length bs + value bs

byte_mul_le : (b p : ℕ) → b < 256 → b * p ≤ 255 * p
byte_mul_le b p h = grind arith

value-lt : (bs : List ℕ) → All IsByte bs → value bs < 256 ^ length bs
unfolding value
value-lt [] h = omega arith
value-lt (b ∷ bs) h =
    omega (arith, value-lt bs h.1, byte_mul_le b (256 ^ length bs) h.0, pow-suc 256 (length bs))

-- The carry out of the bytes stands for one more power of 256.
abbrev carried : List ℕ → Bool → ℕ
carried bs carry = if carry then 256 ^ length bs else 0

length-increment : (bs : List ℕ) → length (increment bs).0 ≡ length bs
unfolding increment
length-increment [] = refl
length-increment (b ∷ bs) = ground (arith, length-increment bs)

increment-All : (bs : List ℕ) → All IsByte bs → All IsByte (increment bs).0
unfolding increment
increment-All [] h = tt
increment-All (b ∷ bs) h = ground (arith, increment-All bs h.1)

byte_succ :
    (b p v v' : ℕ)
    → b < 256
    → v' + p ≡ v + 1
    → ((b + 1) % 256) * p + v' + (if (b + 1) % 256 == 0 then p * 256 else 0) ≡ b * p + v + 1
byte_succ b p v v' h e = elim (ℕ_discrete b 255) [
  | yes q ↦ rw q (omega arith)
  | no q ↦ let small : (b + 1) % 256 ≡ b + 1 = omega arith in rw small (ground (arith, distrib b p))
]
  where
    distrib : (b p : ℕ) → (b + 1) * p ≡ b * p + p
    distrib b p = omega arith

value-increment :
    (bs : List ℕ)
    → All IsByte bs
    → value (increment bs).0 + carried bs (increment bs).1 ≡ value bs + 1
unfolding increment value
value-increment [] h = omega arith
value-increment (b ∷ bs) h = elim (Bool-cases (increment bs).1) [
  | inl c ↦
      rw (c, length-increment bs, pow-suc 256 (length bs))
        (byte_succ b (256 ^ length bs) (value bs) (value (increment bs).0) h.0
          (rw c at (value-increment bs h.1)))
  | inr c ↦ rw (c, length-increment bs) (omega (arith, rw c at (value-increment bs h.1)))
]

-- The eight bytes of a halfConn.
pub record IsSeq (seq : List ℕ) : Type 0 where
  pub size : length seq ≡ 8
  pub bytes : All IsByte seq

length-power : (seq : List ℕ) → length seq ≡ 8 → 256 ^ length seq ≡ 2 ^ 64
length-power seq h = rw h

all_ones : (seq : List ℕ) → IsSeq seq → (increment seq).1 ≡ true → value seq ≡ 2 ^ 64 - 1
all_ones seq h c =
    omega
      (arith, value-lt seq h.bytes, length-power seq h.size, rw c at (value-increment seq h.bytes))

-- On eight bytes incSeq adds one to their number, and keeps them eight bytes, unless the number is
-- 2^64 - 1.
pub inc_seq-value :
    (seq : List ℕ)
    → IsSeq seq
    → value seq ≢ 2 ^ 64 - 1
    → (seq' : List ℕ) × (inc_seq seq ≡ some seq') × (value seq' ≡ value seq + 1) × IsSeq seq'
unfolding inc_seq
inc_seq-value seq h below = elim (Bool-cases (increment seq).1) [
  | inl c ↦ absurd (below (all_ones seq h c))
  | inr c ↦ (
    (increment seq).0,
    rw (c, inc_seq),
    omega (arith, rw c at (value-increment seq h.bytes)),
    record { size = length-increment seq ∙ h.size; bytes = increment-All seq h.bytes },
  )
]

-- On eight bytes incSeq panics exactly if their number is 2^64 - 1.
pub inc_seq-panic_iff : (seq : List ℕ) → IsSeq seq → (inc_seq seq ≡ none) ↔ (value seq ≡ 2 ^ 64 - 1)
unfolding inc_seq
inc_seq-panic_iff seq h = elim (Bool-cases (increment seq).1) [
  | inl c ↦ (λ e. all_ones seq h c, λ e. rw (c, inc_seq))
  | inr c ↦ (
    λ e. let kept : inc_seq seq ≡ some (increment seq).0 = rw (c, inc_seq) in cc,
    λ e. absurd (
        omega (
          arith,
          value-lt (increment seq).0 (increment-All seq h.bytes),
          length-power (increment seq).0 (length-increment seq ∙ h.size),
          rw c at (value-increment seq h.bytes),
        )),
  )
]
