-- ===== src/Record/Padding/Bytes.antt =====
-- The facts on bytes that extractPadding rests on, by evaluation over all bytes.
use Prim.Native.Nat.{bit_and, bit_xor}
use native.Mathlib.Decide.{ℕ_discrete}
use goktls.Base.{
  ℕ, zero, suc, ◌-◌, ◌^◌, ◌<◌, ◌≡◌, ◌↔◌, refl, Bool, true, false, not, ◌&&◌, ◌==◌, ltb, leb, ==_iff,
  arith, if◌then◌else◌,
}
use goktls.Record.Padding.{replicate_bits, sub_uint, sign_mask}

-- A test on each number that is less than `count`, the smaller ones first.
passes : (test : ℕ → Bool) (count : ℕ) → Bool
passes test zero = true
passes test (suc last) = passes test last && test last

-- What passed holds for each of them.
passed_at : (test : ℕ → Bool) (count k : ℕ) → k < count → passes test count ≡ true → test k ≡ true
unfolding passes
passed_at test (suc last) k below all_true =
    let earlier = passed_at test last k in
    elim (ℕ_discrete k last) [
      | yes same ↦ rw same (ground arith)
      | no other ↦ earlier (omega (arith, other)) (ground arith)
    ]
passed_at test zero k below all_true = absurd (omega arith)

passed_at_pair :
    (test : ℕ → ℕ → Bool) (x y : ℕ)
    → x < 256
    → y < 256
    → passes (λ a. passes (test a) 256) 256 ≡ true
    → test x y ≡ true
passed_at_pair test x y hx hy table =
    passed_at (test x) 256 y hy (passed_at (λ a. passes (test a) 256) 256 x hx table)

-- Whether two tests agree.
abbrev agree : Bool → Bool → Bool
agree true b = b
agree false b = not b

abbrev clears : ℕ → ℕ → Bool
clears good x =
    agree (bit_and good (255 - x) == 255) ((good == 255) && (x == 0))
    && ltb (bit_and good (255 - x)) 256

clears_table : passes (λ a. passes (clears a) 256) 256 ≡ true
unfolding passes
clears_table = refl

abbrev tells_apart : ℕ → ℕ → Bool
tells_apart p b = agree (bit_xor p b == 0) (p == b) && ltb (bit_xor p b) 256

tells_apart_table : passes (λ a. passes (tells_apart a) 256) 256 ≡ true
unfolding passes
tells_apart_table = refl

abbrev masked : ℕ → Bool
masked p =
    ((bit_and 255 p == p) && (bit_and 0 p == 0)) && ((bit_and p 255 == p) && (bit_and p 0 == 0))

masked_table : passes masked 256 ≡ true
unfolding passes
masked_table = refl

abbrev replicated : ℕ → Bool
replicated good = replicate_bits good == (if good == 255 then 255 else 0)

replicated_table : passes replicated 256 ≡ true
unfolding passes replicate_bits
replicated_table = refl

-- The sign mask is 255 if the difference does not fall below zero, and 0 otherwise.
pub sign_mask-sub_uint :
    (a b : ℕ) → a < 2 ^ 31 → b < 2 ^ 31 → sign_mask (sub_uint a b) ≡ (if leb b a then 255 else 0)
sign_mask-sub_uint a b ha hb = ground arith

pub bit_and-mask : (p : ℕ) → p < 256 → (bit_and 255 p ≡ p) × (bit_and 0 p ≡ 0)
bit_and-mask p h = ground (arith, passed_at masked 256 p h masked_table)

pub bit_and-mask_right : (p : ℕ) → p < 256 → (bit_and p 255 ≡ p) × (bit_and p 0 ≡ 0)
bit_and-mask_right p h = ground (arith, passed_at masked 256 p h masked_table)

pub replicate_bits_lem :
    (good : ℕ) → good < 256 → replicate_bits good ≡ (if good == 255 then 255 else 0)
replicate_bits_lem good h = (==_iff _ _).0 (passed_at replicated 256 good h replicated_table)

-- `good &^ x` is still 255 exactly if `good` was and x is 0.
pub and_not-good :
    (good x : ℕ)
    → good < 256
    → x < 256
    → (bit_and good (255 - x) < 256) × ((bit_and good (255 - x) ≡ 255) ↔ ((good ≡ 255) × (x ≡ 0)))
and_not-good good x hg hx =
    let t = passed_at_pair clears good x hg hx clears_table in
    (ground (arith, t), (λ e. ground (arith, t), λ e. ground (arith, t)))

-- bit_xor finds out whether two bytes differ.
pub bit_xor-zero_iff :
    (p b : ℕ) → p < 256 → b < 256 → (bit_xor p b < 256) × ((bit_xor p b ≡ 0) ↔ (p ≡ b))
bit_xor-zero_iff p b hp hb =
    let t = passed_at_pair tells_apart p b hp hb tells_apart_table in
    (ground (arith, t), (λ e. ground (arith, t), λ e. ground (arith, t)))
