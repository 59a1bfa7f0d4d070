-- ===== src/Record/Padding/Correct.antt =====
-- extractPadding against the description of the padding in RFC 5246, section 6.2.3.2.
use Prim.Native.Nat.{bit_xor}
use goktls.Base.{
  ℕ, zero, suc, ◌+◌, ◌-◌, ◌^◌, ◌≤◌, ◌<◌, ◌≡◌, ◌≢◌, ◌↔◌, sym, ◌∙◌, false, List, [], ◌∷◌, All, IsByte,
  arith, length, get_or, leb, ltb, ◌==◌, if◌then◌else◌, inl, inr, Bool-cases, ==_iff,
}
use native.Mathlib.Decide.{ℕ_discrete}
use goktls.Record.Padding.Bytes.{
  sign_mask-sub_uint, bit_and-mask, bit_and-mask_right, replicate_bits_lem, and_not-good,
  bit_xor-zero_iff,
}
use goktls.Record.Padding.{round, check_from, finish, start, to_check, extract_padding, last_byte}

-- The i-th byte from the end.
abbrev pub from_end : List ℕ → ℕ → ℕ
from_end payload i = get_or payload (length payload - 1 - i) 0

get_or-byte : (xs : List ℕ) (i : ℕ) → All IsByte xs → get_or xs i 0 < 256
get_or-byte [] i h = omega arith
get_or-byte (x ∷ xs) zero h = h.0
get_or-byte (x ∷ xs) (suc i) h = get_or-byte xs i h.1

-- A round keeps `good` at 255 exactly if the byte is equal to the length, where it is padding.
round_lem :
    (payload : List ℕ) (p i good : ℕ)
    → All IsByte payload
    → p < 256
    → i < 256
    → good < 256
    → (round payload p i good < 256)
      × ((round payload p i good ≡ 255) ↔ ((good ≡ 255) × (i ≤ p → from_end payload i ≡ p)))
unfolding round
round_lem payload p i good bytes hp hi hg =
    let b : ℕ = from_end payload i in
    let hb : b < 256 = get_or-byte payload (length payload - 1 - i) bytes in
    let differ = bit_xor-zero_iff p b hp hb in
    let keeps = and_not-good good (bit_xor p b) hg differ.0 in
    elim (Bool-cases (leb i p)) [
      | inl inside ↦
          let le : i ≤ p = ground arith in
          rw
            (
              sign_mask-sub_uint p i (omega arith) (omega arith),
              inside,
              (bit_and-mask p hp).0,
              (bit_and-mask b hb).0,
            )
            (
              keeps.0,
              (
                λ e. ((keeps.1.0 e).0, λ _. sym (differ.1.0 (keeps.1.0 e).1)),
                λ h. keeps.1.1 (h.0, differ.1.1 (sym (h.1 le))),
              ),
            )
      | inr outside ↦
          rw
            (
              sign_mask-sub_uint p i (omega arith) (omega arith),
              outside,
              (bit_and-mask p hp).1,
              (bit_and-mask b hb).1,
              (bit_and-mask_right good hg).0,
            )
            (hg, (λ e. (e, λ le. absurd (ground arith)), λ h. h.0))
    ]

-- The bytes from the i-th last on, as many as there are rounds, are padding where they should be.
abbrev Checked : List ℕ → ℕ → ℕ → ℕ → Type 0
Checked payload p i rounds = (j : ℕ) → i ≤ j → j < i + rounds → j ≤ p → from_end payload j ≡ p

Checked-suc :
    (payload : List ℕ) (p i rounds : ℕ)
    → (i ≤ p → from_end payload i ≡ p)
    → Checked payload p (i + 1) rounds
    → Checked payload p i (suc rounds)
Checked-suc payload p i rounds here later j lo hi inside = elim (ℕ_discrete i j) [
  | yes e ↦ rw e at (here (omega arith))
  | no ne ↦ later j (omega arith) (omega arith) inside
]

check_from_lem :
    (payload : List ℕ) (p rounds i good : ℕ)
    → All IsByte payload
    → p < 256
    → i + rounds ≤ 256
    → good < 256
    → (check_from payload p rounds i good < 256)
      × ((check_from payload p rounds i good ≡ 255) ↔ ((good ≡ 255) × Checked payload p i rounds))
unfolding check_from
check_from_lem payload p zero i good bytes hp hi hg =
    (hg, (λ e. (e, λ j lo hi le. absurd (omega arith)), λ h. h.0))
check_from_lem payload p (suc rounds) i good bytes hp hi hg =
    let (small, step) = round_lem payload p i good bytes hp (omega arith) hg in
    let (small', rest) =
      check_from_lem payload p rounds (i + 1) (round payload p i good) bytes hp (omega arith)
        small in
    (
      small',
      (
        λ e. (
          (step.0 (rest.0 e).0).0,
          Checked-suc payload p i rounds (step.0 (rest.0 e).0).1 (rest.0 e).1,
        ),
        λ h. rest.1 (
          step.1 (h.0, λ le. h.1 i (omega arith) (omega arith) le),
          λ j lo hi' le. h.1 j (omega arith) (omega arith) le,
        ),
      ),
    )

-- The padding of RFC 5246: the last byte is p, there are p + 1 bytes at least, and each of the last
-- p + 1 bytes is p.
abbrev pub IsPadded : List ℕ → Type 0
IsPadded payload =
    (last_byte payload + 1 ≤ length payload)
    × ((j : ℕ) → j ≤ last_byte payload → from_end payload j ≡ last_byte payload)

finish_lem :
    (p good : ℕ)
    → p < 256
    → good < 256
    → ((good ≡ 255) → finish p good ≡ (p + 1, 255)) × (good ≢ 255 → finish p good ≡ (1, 0))
unfolding finish
finish_lem p good hp hg =
    let bits = replicate_bits_lem good hg in
    let (kept, zeroed) = bit_and-mask_right p hp in
    (λ e. rw (bits, (==_iff good 255).1 e, kept), λ ne. rw (bits, not_equal good ne, zeroed))
  where
    not_equal : (good : ℕ) → good ≢ 255 → (good == 255) ≡ false
    not_equal good ne = ground arith

-- The whole range is checked: rounds enough for every byte of padding.
IsPadded-of_checked :
    (payload : List ℕ)
    → 0 < length payload
    → last_byte payload < 256
    → last_byte payload + 1 ≤ length payload
    → Checked payload (last_byte payload) 0 (to_check payload)
    → IsPadded payload
IsPadded-of_checked payload some_byte hp fits checked =
    (fits, λ j le. checked j (omega arith) (enough j le) le)
  where
    enough : (j : ℕ) → j ≤ last_byte payload → j < 0 + to_check payload
    enough j le = ground arith

module _ (payload : List ℕ) (some_byte : 0 < length payload) (bound : length payload < 2 ^ 31)
    (bytes : All IsByte payload) where
  p_byte : last_byte payload < 256
  p_byte = get_or-byte payload (length payload - 1) bytes

  start_lem : start payload ≡ (if leb (last_byte payload) (length payload - 1) then 255 else 0)
  start_lem =
      sign_mask-sub_uint (length payload - 1) (last_byte payload) (omega arith)
        (let q = p_byte in omega arith)

  start-lt : start payload < 256
  start-lt = rw start_lem (ground arith)

  checked :
      let found = check_from payload (last_byte payload) (to_check payload) 0 (start payload) in
      (found < 256)
      × ((found ≡ 255)
          ↔ ((start payload ≡ 255) × Checked payload (last_byte payload) 0 (to_check payload)))
  checked =
      check_from_lem payload (last_byte payload) (to_check payload) 0 (start payload) bytes p_byte
        (ground arith) start-lt

  start_full : last_byte payload + 1 ≤ length payload → start payload ≡ 255
  start_full fits = start_lem ∙ if_fits (last_byte payload) (length payload) fits
    where
      if_fits : (p n : ℕ) → p + 1 ≤ n → ◌≡◌ {A = ℕ} (if leb p (n - 1) then 255 else 0) 255
      if_fits p n h = ground arith

  fits_of_start : start payload ≡ 255 → last_byte payload + 1 ≤ length payload
  fits_of_start e = fits (last_byte payload) (length payload) some_byte (sym start_lem ∙ e)
    where
      fits : (p n : ℕ) → 0 < n → ◌≡◌ {A = ℕ} (if leb p (n - 1) then 255 else 0) 255 → p + 1 ≤ n
      fits p n h e = ground arith

  nonempty : ltb (length payload) 1 ≡ false
  nonempty = ground arith

  -- For a payload of at least one byte and less than 2^31 bytes: valid padding of p + 1 bytes, and only
  -- that, gives p + 1 bytes to remove and the flag 255; anything else gives 1 and 0.
  pub extract_padding-IsPadded :
      (IsPadded payload → extract_padding payload ≡ (last_byte payload + 1, 255))
      × (¬ IsPadded payload → extract_padding payload ≡ (1, 0))
  unfolding extract_padding
  extract_padding-IsPadded = (
    λ v. rw nonempty (
        (finish_lem (last_byte payload) _ p_byte checked.0).0
          (checked.1.1 (start_full v.0, λ j lo hi le. v.1 j le))),
    λ bad. rw nonempty (
        (finish_lem (last_byte payload) _ p_byte checked.0).1 λ e. bad (
          IsPadded-of_checked payload some_byte p_byte (fits_of_start (checked.1.0 e).0)
            (checked.1.0 e).1)),
  )
