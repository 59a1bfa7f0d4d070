-- ===== src/Record/Padding.antt =====
-- extractPadding of conn.go: the constant-time check of CBC padding, on bytes and on 64-bit words.
pub mod Bytes
pub mod Correct
use Prim.Native.Nat.{bit_and, bit_xor}
use goktls.Base.{
  ℕ, zero, suc, ◌+◌, ◌-◌, ◌*◌, ◌/◌, ◌%◌, ◌^◌, Bool, List, [], ◌∷◌, leb, ltb, if◌then◌else◌, length,
  get_or,
}

-- uint(a) - uint(b) on a 64-bit machine.
abbrev pub sub_uint : ℕ → ℕ → ℕ
sub_uint a b = (a + 2 ^ 64 - b) % 2 ^ 64

-- byte(int32(^t) >> 31): the complement is cut to 32 bits, and its sign bit is spread out.
abbrev pub sign_mask : ℕ → ℕ
sign_mask t = if leb (2 ^ 31) ((2 ^ 64 - 1 - t) % 2 ^ 32) then 255 else 0

-- a &^ b on bytes.
abbrev pub and_not : ℕ → ℕ → ℕ
and_not a b = bit_and a (255 - b)

-- One round of the loop: `good &^= mask&paddingLen ^ mask&b`.
pub round : List ℕ → ℕ → ℕ → ℕ → ℕ
round payload padding_len i good =
    let mask = sign_mask (sub_uint padding_len i) in
    let b = get_or payload (length payload - 1 - i) 0 in
    and_not good (bit_xor (bit_and mask padding_len) (bit_and mask b))

-- The loop, for the rounds that are left from i on.
unfoldable pub check_from : List ℕ → ℕ → ℕ → ℕ → ℕ → ℕ
unfolding round
check_from payload padding_len zero i good = good
check_from payload padding_len (suc rounds) i good =
    check_from payload padding_len rounds (i + 1) (round payload padding_len i good)

-- a << k on a byte.
abbrev shl : ℕ → ℕ → ℕ
shl a k = a * 2 ^ k % 256

-- The bits of `good` joined by AND and replicated.
pub replicate_bits : ℕ → ℕ
replicate_bits good =
    let g1 = bit_and good (shl good 4) in
    let g2 = bit_and g1 (shl g1 2) in
    let g3 = bit_and g2 (shl g2 1) in if leb 128 g3 then 255 else 0

abbrev pub last_byte : List ℕ → ℕ
last_byte payload = get_or payload (length payload - 1) 0

-- `good` before the loop, and the number of its rounds.
abbrev pub start : List ℕ → ℕ
start payload = sign_mask (sub_uint (length payload - 1) (last_byte payload))

abbrev pub to_check : List ℕ → ℕ
to_check payload = if ltb (length payload) 256 then length payload else 256

-- The part after the loop: the bits of `good` are joined, and a bad length is zeroed.
unfoldable pub finish : ℕ → ℕ → ℕ × ℕ
unfolding replicate_bits
finish padding_len good = let good' = replicate_bits good in (bit_and padding_len good' + 1, good')

-- extractPadding: the bytes to remove, and 255 or 0.
unfoldable pub extract_padding : List ℕ → ℕ × ℕ
extract_padding payload =
    if ltb (length payload) 1
    then (0, 0)
    else finish (last_byte payload)
        (check_from payload (last_byte payload) (to_check payload) 0 (start payload))

-- roundUp, for b > 0.
unfoldable pub round_up : ℕ → ℕ → ℕ
round_up a b = a + (b - a % b) % b
