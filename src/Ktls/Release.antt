-- ===== src/Ktls/Release.antt =====
-- The kernel release string: ktls_linux.go, the parsing part of init(). Bytes are ASCII, as the
-- kernel's are, so that strings.TrimLeft works byte by byte.
pub mod Parsing
use goktls.Base.{
  ℕ, zero, suc, ◌+◌, ◌-◌, ◌*◌, ◌^◌, Bool, ◌&&◌, List, [], ◌∷◌, ◌++◌, Option, none, some, leb, ◌==◌,
  if◌then◌else◌, take, contains,
}

-- strings.Index of a one-byte string; `none` is the -1 of Go.
pub index : List ℕ → ℕ → Option ℕ
index [] b = none
index (x ∷ xs) b =
    let rest = index xs b in
    if x == b then some 0 else elim rest [ none ↦ none | some i ↦ some (suc i) ]

-- strings.TrimLeft: the leading bytes that stand in the cutset are dropped.
pub trim_left : List ℕ → List ℕ → List ℕ
trim_left [] cutset = []
trim_left (x ∷ xs) cutset = if contains cutset x then trim_left xs cutset else x ∷ xs

-- The cut `release[:i]` at the first NUL, if there is one.
pub cut_nul : List ℕ → List ℕ
unfolding index
cut_nul buf = elim (index buf 0) [ none ↦ buf | some i ↦ take i buf ]

-- An int: strconv.Atoi takes a sign. `negsuc n` is -(n + 1).
pub data ℤ : Type 0 where
  pos : ℕ → ℤ
  negsuc : ℕ → ℤ

abbrev negated : ℕ → ℤ
negated zero = ℤ.pos 0
negated (suc n) = ℤ.negsuc n

abbrev is_digit : ℕ → Bool
is_digit c = leb b'0' c && leb c b'9'

-- The digits of strconv.ParseInt in base 10, most significant first.
unfoldable pub digits_value : List ℕ → ℕ → Option ℕ
digits_value [] acc = some acc
digits_value (c ∷ cs) acc =
    let rest = digits_value cs (acc * 10 + (c - b'0')) in if is_digit c then rest else none

abbrev nonempty_value : List ℕ → Option ℕ
nonempty_value [] = none
nonempty_value (c ∷ cs) = digits_value (c ∷ cs) 0

-- A value out of the range of int64 is an error.
abbrev in_range : ℕ → (ℕ → ℤ) → Option ℕ → Option ℤ
in_range limit sign none = none
in_range limit sign (some v) = if leb v limit then some (sign v) else none

-- strconv.Atoi; `none` is its error.
unfoldable pub atoi : List ℕ → Option ℤ
unfolding digits_value
atoi [] = none
atoi (c ∷ cs) =
    if c == b'+'
    then in_range (2 ^ 63 - 1) ℤ.pos (nonempty_value cs)
    else if c == b'-'
    then in_range (2 ^ 63) negated (nonempty_value cs)
    else in_range (2 ^ 63 - 1) ℤ.pos (nonempty_value (c ∷ cs))

-- How init() leaves the parsing: a slice `s[:-1]` panics, and an Atoi error returns.
pub data Parsed : Type 0 where
  panic : Parsed
  bad_number : Parsed
  version : ℤ → ℤ → Parsed

abbrev both : Option ℤ → Option ℤ → Parsed
both none minor = bad_number
both (some a) none = bad_number
both (some a) (some b) = version a b

-- `minorRelease[:strings.Index(minorRelease, ".")]`, and the two calls of Atoi.
minor_part : List ℕ → List ℕ → Parsed
unfolding index atoi
minor_part major_release minor_release = elim (index minor_release b'.') [
  | none ↦ panic
  | some i ↦ both (atoi major_release) (atoi (take i minor_release))
]

-- The text `release` taken apart.
split_release : List ℕ → Parsed
unfolding index trim_left minor_part
split_release release = elim (index release b'.') [
  | none ↦ panic
  | some i ↦ minor_part (take i release) (trim_left release (take i release ++ b'.' ∷ []))
]

-- The major and the minor release number of the 65 bytes that uname gives.
pub parse_release : List ℕ → Parsed
unfolding cut_nul split_release
parse_release buf = split_release (cut_nul buf)
