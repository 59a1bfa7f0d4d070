-- ===== src/Ktls/Release/Parsing.antt =====
-- What parse_release makes of a release: the two numbers, or a panic.
use goktls.Base.{
  ℕ, ◌≡◌, refl, ◌≢◌, ◌∙◌, true, false, List, [], ◌∷◌, ◌++◌, none, some, arith, All, length,
  take-length-append, contains, ==_refl,
}
use goktls.Ktls.Release.{
  ℤ, Parsed, index, trim_left, cut_nul, atoi, minor_part, split_release, parse_release,
}

-- No byte of the list is the given one.
abbrev pub Lacks : ℕ → List ℕ → Type 0
Lacks b = All (λ c. c ≢ b)

-- Every byte of the list is in the cutset.
abbrev pub Within : List ℕ → List ℕ → Type 0
Within cutset = All (λ c. contains cutset c ≡ true)

index_lacking : (xs : List ℕ) (b : ℕ) → Lacks b xs → index xs b ≡ none
unfolding index
index_lacking [] b h = refl
index_lacking (x ∷ xs) b h = ground (arith, index_lacking xs b h.1)

index_first : (xs ys : List ℕ) (b : ℕ) → Lacks b xs → index (xs ++ b ∷ ys) b ≡ some (length xs)
unfolding index
index_first [] ys b h = rw (==_refl b)
index_first (x ∷ xs) ys b h = ground (arith, index_first xs ys b h.1)

cut_nul_first : (xs ys : List ℕ) → Lacks 0 xs → cut_nul (xs ++ 0 ∷ ys) ≡ xs
unfolding cut_nul
cut_nul_first xs ys h = rw (index_first xs ys 0 h, cut_nul) (take-length-append xs (0 ∷ ys))

trim_left-Within :
    (xs ys cutset : List ℕ) → Within cutset xs → trim_left (xs ++ ys) cutset ≡ trim_left ys cutset
unfolding trim_left
trim_left-Within [] ys cutset h = refl
trim_left-Within (x ∷ xs) ys cutset h = rw h.0 (trim_left-Within xs ys cutset h.1)

contains_tail : (x c : ℕ) (xs : List ℕ) → contains xs c ≡ true → contains (x ∷ xs) c ≡ true
contains_tail x c xs h = ground arith

Within-tail : (x : ℕ) (xs cs : List ℕ) → Within xs cs → Within (x ∷ xs) cs
Within-tail x xs [] h = tt
Within-tail x xs (c ∷ cs) h = (contains_tail x c xs h.0, Within-tail x xs cs h.1)

Within-append : (xs ys : List ℕ) → Within (xs ++ ys) xs
Within-append [] ys = tt
Within-append (x ∷ xs) ys = (rw (==_refl x) refl, Within-tail x (xs ++ ys) xs (Within-append xs ys))

contains_last : (xs : List ℕ) (b : ℕ) → contains (xs ++ b ∷ []) b ≡ true
contains_last [] b = rw (==_refl b)
contains_last (x ∷ xs) b = contains_tail x b (xs ++ b ∷ []) (contains_last xs b)

Lacks-append : (b : ℕ) (xs ys : List ℕ) → Lacks b xs → Lacks b ys → Lacks b (xs ++ ys)
Lacks-append b [] ys h k = k
Lacks-append b (x ∷ xs) ys h k = (h.0, Lacks-append b xs ys h.1 k)

Lacks-trim_left : (b : ℕ) (xs cs : List ℕ) → Lacks b xs → Lacks b (trim_left xs cs)
unfolding trim_left
Lacks-trim_left b [] cs h = tt
Lacks-trim_left b (x ∷ xs) cs h = ground (arith, Lacks-trim_left b xs cs h.1)

abbrev cutset_of : List ℕ → List ℕ
cutset_of major = major ++ b'.' ∷ []

-- The major part and the dot are trimmed off, and what follows is trimmed further.
trim_major :
    (major rest : List ℕ)
    → trim_left (major ++ b'.' ∷ rest) (cutset_of major) ≡ trim_left rest (cutset_of major)
unfolding trim_left
trim_major major rest =
    rw (trim_left-Within major (b'.' ∷ rest) (cutset_of major) (Within-append major (b'.' ∷ [])))
      (rw (contains_last major b'.'))

split_release_step :
    (major rest : List ℕ)
    → Lacks b'.' major
    → split_release (major ++ b'.' ∷ rest) ≡ minor_part major (trim_left rest (cutset_of major))
unfolding split_release
split_release_step major rest dot = rw (
  index_first major rest b'.' dot,
  split_release,
  take-length-append major (b'.' ∷ rest),
  trim_major major rest,
)

-- A release major.rest, followed by NULs in the buffer of uname.
parse_release_step :
    (major rest pad : List ℕ)
    → Lacks b'.' major
    → Lacks 0 (major ++ b'.' ∷ rest)
    → parse_release ((major ++ b'.' ∷ rest) ++ 0 ∷ pad)
      ≡ minor_part major (trim_left rest (cutset_of major))
unfolding parse_release
parse_release_step major rest pad dot nul =
    rw (cut_nul_first (major ++ b'.' ∷ rest) pad nul, parse_release)
      (split_release_step major rest dot)

minor_part_lem :
    (major minor rest : List ℕ) (a b : ℤ)
    → Lacks b'.' minor
    → atoi major ≡ some a
    → atoi minor ≡ some b
    → minor_part major (minor ++ b'.' ∷ rest) ≡ Parsed.version a b
unfolding minor_part
minor_part_lem major minor rest a b dot ha hb =
    rw (index_first minor rest b'.' dot, minor_part, take-length-append minor (b'.' ∷ rest), ha, hb)

trim_left_stop :
    (first : ℕ) (rest cutset : List ℕ)
    → contains cutset first ≡ false
    → trim_left (first ∷ rest) cutset ≡ first ∷ rest
unfolding trim_left
trim_left_stop first rest cutset h = rw h

-- A release major.minor.rest in the buffer is read as its two numbers, if the first byte of the
-- minor number neither occurs in the major number nor is a dot, both are numbers to Atoi, neither
-- has a dot in it, and no NUL stands before the padding.
pub parse_release-version :
    (major : List ℕ) (first : ℕ) (minor rest pad : List ℕ) (a b : ℤ)
    → Lacks b'.' major
    → contains (major ++ b'.' ∷ []) first ≡ false
    → Lacks b'.' (first ∷ minor)
    → Lacks 0 (major ++ b'.' ∷ (first ∷ minor ++ b'.' ∷ rest))
    → atoi major ≡ some a
    → atoi (first ∷ minor) ≡ some b
    → parse_release ((major ++ b'.' ∷ (first ∷ minor ++ b'.' ∷ rest)) ++ 0 ∷ pad)
      ≡ Parsed.version a b
parse_release-version major first minor rest pad a b dot fresh dot' nul ha hb =
    parse_release_step major (first ∷ minor ++ b'.' ∷ rest) pad dot nul
    ∙ rw (trim_left_stop first (minor ++ b'.' ∷ rest) (cutset_of major) fresh)
        (minor_part_lem major (first ∷ minor) rest a b dot' ha hb)

contains_append : (xs ys : List ℕ) (c : ℕ) → contains xs c ≡ true → contains (xs ++ ys) c ≡ true
contains_append [] ys c h = cc
contains_append (x ∷ xs) ys c h = ground (arith, contains_append xs ys c)

Within-cutset : (major cs : List ℕ) → Within major cs → Within (cutset_of major) cs
Within-cutset major [] h = tt
Within-cutset major (c ∷ cs) h =
    (contains_append major (b'.' ∷ []) c h.0, Within-cutset major cs h.1)

trimmed_away :
    (major patch : List ℕ)
    → Lacks b'.' patch
    → minor_part major (trim_left (b'.' ∷ patch) (cutset_of major)) ≡ Parsed.panic
unfolding trim_left minor_part
trimmed_away major patch dot = rw (contains_last major b'.') (
    rw (
      index_lacking (trim_left patch (cutset_of major)) b'.'
          (Lacks-trim_left b'.' patch (cutset_of major) dot),
      minor_part,
    ))

-- A release whose minor number has only bytes of its major number, and whose patch level has no
-- dot behind it, makes init() slice at -1: the minor number is trimmed away as well.
pub parse_release-panic :
    (major minor patch pad : List ℕ)
    → Lacks b'.' major
    → Within major minor
    → Lacks b'.' patch
    → Lacks 0 (major ++ b'.' ∷ (minor ++ b'.' ∷ patch))
    → parse_release ((major ++ b'.' ∷ (minor ++ b'.' ∷ patch)) ++ 0 ∷ pad) ≡ Parsed.panic
parse_release-panic major minor patch pad dot within dot' nul =
    parse_release_step major (minor ++ b'.' ∷ patch) pad dot nul
    ∙ rw
        (trim_left-Within minor (b'.' ∷ patch) (cutset_of major) (Within-cutset major minor within))
        (trimmed_away major patch dot')
