-- ===== src/Messages/Bytes.antt =====
-- Numbers as the messages that are written by hand hold them: most significant byte first, every
-- byte cut to 8 bits.
use goktls.Base.{ℕ, suc, ◌+◌, ◌-◌, ◌*◌, ◌/◌, ◌%◌, List, [], ◌∷◌, get_or}

abbrev pub uint16 : ℕ → List ℕ
uint16 n = (n / 256 % 256) ∷ (n % 256) ∷ []

abbrev pub uint24 : ℕ → List ℕ
uint24 n = (n / 65536 % 256) ∷ (n / 256 % 256) ∷ (n % 256) ∷ []

-- `d[i] << 8 | d[i + 1]`, and the same of three bytes.
abbrev pub read16 : List ℕ → ℕ → ℕ
read16 d i = get_or d i 0 * 256 + get_or d (suc i) 0

abbrev pub read24 : List ℕ → ℕ → ℕ
read24 d i = get_or d i 0 * 65536 + get_or d (suc i) 0 * 256 + get_or d (suc (suc i)) 0

-- uint32 arithmetic.
abbrev pub wrap32 : ℕ → ℕ
wrap32 n = n % 4294967296

abbrev pub sub32 : ℕ → ℕ → ℕ
sub32 a b = (wrap32 a + 4294967296 - wrap32 b) % 4294967296
