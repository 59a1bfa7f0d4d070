-- ===== src/Session/Ticket.antt =====
-- encryptTicket and decryptTicket of ticket.go. AES in counter mode and HMAC are parameters.
use goktls.Base.{
  ℕ, suc, ◌+◌, ◌-◌, ◌≡◌, sym, ap, ◌∙◌, Bool, true, false, not, List, [], ◌∷◌, ◌++◌, Option, none,
  some, length, All, if◌then◌else◌, arith, ltb, take, drop, bytes_eq, bytes_eq_refl, length-append,
  append_assoc, take-length-append, drop-length-append, le→ltb_false,
}
use goktls.Wire.Build.{◌>>=◌}

abbrev pub ticket_key_name_len : ℕ
ticket_key_name_len = 16

-- aes.BlockSize and sha256.Size.
abbrev pub block_size : ℕ
block_size = 16

abbrev pub mac_size : ℕ
mac_size = 32

pub record TicketKey : Type 0 where
  pub key_name : List ℕ
  pub aes_key : List ℕ
  pub hmac_key : List ℕ

-- `accepts` says for which keys aes.NewCipher has no error, `ctr key iv` is the key stream's effect
-- on a text, `hmac` the MAC with SHA-256.
pub record TicketOps : Type 0 where
  pub accepts : List ℕ → Bool
  pub ctr : List ℕ → List ℕ → List ℕ → List ℕ
  pub hmac : List ℕ → List ℕ → List ℕ

pub record TicketLaws (ops : TicketOps) : Type 0 where
  pub ctr-ctr : (key iv text : List ℕ) → ops.ctr key iv (ops.ctr key iv text) ≡ text
  pub length-hmac : (key text : List ℕ) → length (ops.hmac key text) ≡ mac_size

module _ (ops : TicketOps) where
  -- `iv` is what the source of randomness gives, `none` for its error.
  unfoldable pub encrypt_ticket : List TicketKey → Option (List ℕ) → List ℕ → Option (List ℕ)
  encrypt_ticket [] iv state = none
  encrypt_ticket (key ∷ keys) none state = none
  encrypt_ticket (key ∷ keys) (some iv) state =
      if not (ops.accepts key.aes_key)
      then none
      else let front = key.key_name ++ (iv ++ ops.ctr key.aes_key iv state) in
        some (front ++ ops.hmac key.hmac_key front)

  -- The first key of that name, with its index.
  unfoldable pub find_key : List ℕ → List TicketKey → ℕ → Option (TicketKey × ℕ)
  find_key name [] i = none
  find_key name (key ∷ keys) i =
      if bytes_eq name key.key_name then some (key, i) else find_key name keys (suc i)

  -- The content, and whether the key was not the first.
  unfoldable pub decrypt_ticket : List TicketKey → List ℕ → Option (List ℕ × Bool)
  unfolding find_key
  decrypt_ticket keys encrypted =
      if ltb (length encrypted) (ticket_key_name_len + block_size + mac_size)
      then none
      else let front = take (length encrypted - mac_size) encrypted in
        let mac = drop (length encrypted - mac_size) encrypted in
        let name = take ticket_key_name_len encrypted in
        let iv = take block_size (drop ticket_key_name_len encrypted) in
        let ciphertext = drop (ticket_key_name_len + block_size) front in
        find_key name keys 0 >>= λ found.
        if not (bytes_eq mac (ops.hmac found.0.hmac_key front))
        then none
        else if not (ops.accepts found.0.aes_key)
        then none
        else some (ops.ctr found.0.aes_key iv ciphertext, ltb 0 found.1)

take-exact : (n : ℕ) (xs ys : List ℕ) → length xs ≡ n → take n (xs ++ ys) ≡ xs
take-exact n xs ys e = rw (sym e) (take-length-append xs ys)

drop-exact : (n : ℕ) (xs ys : List ℕ) → length xs ≡ n → drop n (xs ++ ys) ≡ ys
drop-exact n xs ys e = rw (sym e) (drop-length-append xs ys)

find_key-append :
    (ops : TicketOps) (before after : List TicketKey) (key : TicketKey) (i : ℕ)
    → All (λ (k : TicketKey). bytes_eq key.key_name k.key_name ≡ false) before
    → find_key ops key.key_name (before ++ key ∷ after) i ≡ some (key, length before + i)
unfolding find_key
find_key-append ops [] after key i others =
    rw (bytes_eq_refl key.key_name) (ap (λ (n : ℕ). some (key, n)) (omega arith))
find_key-append ops (k ∷ before) after key i others =
    rw (others.0, find_key-append ops before after key (suc i) others.1)
      (ap (λ (n : ℕ). some (key, n)) (omega arith))

open_ticket :
    (ops : TicketOps)
    → TicketLaws ops
    → (key : TicketKey) (newer older : List TicketKey) (iv state : List ℕ)
    → length key.key_name ≡ ticket_key_name_len
    → length iv ≡ block_size
    → All (λ (k : TicketKey). bytes_eq key.key_name k.key_name ≡ false) newer
    → ops.accepts key.aes_key ≡ true
    → decrypt_ticket ops (newer ++ key ∷ older) (
        (key.key_name ++ (iv ++ ops.ctr key.aes_key iv state))
        ++ ops.hmac key.hmac_key (key.key_name ++ (iv ++ ops.ctr key.aes_key iv state)))
      ≡ some (state, ltb 0 (length newer))
unfolding decrypt_ticket
open_ticket ops laws key newer older iv state named blocked others accepted =
    let text = ops.ctr key.aes_key iv state in
    let front = key.key_name ++ (iv ++ text) in
    let mac = ops.hmac key.hmac_key front in
    let len = length-append {0} front mac in
    let len' = length-append {0} key.key_name (iv ++ text) in
    let len'' = length-append {0} iv text in
    let mac_len = laws.length-hmac key.hmac_key front in
    let long : ltb (length (front ++ mac)) 64 ≡ false = le→ltb_false 64 _ (omega arith) in
    let cut : length front ≡ length (front ++ mac) - 32 = omega arith in
    let before_mac = take-exact (length (front ++ mac) - 32) front mac cut in
    let behind = drop-exact (length (front ++ mac) - 32) front mac cut in
    let whole : front ++ mac ≡ key.key_name ++ (iv ++ (text ++ mac)) =
      append_assoc key.key_name (iv ++ text) mac
      ∙ ap (◌++◌ key.key_name) (append_assoc iv text mac) in
    let name : take 16 (front ++ mac) ≡ key.key_name =
      ap (take 16) whole ∙ take-exact 16 key.key_name _ named in
    let vector : take 16 (drop 16 (front ++ mac)) ≡ iv =
      ap (λ (t : List ℕ). take 16 (drop 16 t)) whole
      ∙ ap (take 16) (drop-exact 16 key.key_name _ named)
      ∙ take-exact 16 iv _ blocked in
    let cipher : drop 32 front ≡ text =
      ap (drop 32) (sym (append_assoc key.key_name iv text))
      ∙ drop-exact 32 (key.key_name ++ iv) text
          (omega (arith, length-append {0} key.key_name iv)) in
    rw
      (
        long,
        before_mac,
        behind,
        name,
        vector,
        cipher,
        find_key-append ops newer older key 0 others,
        bytes_eq_refl mac,
        accepted,
        laws.ctr-ctr key.aes_key iv state,
      )
      (ap (λ (n : ℕ). some (state, ltb 0 n)) (omega arith))

-- A ticket of the first key is opened, under whatever keys are newer or older, as long as its key is
-- still there and no newer one has its name: it gives the state, and says that the key is an old
-- one exactly if it no longer stands first.
pub decrypt-encrypt_ticket :
    (ops : TicketOps)
    → TicketLaws ops
    → (key : TicketKey) (keys newer older : List TicketKey) (iv state : List ℕ) {out : List ℕ}
    → length key.key_name ≡ ticket_key_name_len
    → length iv ≡ block_size
    → All (λ (k : TicketKey). bytes_eq key.key_name k.key_name ≡ false) newer
    → encrypt_ticket ops (key ∷ keys) (some iv) state ≡ some out
    → decrypt_ticket ops (newer ++ key ∷ older) out ≡ some (state, ltb 0 (length newer))
unfolding encrypt_ticket
decrypt-encrypt_ticket ops laws key keys newer older iv state {out} named blocked others e =
    let text = ops.ctr key.aes_key iv state in
    let front = key.key_name ++ (iv ++ text) in
    let accepted : ops.accepts key.aes_key ≡ true = ground arith in
    let same : out ≡ front ++ ops.hmac key.hmac_key front = ground arith in
    rw same (open_ticket ops laws key newer older iv state named blocked others accepted)
