-- ===== src/Messages/ClientHello/Binders.antt =====
-- marshalWithoutBinders and updateBinders of handshake_messages.go: the binders of the PSKs are
-- computed over the rest of the ClientHello and are written over the ones it was marshalled with.
pub mod Follows
pub mod Update
use goktls.Base.{
  ℕ, zero, suc, ◌+◌, ◌-◌, ◌<◌, ◌==◌, ◌&&◌, ltb, ◌≡◌, ◌∙◌, refl, sym, ap, Bool, true, false, not,
  List, [], ◌∷◌, ◌++◌, Option, none, some, length, arith, if◌then◌else◌, take, append_assoc,
  length-append, append-nil, take-length-append,
}
use goktls.Wire.{Width, w8, w16, w24, size, limit, CryptoByte, IsLawful}
use goktls.Wire.Build.{
  Builder, ◌⊕◌, ◌>>=◌, >>=-eq-some, each, add_bytes, add_prefixed, add_uint, built_both,
  read_prefixed-only, length-prefixed, in_turn, is_empty, is_empty-eq_false, optional, ⊕-nothing,
}
use goktls.Wire.Extensions.{extension}
use goktls.Wire.Lists.{strings}
use goktls.Messages.{type_client_hello}
use goktls.Messages.ClientHello.{
  ClientHelloMsg, binders, extensions, fields, marshal, key_share, psk_identity, host_name,
}

-- An error, a slice out of range, or a value.
pub data Completion {ℓ} (A : Type ℓ) : Type ℓ where
  errors panics : Completion A
  gives : A → Completion A

-- bindersLen.
unfoldable pub binders_len : List (List ℕ) → ℕ
binders_len [] = 2
binders_len (b ∷ bs) = 1 + length b + binders_len bs

-- The loop over the lengths.
unfoldable pub same_lengths : List (List ℕ) → List (List ℕ) → Bool
same_lengths [] bs = true
same_lengths (c ∷ cs) [] = false
same_lengths (c ∷ cs) (b ∷ bs) = (length b == length c) && same_lengths cs bs

module _ (cb : CryptoByte) where
  unfoldable pub marshal_without_binders : ClientHelloMsg → Completion (List ℕ × ClientHelloMsg)
  marshal_without_binders m = elim (marshal cb m) [
    | none ↦ errors
    | some (full, m') ↦
        if ltb (length full) (binders_len m.psk_binders)
        then panics
        else gives (take (length full - binders_len m.psk_binders) full, m')
  ]

  -- The builder over the front of m.raw, and the test on the length of what it wrote.
  unfoldable pub overwrite_binders : ClientHelloMsg → List ℕ → Completion ClientHelloMsg
  unfolding marshal_without_binders
  overwrite_binders m raw = elim (marshal_without_binders m) [
    | errors ↦ errors
    | panics ↦ panics
    | gives (hello, m') ↦ elim (some (take (length hello) raw) ⊕ binders cb m.psk_binders) [
      | none ↦ errors
      | some out ↦ if length out == length raw then gives (record m { raw = some out }) else errors
    ]
  ]

  -- An error loses the message: both callers give the handshake up.
  unfoldable pub update_binders : ClientHelloMsg → List (List ℕ) → Completion ClientHelloMsg
  unfolding overwrite_binders
  update_binders m bs =
      if (length bs == length m.psk_binders) && same_lengths m.psk_binders bs
      then elim m.raw [
        | none ↦ gives (record m { psk_binders = bs })
        | some raw ↦ overwrite_binders (record m { psk_binders = bs }) raw
      ]
      else errors
