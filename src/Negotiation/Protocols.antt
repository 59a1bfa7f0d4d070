-- ===== src/Negotiation/Protocols.antt =====
-- The protocol that ALPN selects.
use goktls.Base.{
  ℕ, ◌≡◌, ◌⊎◌, ap, refl, Bool, true, false, ◌&&◌, ◌||◌, List, [], ◌∷◌, ◌++◌, none, some, All, arith,
  bytes_eq, inl, inr, Bool-cases, if◌then◌else◌,
}
use goktls.Negotiation.{h2, http11, offer, offers, negotiate_alpn}

-- Whether a name stands in a list.
abbrev pub has_protocol : List (List ℕ) → List ℕ → Bool
has_protocol [] s = false
has_protocol (c ∷ cs) s = if bytes_eq s c then true else has_protocol cs s

abbrev pub has_http11 : List (List ℕ) → Bool
has_http11 [] = false
has_http11 (c ∷ cs) = if bytes_eq c http11 then true else has_http11 cs

-- Whether an h2 server meets a client of HTTP/1.1.
abbrev pub falls_back : List (List ℕ) → List (List ℕ) → Bool
falls_back [] clients = false
falls_back (s ∷ ss) clients = (bytes_eq s h2 && has_http11 clients) || falls_back ss clients

offer_found : (s : List ℕ) (cs : List (List ℕ)) (f : Bool) → (offer s cs f).0 ≡ has_protocol cs s
unfolding offer
offer_found s [] f = refl
offer_found s (c ∷ cs) f =
    ground (arith, offer_found s cs (if bytes_eq s h2 && bytes_eq c http11 then true else f))

offer_fallback :
    (s : List ℕ) (cs : List (List ℕ)) (f : Bool)
    → has_protocol cs s ≡ false
    → (offer s cs f).1 ≡ f || (bytes_eq s h2 && has_http11 cs)
unfolding offer
offer_fallback s [] f h = ground arith
offer_fallback s (c ∷ cs) f h =
    ground (arith, offer_fallback s cs (if bytes_eq s h2 && bytes_eq c http11 then true else f))

-- The first of the server's protocols that the client has.
abbrev pub IsFirst : List (List ℕ) → List (List ℕ) → List ℕ → Type 0
IsFirst server client s =
    (before : List (List ℕ)) × (after : List (List ℕ)) × (server ≡ before ++ (s ∷ after))
    × (has_protocol client s ≡ true)
    × All (λ p. has_protocol client p ≡ false) before

offers_result :
    (server client : List (List ℕ)) (f : Bool)
    → ((s : List ℕ) × (offers server client f ≡ some s) × IsFirst server client s)
      ⊎ (All (λ p. has_protocol client p ≡ false) server
          × (offers server client f ≡ (if f || falls_back server client then some [] else none)))
unfolding offers
offers_result [] client f = inr (tt, ground arith)
offers_result (s ∷ ss) client f = elim (Bool-cases (has_protocol client s)) [
  | inl t ↦ inl (s, ground (arith, t, offer_found s client f), ([], ss, refl, t, tt))
  | inr no_s ↦ elim (offers_result ss client (offer s client f).1) [
    | inl (p, found, (before, after, split, good, bad)) ↦ inl (
      p,
      ground (arith, found, no_s, offer_found s client f),
      (s ∷ before, after, ap (◌∷◌ s) split, good, (no_s, bad)),
    )
    | inr (bad, missing) ↦ inr (
      (no_s, bad),
      ground (arith, missing, no_s, offer_found s client f, offer_fallback s client f no_s),
    )
  ]
]

both_offer :
    (s : List ℕ) (ss : List (List ℕ)) (c : List ℕ) (cs : List (List ℕ))
    → negotiate_alpn (s ∷ ss) (c ∷ cs) ≡ offers (s ∷ ss) (c ∷ cs) false
unfolding negotiate_alpn
both_offer s ss c cs = ground arith

-- ALPN with two lists that are not empty: the first of the server's protocols that the client has is
-- selected; if there is none, the result is no protocol where the server has h2 and the client
-- http/1.1, and an error otherwise.
pub negotiate_alpn-IsFirst :
    (s : List ℕ) (ss : List (List ℕ)) (c : List ℕ) (cs : List (List ℕ))
    → ((p : List ℕ) × (negotiate_alpn (s ∷ ss) (c ∷ cs) ≡ some p) × IsFirst (s ∷ ss) (c ∷ cs) p)
      ⊎ (All (λ p. has_protocol (c ∷ cs) p ≡ false) (s ∷ ss)
          × (negotiate_alpn (s ∷ ss) (c ∷ cs)
              ≡ (if falls_back (s ∷ ss) (c ∷ cs) then some [] else none)))
negotiate_alpn-IsFirst s ss c cs = rw (both_offer s ss c cs) (offers_result (s ∷ ss) (c ∷ cs) false)
