-- ===== src/Tests/OfSession.antt =====
-- Tests and examples of tickets and of the client's session cache.
use goktls.Base.{
  inl, ℕ, ◌≡◌, refl, true, false, List, [], ◌∷◌, ◌++◌, none, some, replicate, arith, if◌then◌else◌,
  ltb, bytes_eq,
}
use goktls.Tests.BigEndian.{big_endian, big_endian-IsLawful}
use goktls.Wire.Build.{◌⊕◌, each, add_prefixed}
use goktls.Wire.Extensions.{extension}
use goktls.Messages.Certificate13.{leaf_extensions, marshal_certificate}
use goktls.Session.State
use goktls.Session.State.{SessionState, SessionState13}
use goktls.Session.Ticket.{
  TicketKey, TicketOps, TicketLaws, encrypt_ticket, decrypt_ticket, decrypt-encrypt_ticket,
}
use goktls.Session.Cache.{LruSessionCache, put, get}
use goktls.Session.Cache.Recency.{IsValid, lookup, spec_insert, spec_put, spec_get, view, id_of}
use goktls.Session.Cache.Refines.{put-spec_put, put_nil-get, get-spec_get}

abbrev session : SessionState
session = record {
  vers = 0x303;
  cipher_suite = 0xc02f;
  created_at = 4294967297;
  master_secret = 1 ∷ 2 ∷ [];
  certificates = (3 ∷ []) ∷ [] ∷ [];
  used_old_key = false;
}

abbrev session_bytes : List ℕ
session_bytes =
    3 ∷ 3 ∷ 192 ∷ 47 ∷ 0 ∷ 0 ∷ 0 ∷ 1 ∷ 0 ∷ 0 ∷ 0 ∷ 1 ∷ 0 ∷ 2 ∷ 1 ∷ 2 ∷ 0 ∷ 0 ∷ 7 ∷ 0 ∷ 0 ∷ 1 ∷ 3 ∷ 0
    ∷ 0 ∷ 0 ∷ []

session_written : State.marshal big_endian session ≡ some session_bytes
unfolding State.marshal ◌⊕◌ each add_prefixed big_endian
session_written = refl

session_read_back_example :
    State.unmarshal big_endian (record session { used_old_key = true }) session_bytes
    ≡ some (record session { used_old_key = true })
session_read_back_example =
    State.unmarshal-marshal_session_state big_endian big_endian-IsLawful session
      (record session { used_old_key = true }) (omega arith) (omega arith) (omega arith)
      (omega arith) session_written

abbrev session13 : SessionState13
session13 = record {
  cipher_suite = 0x1301;
  created_at = 7;
  resumption_secret = 1 ∷ [];
  certificate = record { chain = (2 ∷ []) ∷ []; ocsp_staple = none; timestamps = none };
}

abbrev session13_bytes : List ℕ
session13_bytes =
    3 ∷ 4 ∷ 0 ∷ 19 ∷ 1 ∷ 0 ∷ 0 ∷ 0 ∷ 0 ∷ 0 ∷ 0 ∷ 0 ∷ 7 ∷ 1 ∷ 1 ∷ 0 ∷ 0 ∷ 6 ∷ 0 ∷ 0 ∷ 1 ∷ 2 ∷ 0 ∷ 0
    ∷ []

session13_written : State.marshal13 big_endian session13 ≡ some session13_bytes
unfolding State.marshal13 ◌⊕◌ add_prefixed extension leaf_extensions marshal_certificate big_endian
session13_written = refl

session13_read_back_example : State.unmarshal13 big_endian session13_bytes ≡ some session13
session13_read_back_example =
    State.unmarshal-marshal_session_state13 big_endian big_endian-IsLawful session13 (omega arith)
      (omega arith) (omega arith)
      (record {
        staple = λ c. cc;
        some_timestamp = λ c. cc;
        timestamps = tt;
        no_leaf = λ c. (refl, refl);
      })
      session13_written

-- A key stream that changes nothing, and a MAC of zeros.
abbrev toy_tickets : TicketOps
toy_tickets = record {
  accepts = λ key. true;
  ctr = λ key iv text. text;
  hmac = λ key text. replicate 32 0;
}

toy_tickets_laws : TicketLaws toy_tickets
toy_tickets_laws = record { ctr-ctr = λ key iv text. refl; length-hmac = λ key text. refl }

abbrev ticket_key : ℕ → TicketKey
ticket_key n = record {
  key_name = replicate 16 n;
  aes_key = replicate 16 n;
  hmac_key = replicate 16 n;
}

abbrev ticket : List ℕ
ticket = (replicate 16 1 ++ (replicate 16 9 ++ (5 ∷ 6 ∷ []))) ++ replicate 32 0

ticket_encrypted :
    encrypt_ticket toy_tickets (ticket_key 1 ∷ []) (some (replicate 16 9)) (5 ∷ 6 ∷ [])
    ≡ some ticket
unfolding encrypt_ticket
ticket_encrypted = refl

-- After a rotation the ticket is opened by the old key.
decrypt-encrypt_ticket_example :
    decrypt_ticket toy_tickets ((ticket_key 2 ∷ []) ++ ticket_key 1 ∷ []) ticket
    ≡ some (5 ∷ 6 ∷ [], ltb 0 1)
decrypt-encrypt_ticket_example =
    decrypt-encrypt_ticket toy_tickets toy_tickets_laws (ticket_key 1) [] (ticket_key 2 ∷ []) []
      (replicate 16 9) (5 ∷ 6 ∷ []) refl refl (refl, tt) ticket_encrypted

abbrev full_cache : LruSessionCache
full_cache = record {
  elements = λ k. if bytes_eq (1 ∷ []) k then some 4 else none;
  queue = record { id = 4; session_key = 1 ∷ []; state = some 8 } ∷ [];
  capacity = 1;
  next_id = 5;
}

full_cache-IsValid : IsValid full_cache
unfolding id_of
full_cache-IsValid = record {
  found = λ k. refl;
  apart = (tt, tt);
  fresh = omega arith;
  some_room = omega arith;
  within = omega arith;
}

not_cached : lookup (2 ∷ []) (view full_cache.queue) ≡ none
unfolding lookup view
not_cached = refl

-- The second key takes the place of the first.
put-spec_put_example :
    (c' : LruSessionCache) × (put (2 ∷ []) (some 9) full_cache ≡ some c')
    × IsValid c'
    × (view c'.queue ≡ spec_put 1 (2 ∷ []) (some 9) (view full_cache.queue))
    × (◌≡◌ {A = ℕ} c'.capacity 1)
put-spec_put_example = put-spec_put full_cache (2 ∷ []) (some 9) full_cache-IsValid (inl λ e. cc e)

put_nil-get_example :
    (c' : LruSessionCache) × (c'' : LruSessionCache) × (put (2 ∷ []) none full_cache ≡ some c')
    × (view c'.queue ≡ spec_insert 1 (2 ∷ []) none (view full_cache.queue))
    × (get (2 ∷ []) c' ≡ some ((none, true), c''))
put_nil-get_example = put_nil-get full_cache (2 ∷ []) full_cache-IsValid not_cached

get-spec_get_example :
    (c' : LruSessionCache) × (get (1 ∷ []) full_cache
      ≡ some ((spec_get (1 ∷ []) (view full_cache.queue)).0, c'))
    × IsValid c'
    × (view c'.queue ≡ (spec_get (1 ∷ []) (view full_cache.queue)).1)
    × (◌≡◌ {A = ℕ} c'.capacity 1)
get-spec_get_example = get-spec_get full_cache (1 ∷ []) full_cache-IsValid

eviction : spec_put 1 (2 ∷ []) (some 9) (view full_cache.queue) ≡ (2 ∷ [], some 9) ∷ []
unfolding spec_put view
eviction = refl
