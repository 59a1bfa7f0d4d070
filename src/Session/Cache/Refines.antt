-- ===== src/Session/Cache/Refines.antt =====
-- Put and Get of lruSessionCache against the pairs in the order of last use.
use goktls.Base.{
  ℕ, suc, ◌<◌, ◌≡◌, refl, sym, List, ◌∷◌, Option, none, some, length, ltb, bytes_eq_refl, ◌≢◌, ◌⊎◌,
  ◌∙◌, ap, true, arith, Option-cases, Bool-cases, inl, inr,
}
use goktls.Session.Cache.{LruSessionCache, assign, remove, find, move_to_front, put, get}
use goktls.Session.Cache.Recency.{
  Pairs, lookup, drop_last, spec_insert, spec_put, spec_get, view, id_of, IsValid,
}
use goktls.Session.Cache.Queue.{
  find-id, find-id_of, lookup-view-none, lookup-view, length-view, back-find,
}
use goktls.Session.Cache.Valid.{moved-IsValid, removed-IsValid, pushed-IsValid, evicted-IsValid}

module _ (c : LruSessionCache) (valid : IsValid c) (k : List ℕ) where
  put_present :
      (i : ℕ)
      → id_of k c.queue ≡ some i
      → (cs : Option ℕ)
      → (c' : LruSessionCache) × (put k cs c ≡ some c')
        × IsValid c'
        × (view c'.queue ≡ spec_put c.capacity k cs (view c.queue))
        × (c'.capacity ≡ c.capacity)
  unfolding put spec_put move_to_front view
  put_present i present none =
      let (e, found, key) = find-id_of k c.queue i valid.apart present in
      let e_i = find-id i c.queue found in
      let found' : find e.id c.queue ≡ some e = rw e_i found in
      let (seen, cut) = lookup-view e.id c.queue valid.apart found' in
      (
        record c { queue = remove e.id c.queue; elements = assign c.elements e.session_key none },
        rw (valid.found k, put, present, found, sym key, e_i),
        removed-IsValid c valid e found',
        rw (spec_put, sym key, cut),
        refl,
      )
  put_present i present (some s) =
      let (e, found, key) = find-id_of k c.queue i valid.apart present in
      let e_i = find-id i c.queue found in
      let found' : find e.id c.queue ≡ some e = rw e_i found in
      let (seen, cut) = lookup-view e.id c.queue valid.apart found' in
      let seen' : lookup k (view c.queue) ≡ some e.state = rw (sym key) seen in
      (
        record c { queue = move_to_front (record e { state = some s }) c.queue },
        rw (valid.found k, put, present, found),
        moved-IsValid c valid e (some s) found',
        rw (seen', spec_put, sym key, cut),
        refl,
      )

  put_absent :
      id_of k c.queue ≡ none
      → (cs : Option ℕ)
      → (c' : LruSessionCache) × (put k cs c ≡ some c')
        × IsValid c'
        × (view c'.queue ≡ spec_insert c.capacity k cs (view c.queue))
        × (c'.capacity ≡ c.capacity)
  unfolding put spec_insert move_to_front view
  put_absent absent cs =
      let len = length-view c.queue in
      elim (Bool-cases (ltb (length c.queue) c.capacity)) [
        | inl room ↦ (
          record c {
            queue = record { id = c.next_id; session_key = k; state = cs } ∷ c.queue;
            elements = assign c.elements k (some c.next_id);
            next_id = suc c.next_id;
          },
          rw (valid.found k, put, absent, room),
          pushed-IsValid c valid k cs absent (ground (arith, room)),
          rw (spec_insert, len, room),
          refl,
        )
        | inr full ↦
            let long : 0 < length c.queue = ground (arith, full, valid.some_room) in
            let (e, last, found, cut) = back-find c.queue long valid.apart in
            (
              record c {
                queue = move_to_front (record e { session_key = k; state = cs }) c.queue;
                elements = assign (assign c.elements e.session_key none) k (some e.id);
              },
              rw (valid.found k, put, absent, full, last),
              evicted-IsValid c valid e k cs found absent,
              rw (spec_insert, len, full, cut),
              refl,
            )
      ]

-- From a valid cache put never follows a nil pointer; it keeps the cache valid and the capacity. Where
-- the state is not nil or the key is in the cache, it does to the pairs in the order of last use what
-- the comments on it say.
pub put-spec_put :
    (c : LruSessionCache) (k : List ℕ) (cs : Option ℕ)
    → IsValid c
    → (cs ≢ none) ⊎ (lookup k (view c.queue) ≢ none)
    → (c' : LruSessionCache) × (put k cs c ≡ some c')
      × IsValid c'
      × (view c'.queue ≡ spec_put c.capacity k cs (view c.queue))
      × (c'.capacity ≡ c.capacity)
unfolding spec_put
put-spec_put c k cs valid covered = elim (Option-cases (id_of k c.queue)) [
  | inr (i, present) ↦ put_present c valid k i present cs
  | inl absent ↦ put_new cs covered absent
]
  where
    put_new :
        (cs : Option ℕ)
        → (cs ≢ none) ⊎ (lookup k (view c.queue) ≢ none)
        → id_of k c.queue ≡ none
        → (c' : LruSessionCache) × (put k cs c ≡ some c')
          × IsValid c'
          × (view c'.queue ≡ spec_put c.capacity k cs (view c.queue))
          × (c'.capacity ≡ c.capacity)
    put_new none (inl state) absent = absurd (state refl)
    put_new none (inr key) absent = absurd (key (lookup-view-none k c.queue absent))
    put_new (some s) covered absent =
        let (c', done, valid', shown, same) = put_absent c valid k absent (some s) in
        let seen = lookup-view-none k c.queue absent in
        (c', done, valid', rw (spec_put, seen) shown, same)

first_found : (k : List ℕ) (s : Option ℕ) (ps : Pairs) → (spec_get k ((k, s) ∷ ps)).0 ≡ (s, true)
unfolding spec_get lookup
first_found k s ps = rw (spec_get, lookup, bytes_eq_refl k) refl

inserted_found :
    (capacity : ℕ) (k : List ℕ) (s : Option ℕ) (ps : Pairs)
    → (spec_get k (spec_insert capacity k s ps)).0 ≡ (s, true)
unfolding spec_insert
inserted_found capacity k s ps = elim (Bool-cases (ltb (length ps) capacity)) [
  | inl room ↦ rw room (first_found k s ps)
  | inr full ↦ rw full (first_found k s (drop_last ps))
]

-- From a valid cache get never follows a nil pointer; it keeps the cache valid and the capacity,
-- and gives and does what spec_get says.
pub get-spec_get :
    (c : LruSessionCache) (k : List ℕ)
    → IsValid c
    → (c' : LruSessionCache) × (get k c ≡ some ((spec_get k (view c.queue)).0, c'))
      × IsValid c'
      × (view c'.queue ≡ (spec_get k (view c.queue)).1)
      × (c'.capacity ≡ c.capacity)
unfolding get spec_get move_to_front view
get-spec_get c k valid = elim (Option-cases (id_of k c.queue)) [
  | inl absent ↦
      let seen = lookup-view-none k c.queue absent in
      (c, rw (valid.found k, get, absent, seen, spec_get), valid, rw (seen, spec_get), refl)
  | inr (i, present) ↦
      let (e, found, key) = find-id_of k c.queue i valid.apart present in
      let e_i = find-id i c.queue found in
      let found' : find e.id c.queue ≡ some e = rw e_i found in
      let (seen, cut) = lookup-view e.id c.queue valid.apart found' in
      let seen' : lookup k (view c.queue) ≡ some e.state = rw (sym key) seen in
      (
        record c { queue = move_to_front e c.queue },
        rw (valid.found k, get, present, found, seen', spec_get),
        moved-IsValid c valid e e.state found',
        rw (seen', spec_get, sym key, cut),
        refl,
      )
]

-- Put with nil for a key that a valid cache does not have, where the comments promise a removal: the
-- key is inserted with nil, the oldest pair gives way if the cache is full, and a Get of the key then
-- returns nil and true.
pub put_nil-get :
    (c : LruSessionCache) (k : List ℕ)
    → IsValid c
    → lookup k (view c.queue) ≡ none
    → (c' : LruSessionCache) × (c'' : LruSessionCache) × (put k none c ≡ some c')
      × (view c'.queue ≡ spec_insert c.capacity k none (view c.queue))
      × (get k c' ≡ some ((none, true), c''))
put_nil-get c k valid unknown = elim (Option-cases (id_of k c.queue)) [
  | inr (i, present) ↦
      let (e, found, key) = find-id_of k c.queue i valid.apart present in
      let e_i = find-id i c.queue found in
      let found' : find e.id c.queue ≡ some e = rw e_i found in
      let (seen, cut) = lookup-view e.id c.queue valid.apart found' in
      let seen' : lookup k (view c.queue) ≡ some e.state = rw (sym key) seen in
      absurd (cc (seen', unknown))
  | inl absent ↦
      let (c', done, valid', shown, same) = put_absent c valid k absent none in
      let (c'', got, valid'', shown', same') = get-spec_get c' k valid' in
      let front : (spec_get k (view c'.queue)).0 ≡ (none, true) =
        rw shown (inserted_found c.capacity k none (view c.queue)) in
      (c', c'', done, shown, got ∙ ap (λ r. some (r, c'')) front)
]
