-- ===== src/Session/Cache/Valid.antt =====
-- The steps of Put and Get of lruSessionCache on a valid cache.
use goktls.Base.{
  ℕ, suc, ◌<◌, ◌==◌, ◌≡◌, false, List, [], ◌∷◌, Option, none, some, length, All, bytes_eq,
  bytes_eq_sound, arith, Bool-cases, inl, inr,
}
use goktls.Session.Cache.{Element, LruSessionCache, assign, remove, find, move_to_front}
use goktls.Session.Cache.Recency.{id_of, IsValid}
use goktls.Session.Cache.Queue.{
  find-All, remove-All, remove-Apart, length-remove, id_of-find, id_of-remove, remove-others,
}

-- A list without the key has no element of it.
others :
    (k : List ℕ) (n : ℕ) (q : List Element)
    → id_of k q ≡ none
    → All (λ (e : Element). e.id < n) q
    → All (λ (f : Element). ((f.id == n) ≡ false) × (bytes_eq f.session_key k ≡ false)) q
unfolding id_of
others k n [] absent fresh = tt
others k n (x ∷ q) absent fresh = elim (Bool-cases (bytes_eq x.session_key k)) [
  | inl same ↦ absurd (ground arith)
  | inr other ↦ ((ground arith, other), others k n q (ground arith) fresh.1)
]

later :
    (n : ℕ) (q : List Element)
    → All (λ (e : Element). e.id < n) q
    → All (λ (e : Element). e.id < suc n) q
later n [] fresh = tt
later n (x ∷ q) fresh = (omega arith, later n q fresh.1)

renamed :
    (k : List ℕ) (i : ℕ) (old : List ℕ) (q : List Element)
    → id_of k q ≡ none
    → All (λ (f : Element). ((f.id == i) ≡ false) × (bytes_eq f.session_key old ≡ false)) q
    → All (λ (f : Element). ((f.id == i) ≡ false) × (bytes_eq f.session_key k ≡ false)) q
unfolding id_of
renamed k i old [] absent all = tt
renamed k i old (x ∷ q) absent all = elim (Bool-cases (bytes_eq x.session_key k)) [
  | inl same ↦ absurd (ground arith)
  | inr other ↦ ((all.0.0, other), renamed k i old q (ground arith) all.1)
]

module _ (c : LruSessionCache) (valid : IsValid c) where
  pub moved-IsValid :
      (e : Element) (s : Option ℕ)
      → find e.id c.queue ≡ some e
      → IsValid (record c { queue = move_to_front (record e { state = s }) c.queue })
  unfolding move_to_front id_of
  moved-IsValid e s found = record {
    found = λ k. ground (
      arith,
      valid.found k,
      id_of-remove e.id c.queue k valid.apart found,
      id_of-find e.id c.queue valid.apart found,
      bytes_eq_sound e.session_key k,
    );
    apart = (remove-others e.id c.queue valid.apart found, remove-Apart e.id c.queue valid.apart);
    fresh = (find-All _ e.id c.queue valid.fresh found, remove-All _ e.id c.queue valid.fresh);
    some_room = valid.some_room;
    within = omega (arith, length-remove e.id c.queue found, valid.within);
  }

  pub removed-IsValid :
      (e : Element)
      → find e.id c.queue ≡ some e
      → IsValid (record c {
        queue = remove e.id c.queue;
        elements = assign c.elements e.session_key none;
      })
  removed-IsValid e found = record {
    found = λ k. ground (arith, valid.found k, id_of-remove e.id c.queue k valid.apart found);
    apart = remove-Apart e.id c.queue valid.apart;
    fresh = remove-All _ e.id c.queue valid.fresh;
    some_room = valid.some_room;
    within = omega (arith, length-remove e.id c.queue found, valid.within);
  }

  pub pushed-IsValid :
      (k : List ℕ) (cs : Option ℕ)
      → id_of k c.queue ≡ none
      → length c.queue < c.capacity
      → IsValid (record c {
        queue = record { id = c.next_id; session_key = k; state = cs } ∷ c.queue;
        elements = assign c.elements k (some c.next_id);
        next_id = suc c.next_id;
      })
  unfolding id_of
  pushed-IsValid k cs absent room = record {
    found = λ j. ground (arith, valid.found j);
    apart = (others k c.next_id c.queue absent valid.fresh, valid.apart);
    fresh = (omega arith, later c.next_id c.queue valid.fresh);
    some_room = valid.some_room;
    within = room;
  }

  pub evicted-IsValid :
      (e : Element) (k : List ℕ) (cs : Option ℕ)
      → find e.id c.queue ≡ some e
      → id_of k c.queue ≡ none
      → IsValid (record c {
        queue = move_to_front (record e { session_key = k; state = cs }) c.queue;
        elements = assign (assign c.elements e.session_key none) k (some e.id);
      })
  unfolding move_to_front id_of
  evicted-IsValid e k cs found absent = record {
    found = λ j. ground (arith, valid.found j, id_of-remove e.id c.queue j valid.apart found);
    apart = (
      renamed k e.id e.session_key (remove e.id c.queue)
          (ground (arith, id_of-remove e.id c.queue k valid.apart found))
          (remove-others e.id c.queue valid.apart found),
      remove-Apart e.id c.queue valid.apart,
    );
    fresh = (find-All _ e.id c.queue valid.fresh found, remove-All _ e.id c.queue valid.fresh);
    some_room = valid.some_room;
    within = omega (arith, length-remove e.id c.queue found, valid.within);
  }
