-- ===== src/Session/Cache/Recency.antt =====
-- What the comments on the cache promise, without map and pointers: pairs in the order of last use.
use goktls.Base.{
  ℕ, ◌<◌, ◌≤◌, ◌==◌, ◌≡◌, Bool, true, false, List, [], ◌∷◌, Option, none, some, length, All,
  if◌then◌else◌, ltb, bytes_eq,
}
use goktls.Session.Cache.{Element, LruSessionCache}

abbrev pub Pairs : Type 0
Pairs = List (List ℕ × Option ℕ)

unfoldable pub lookup : List ℕ → Pairs → Option (Option ℕ)
lookup k [] = none
lookup k (p ∷ ps) = if bytes_eq p.0 k then some p.1 else lookup k ps

unfoldable pub drop_key : List ℕ → Pairs → Pairs
drop_key k [] = []
drop_key k (p ∷ ps) = if bytes_eq p.0 k then ps else p ∷ drop_key k ps

unfoldable pub drop_last : Pairs → Pairs
drop_last [] = []
drop_last (p ∷ []) = []
drop_last (p ∷ q ∷ ps) = p ∷ drop_last (q ∷ ps)

-- A new pair is put in front, where the oldest gives way if there are as many as `capacity`.
unfoldable pub spec_insert : ℕ → List ℕ → Option ℕ → Pairs → Pairs
unfolding drop_last
spec_insert capacity k cs ps =
    if ltb (length ps) capacity then (k, cs) ∷ ps else (k, cs) ∷ drop_last ps

-- What the comments on Put and on ClientSessionCache say: nil removes the key's pair, if there is
-- one. Else a present key is moved to the front with the new state, and an absent one is inserted.
unfoldable pub spec_put : ℕ → List ℕ → Option ℕ → Pairs → Pairs
unfolding lookup drop_key spec_insert
spec_put capacity k none ps = drop_key k ps
spec_put capacity k (some s) ps = elim (lookup k ps) [
  | some old ↦ (k, some s) ∷ drop_key k ps
  | none ↦ spec_insert capacity k (some s) ps
]

unfoldable pub spec_get : List ℕ → Pairs → (Option ℕ × Bool) × Pairs
unfolding lookup drop_key
spec_get k ps = elim (lookup k ps) [
  | none ↦ ((none, false), ps)
  | some s ↦ ((s, true), (k, s) ∷ drop_key k ps)
]

unfoldable pub view : List Element → Pairs
view [] = []
view (e ∷ q) = (e.session_key, e.state) ∷ view q

-- The pointer of a key, by a search of the list.
unfoldable pub id_of : List ℕ → List Element → Option ℕ
id_of k [] = none
id_of k (e ∷ q) = if bytes_eq e.session_key k then some e.id else id_of k q

-- No later element has the same pointer or key.
abbrev pub Apart : List Element → Type 0
Apart [] = Unit {0}
Apart (e ∷ q) =
    All (λ (f : Element). ((f.id == e.id) ≡ false) × (bytes_eq f.session_key e.session_key ≡ false))
      q
    × Apart q

pub record IsValid (c : LruSessionCache) : Type 0 where
  pub found : (k : List ℕ) → c.elements k ≡ id_of k c.queue
  pub apart : Apart c.queue
  pub fresh : All (λ (e : Element). e.id < c.next_id) c.queue
  pub some_room : 0 < c.capacity
  pub within : length c.queue ≤ c.capacity
