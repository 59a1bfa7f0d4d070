-- ===== src/Session/Cache.antt =====
-- lruSessionCache of common.go: a map from keys to elements of a list in the order of last use. An
-- element has an identity, which stands for its pointer. A number stands for a pointer to a
-- ClientSessionState, `none` for nil.
pub mod Recency
pub mod Valid
pub mod Queue
pub mod Refines
use goktls.Base.{
  ℕ, zero, suc, ◌+◌, ◌-◌, ◌<◌, ◌≤◌, ◌==◌, ◌≡◌, Bool, true, false, not, List, [], ◌∷◌, Option, none,
  some, length, if◌then◌else◌, ltb, bytes_eq,
}

pub record Element : Type 0 where
  pub id : ℕ
  pub session_key : List ℕ
  pub state : Option ℕ

pub record LruSessionCache : Type 0 where
  pub elements : List ℕ → Option ℕ
  pub queue : List Element
  pub capacity : ℕ
  pub next_id : ℕ

-- NewLRUClientSessionCache.
unfoldable pub new_cache : ℕ → LruSessionCache
new_cache capacity = record {
  elements = λ k. none;
  queue = [];
  capacity = if ltb capacity 1 then 64 else capacity;
  next_id = 0;
}

-- The map's `m[k] = v` and `delete(m, k)`.
abbrev pub assign : (List ℕ → Option ℕ) → List ℕ → Option ℕ → List ℕ → Option ℕ
assign m k v j = if bytes_eq k j then v else m j

-- container/list: Remove, the element of a pointer, Back, and MoveToFront.
unfoldable pub remove : ℕ → List Element → List Element
remove id [] = []
remove id (e ∷ q) = if e.id == id then q else e ∷ remove id q

unfoldable pub find : ℕ → List Element → Option Element
find id [] = none
find id (e ∷ q) = if e.id == id then some e else find id q

unfoldable pub back : List Element → Option Element
back [] = none
back (e ∷ []) = some e
back (e ∷ f ∷ q) = back (f ∷ q)

-- MoveToFront of an element whose entry has been set to `e`.
unfoldable pub move_to_front : Element → List Element → List Element
unfolding remove
move_to_front e q = e ∷ remove e.id q

-- `none` is a nil dereference.
unfoldable pub put : List ℕ → Option ℕ → LruSessionCache → Option LruSessionCache
unfolding find back move_to_front remove
put session_key cs c = elim (c.elements session_key) [
  | some elem ↦ elim (find elem c.queue) [
    | none ↦ none
    | some e ↦ elim cs [
      | none ↦
          some (record c {
            queue = remove elem c.queue;
            elements = assign c.elements session_key none;
          })
      | some s ↦ some (record c { queue = move_to_front (record e { state = some s }) c.queue })
    ]
  ]
  | none ↦
      if ltb (length c.queue) c.capacity
      then some (record c {
        queue = record { id = c.next_id; session_key = session_key; state = cs } ∷ c.queue;
        elements = assign c.elements session_key (some c.next_id);
        next_id = suc c.next_id;
      })
      else elim (back c.queue) [
        | none ↦ none
        | some e ↦ some (record c {
          queue = move_to_front (record e { session_key = session_key; state = cs }) c.queue;
          elements = assign (assign c.elements e.session_key none) session_key (some e.id);
        })
      ]
]

-- The state and true, or nil and false, with the cache afterwards.
unfoldable pub get : List ℕ → LruSessionCache → Option ((Option ℕ × Bool) × LruSessionCache)
unfolding find move_to_front
get session_key c = elim (c.elements session_key) [
  | none ↦ some ((none, false), c)
  | some elem ↦ elim (find elem c.queue) [
    | none ↦ none
    | some e ↦ some ((e.state, true), record c { queue = move_to_front e c.queue })
  ]
]
