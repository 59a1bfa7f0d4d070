-- ===== src/Session/Cache/Queue.antt =====
-- The list of the cache: what find, remove and back do where no two elements have the same pointer
-- or the same key.
use goktls.Base.{
  ℕ, suc, ◌<◌, ◌==◌, ◌≡◌, ==_refl, refl, sym, ap, subst, false, List, [], ◌∷◌, none, some, length,
  All, if◌then◌else◌, bytes_eq, bytes_eq_sound, bytes_eq_refl, arith, Bool-cases, inl, inr,
}
use goktls.Session.Cache.{Element, remove, find, back}
use goktls.Session.Cache.Recency.{lookup, drop_key, drop_last, view, id_of, Apart}

pub find-All {ℓ} :
    (P : Element → Type ℓ) (i : ℕ) (q : List Element) {e : Element}
    → All P q
    → find i q ≡ some e
    → P e
unfolding find
find-All P i [] all h = absurd (cc h)
find-All P i (x ∷ q) {e} all h = elim (Bool-cases (x.id == i)) [
  | inl same ↦ let x_e : x ≡ e = ground arith in subst P x_e all.0
  | inr other ↦ let later : find i q ≡ some e = ground arith in find-All P i q all.1 later
]

pub remove-All {ℓ} :
    (P : Element → Type ℓ) (i : ℕ) (q : List Element) → All P q → All P (remove i q)
unfolding remove
remove-All P i [] all = all
remove-All P i (x ∷ q) all = elim (Bool-cases (x.id == i)) [
  | inl same ↦ rw same all.1
  | inr other ↦ rw other (all.0, remove-All P i q all.1)
]

pub remove-Apart : (i : ℕ) (q : List Element) → Apart q → Apart (remove i q)
unfolding remove
remove-Apart i [] apart = apart
remove-Apart i (x ∷ q) apart = elim (Bool-cases (x.id == i)) [
  | inl same ↦ rw same apart.1
  | inr other ↦ rw other (remove-All _ i q apart.0, remove-Apart i q apart.1)
]

pub find-id : (i : ℕ) (q : List Element) {e : Element} → find i q ≡ some e → e.id ≡ i
unfolding find
find-id i [] h = absurd (cc h)
find-id i (x ∷ q) {e} h = ground (arith, find-id i q {e = e})

pub length-remove :
    (i : ℕ) (q : List Element) {e : Element}
    → find i q ≡ some e
    → suc (length (remove i q)) ≡ length q
unfolding find remove
length-remove i [] h = absurd (cc h)
length-remove i (x ∷ q) {e} h = ground (arith, length-remove i q {e = e})

pub id_of-none :
    (k : List ℕ) (q : List Element)
    → All (λ (f : Element). bytes_eq f.session_key k ≡ false) q
    → id_of k q ≡ none
unfolding id_of
id_of-none k [] all = refl
id_of-none k (x ∷ q) all = ground (arith, id_of-none k q all.1)

keys_apart :
    (k : List ℕ) (i : ℕ) (q : List Element)
    → All (λ (f : Element). ((f.id == i) ≡ false) × (bytes_eq f.session_key k ≡ false)) q
    → All (λ (f : Element). bytes_eq f.session_key k ≡ false) q
keys_apart k i [] all = tt
keys_apart k i (x ∷ q) all = (all.0.1, keys_apart k i q all.1)

-- The element of a pointer is the one that its key leads to.
pub id_of-find :
    (i : ℕ) (q : List Element) {e : Element}
    → Apart q
    → find i q ≡ some e
    → id_of e.session_key q ≡ some i
unfolding find id_of
id_of-find i [] apart h = absurd (cc h)
id_of-find i (x ∷ q) {e} apart h = elim (Bool-cases (x.id == i)) [
  | inl same ↦
      let x_e : x ≡ e = ground arith in
      let x_i : x.id ≡ i = ground arith in rw (sym x_e, bytes_eq_refl x.session_key, x_i)
  | inr other ↦
      let later : find i q ≡ some e = ground arith in
      let differ = find-All _ i q apart.0 later in
      let sound = bytes_eq_sound x.session_key e.session_key in
      let self = bytes_eq_refl e.session_key in
      ground (arith, id_of-find i q apart.1 later, sound, self)
]

pub id_of-remove :
    (i : ℕ) (q : List Element) (j : List ℕ) {e : Element}
    → Apart q
    → find i q ≡ some e
    → id_of j (remove i q) ≡ (if bytes_eq e.session_key j then none else id_of j q)
unfolding find id_of remove
id_of-remove i [] j apart h = absurd (cc h)
id_of-remove i (x ∷ q) j {e} apart h = elim (Bool-cases (x.id == i)) [
  | inl same ↦
      let x_e : x ≡ e = ground arith in
      let gone = id_of-none x.session_key q (keys_apart x.session_key x.id q apart.0) in
      let sound = bytes_eq_sound x.session_key j in ground (arith, gone, sound, same, x_e)
  | inr other ↦
      let later : find i q ≡ some e = ground arith in
      let differ = find-All _ i q apart.0 later in
      let sound = bytes_eq_sound x.session_key j in
      let sound' = bytes_eq_sound e.session_key j in
      let self = bytes_eq_refl j in
      ground (arith, id_of-remove i q j apart.1 later, sound, sound', self, differ, other)
]

pub remove-others :
    (i : ℕ) (q : List Element) {e : Element}
    → Apart q
    → find i q ≡ some e
    → All
        (λ (f : Element). ((f.id == e.id) ≡ false) × (bytes_eq f.session_key e.session_key ≡ false))
        (remove i q)
unfolding find remove
remove-others i [] apart h = absurd (cc h)
remove-others i (x ∷ q) {e} apart h = elim (Bool-cases (x.id == i)) [
  | inl same ↦ let x_e : x ≡ e = ground arith in rw (same, sym x_e) apart.0
  | inr other ↦
      let later : find i q ≡ some e = ground arith in
      let differ = find-All _ i q apart.0 later in
      let sound = bytes_eq_sound x.session_key e.session_key in
      let self = bytes_eq_refl x.session_key in
      let here : ((x.id == e.id) ≡ false) × (bytes_eq x.session_key e.session_key ≡ false) =
        (ground (arith, differ), ground (arith, differ, sound, self)) in
      rw other (here, remove-others i q apart.1 later)
]

pub find-id_of :
    (k : List ℕ) (q : List Element) (i : ℕ)
    → Apart q
    → id_of k q ≡ some i
    → (e : Element) × (find i q ≡ some e) × (e.session_key ≡ k)
unfolding find id_of
find-id_of k [] i apart h = absurd (cc h)
find-id_of k (x ∷ q) i apart h = elim (Bool-cases (bytes_eq x.session_key k)) [
  | inl same ↦
      let x_i : x.id ≡ i = ground arith in
      (x, rw (x_i, ==_refl i), bytes_eq_sound x.session_key k same)
  | inr other ↦
      let (e, found, key) = find-id_of k q i apart.1 (ground arith) in
      let differ = find-All _ i q apart.0 found in
      let e_i = find-id i q found in (e, ground (arith, differ, e_i, found), key)
]

pub lookup-view-none : (k : List ℕ) (q : List Element) → id_of k q ≡ none → lookup k (view q) ≡ none
unfolding id_of lookup view
lookup-view-none k [] h = refl
lookup-view-none k (x ∷ q) h = ground (arith, lookup-view-none k q)

pub lookup-view :
    (i : ℕ) (q : List Element) {e : Element}
    → Apart q
    → find i q ≡ some e
    → (lookup e.session_key (view q) ≡ some e.state)
      × (drop_key e.session_key (view q) ≡ view (remove i q))
unfolding find lookup view drop_key remove
lookup-view i [] apart h = absurd (cc h)
lookup-view i (x ∷ q) {e} apart h = elim (Bool-cases (x.id == i)) [
  | inl same ↦
      let x_e : x ≡ e = ground arith in rw (same, sym x_e, bytes_eq_refl x.session_key) (refl, refl)
  | inr other ↦
      let later : find i q ≡ some e = ground arith in
      let differ = find-All _ i q apart.0 later in
      let sound = bytes_eq_sound x.session_key e.session_key in
      let self = bytes_eq_refl x.session_key in
      let no : bytes_eq x.session_key e.session_key ≡ false = ground (arith, differ, sound, self) in
      let (seen, cut) = lookup-view i q apart.1 later in rw (other, no, cut) (seen, refl)
]

pub length-view : (q : List Element) → length (view q) ≡ length q
unfolding view
length-view [] = refl
length-view (x ∷ q) = ap suc (length-view q)

-- The last element, without which the list is that of all but the last pair.
pub back-find :
    (q : List Element)
    → 0 < length q
    → Apart q
    → (e : Element) × (back q ≡ some e)
      × (find e.id q ≡ some e)
      × (view (remove e.id q) ≡ drop_last (view q))
unfolding back find remove view drop_last
back-find [] long apart = absurd (omega arith)
back-find (x ∷ []) long apart = (x, refl, rw (==_refl x.id), rw (==_refl x.id))
back-find (x ∷ y ∷ q) long apart =
    let (e, last, found, cut) = back-find (y ∷ q) (omega arith) apart.1 in
    let differ = find-All _ e.id (y ∷ q) apart.0 found in
    let no : (x.id == e.id) ≡ false = ground (arith, differ) in
    (e, last, rw (no, found), rw (no, cut))
