-- ===== src/LinkedList/Order.antt =====
-- SortedList<T>::Insert and the order that SortedList<T>::SanityCheck asserts: each item compares
-- at most equal to its successor.
use nthu_operating_system_er.Base.{
  ℕ, ◌+◌, ◌≡◌, refl, Bool, true, false, List, [], ◌∷◌, some, arith, contains, Bool-cases, inl, not,
  assert, inr, length, ◌==◌, ℤ, pos, ltb_ℤ, >>=-eq-some, subst, some_eq,
}
use nthu_operating_system_er.LinkedList.{
  LinkedList, Compare, is_empty, is_negative, link_sorted, insert,
}
use nthu_operating_system_er.LinkedList.Contents.{insert_lem}

unfoldable pub is_positive : ℤ → Bool
is_positive c = ltb_ℤ (pos 0) c

-- compare(x, y) <= 0
abbrev pub AtMost : Compare → ℕ → ℕ → Type 0
AtMost compare x y = (c : ℤ) × (compare x y ≡ some c) × (is_positive c ≡ false)

-- What the walk relies on: an answer that is not negative is not positive the other way round.
abbrev pub Flips : Compare → Type 0
Flips compare =
    (x y : ℕ) (c : ℤ) → compare x y ≡ some c → is_negative c ≡ false → AtMost compare y x

abbrev pub OrderedFrom : Compare → ℕ → List ℕ → Type 0
OrderedFrom compare p [] = Unit {0}
OrderedFrom compare p (x ∷ xs) = AtMost compare p x × OrderedFrom compare x xs

abbrev pub Ordered : Compare → List ℕ → Type 0
Ordered compare [] = Unit {0}
Ordered compare (x ∷ xs) = OrderedFrom compare x xs

negative-AtMost :
    (compare : Compare) (x y : ℕ) (c : ℤ)
    → compare x y ≡ some c
    → is_negative c ≡ true
    → AtMost compare x y
unfolding is_negative is_positive
negative-AtMost compare x y c e h = (c, e, ground arith)

module _ (compare : Compare) (flips : Flips compare) (item : ℕ) where
  link_sorted-OrderedFrom :
      (p : ℕ) (xs ys : List ℕ)
      → AtMost compare p item
      → OrderedFrom compare p xs
      → link_sorted compare item xs ≡ some ys
      → OrderedFrom compare p ys
  unfolding link_sorted
  link_sorted-OrderedFrom p [] ys low o e = subst (OrderedFrom compare p) (some_eq e) (low, tt)
  link_sorted-OrderedFrom p (x ∷ xs) ys low o e =
      let (c, compared, rest) = >>=-eq-some (compare item x) _ e in
      elim (Bool-cases (is_negative c)) [
        | inl n ↦
            subst (OrderedFrom compare p) (some_eq (rw n at rest))
              (low, (negative-AtMost compare item x c compared n, o.1))
        | inr n ↦
            let (zs, linked, fin) = >>=-eq-some (link_sorted compare item xs) _ (rw n at rest) in
            subst (OrderedFrom compare p) (some_eq fin)
              (o.0, link_sorted-OrderedFrom x xs zs (flips item x c compared n) o.1 linked)
      ]

  -- The walk over the whole list.
  link_sorted-Ordered :
      (xs ys : List ℕ)
      → Ordered compare xs
      → link_sorted compare item xs ≡ some ys
      → Ordered compare ys
  unfolding link_sorted
  link_sorted-Ordered [] ys o e = subst (Ordered compare) (some_eq e) tt
  link_sorted-Ordered (x ∷ xs) ys o e =
      let (c, compared, rest) = >>=-eq-some (compare item x) _ e in
      elim (Bool-cases (is_negative c)) [
        | inl n ↦
            subst (Ordered compare) (some_eq (rw n at rest))
              (negative-AtMost compare item x c compared n, o)
        | inr n ↦
            let (zs, linked, fin) = >>=-eq-some (link_sorted compare item xs) _ (rw n at rest) in
            subst (Ordered compare) (some_eq fin)
              (link_sorted-OrderedFrom x xs zs (flips item x c compared n) o linked)
      ]

-- If `compare` answers the two ways round consistently, an `Insert` that does not abort keeps the
-- order that `SanityCheck` asserts: each item compares at most equal to the next.
pub insert-Ordered :
    (compare : Compare) (l l' : LinkedList) (item : ℕ)
    → Flips compare
    → Ordered compare l.items
    → insert compare l item ≡ some l'
    → Ordered compare l'.items
unfolding insert is_empty
insert-Ordered compare l l' item flips o e = elim (Bool-cases (l.num_in_list == 0)) [
  | inl z ↦ let alone : item ∷ [] ≡ l'.items = ground arith in subst (Ordered compare) alone tt
  | inr nz ↦
      let (_, a, r) = >>=-eq-some (assert (not (contains l.items item))) _ e in
      let (ys, linked, fin) = >>=-eq-some (link_sorted compare item l.items) _ (rw nz at r) in
      let same : ys ≡ l'.items = ground arith in
      subst (Ordered compare) same (link_sorted-Ordered compare flips item l.items ys o linked)
]

link_sorted-step :
    (compare : Compare) (item x : ℕ) (c : ℤ) (xs zs : List ℕ)
    → compare item x ≡ some c
    → link_sorted compare item xs ≡ some zs
    → (ys : List ℕ) × (link_sorted compare item (x ∷ xs) ≡ some ys)
unfolding link_sorted
link_sorted-step compare item x c xs zs compared linked = elim (Bool-cases (is_negative c)) [
  | inl n ↦ (item ∷ x ∷ xs, ground arith)
  | inr n ↦ (x ∷ zs, ground arith)
]

link_sorted-total :
    (compare : Compare) (item : ℕ) (xs : List ℕ)
    → ((x : ℕ) → contains xs x ≡ true → (c : ℤ) × (compare item x ≡ some c))
    → (ys : List ℕ) × (link_sorted compare item xs ≡ some ys)
unfolding link_sorted contains
link_sorted-total compare item [] h = (item ∷ [], refl)
link_sorted-total compare item (x ∷ xs) h =
    let (c, compared) = h x (ground arith) in
    let (zs, linked) = link_sorted-total compare item xs (λ a m. h a (rw m (ground arith))) in
    link_sorted-step compare item x c xs zs compared linked

-- With `numInList` right, an `Insert` does not abort if the item is not in the list and `compare`
-- answers at each item.
pub insert-total :
    (compare : Compare) (l : LinkedList) (item : ℕ)
    → l.num_in_list ≡ length l.items
    → contains l.items item ≡ false
    → ((x : ℕ) → contains l.items x ≡ true → (c : ℤ) × (compare item x ≡ some c))
    → (l' : LinkedList) × (insert compare l item ≡ some l')
insert-total compare l item counted absent answers =
    let (ys, linked) = link_sorted-total compare item l.items answers in
    (
      record { items = ys; num_in_list = l.num_in_list + 1 },
      insert_lem compare l item ys counted absent linked,
    )
