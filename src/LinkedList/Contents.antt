-- ===== src/LinkedList/Contents.antt =====
-- What each list operation does to the contents, and when it aborts.
use nthu_operating_system_er.Base.{
  ℕ, suc, ◌+◌, ◌-◌, ◌<◌, ◌≡◌, refl, sym, ◌∙◌, ap, some_eq, inl, inr, true, false, not, List, [],
  ◌∷◌, ◌++◌, none, some, arith, length, length-append, ◌==◌, Bool-cases, ◌>>=◌, assert, count,
  contains, Distinct, count-append, count-cons, count-cons_self, count-nil, contains-count,
  contains-absent, contains-present, if◌then◌else◌, >>=-eq-some,
}
use nthu_operating_system_er.LinkedList.{
  LinkedList, Compare, is_empty, is_in_list, append, prepend, remove_front, unlink, remove,
  link_sorted, insert,
}

-- No item twice, and the count is right.
pub record IsSane (l : LinkedList) : Type 0 where
  pub distinct : Distinct l.items
  pub counted : l.num_in_list ≡ length l.items

pub count-unlink :
    (a item : ℕ) (xs : List ℕ)
    → contains xs item ≡ true
    → count a xs ≡ count a (item ∷ []) + count a (unlink item xs)
unfolding count contains unlink
count-unlink a item [] h = cc
count-unlink a item (x ∷ xs) h = ground (arith, count-unlink a item xs)

pub length-unlink :
    (item : ℕ) (xs : List ℕ) → contains xs item ≡ true → length xs ≡ suc (length (unlink item xs))
unfolding contains unlink
length-unlink item [] h = cc
length-unlink item (x ∷ xs) h = ground (arith, length-unlink item xs)

contains-append_self : (xs : List ℕ) (a : ℕ) → contains (xs ++ a ∷ []) a ≡ true
contains-append_self xs a =
    contains-present a (xs ++ a ∷ [])
      (omega (arith, count-append a xs (a ∷ []), count-cons_self a []))

no_items : (xs : List ℕ) → length xs ≡ 0 → xs ≡ []
no_items [] h = refl
no_items (x ∷ xs) h = absurd (omega arith)

-- With the count right, Append aborts on an item that is in the list, and otherwise puts it at the end.
pub append_lem :
    (l : LinkedList) (item : ℕ)
    → l.num_in_list ≡ length l.items
    → append l item ≡ (
        if contains l.items item
        then none
        else some (record { items = l.items ++ item ∷ []; num_in_list = l.num_in_list + 1 }))
unfolding append is_empty
append_lem l item c = elim (Bool-cases (l.num_in_list == 0)) [
  | inl z ↦
      let e : l.items ≡ [] = no_items l.items (ground arith) in
      rw (e, z) (ground (arith, contains-present item (item ∷ []), count-cons_self item []))
  | inr nz ↦ ground (arith, contains-append_self l.items item)
]

pub prepend_lem :
    (l : LinkedList) (item : ℕ)
    → l.num_in_list ≡ length l.items
    → prepend l item ≡ (
        if contains l.items item
        then none
        else some (record { items = item ∷ l.items; num_in_list = l.num_in_list + 1 }))
unfolding prepend is_empty
prepend_lem l item c = elim (Bool-cases (l.num_in_list == 0)) [
  | inl z ↦
      let e : l.items ≡ [] = no_items l.items (ground arith) in
      rw (e, z) (ground (arith, contains-present item (item ∷ []), count-cons_self item []))
  | inr nz ↦ ground (arith, contains-present item (item ∷ l.items), count-cons_self item l.items)
]

-- On a sane list `Remove` aborts exactly where the item is missing, and otherwise unlinks it.
pub remove_lem :
    (l : LinkedList) (item : ℕ)
    → IsSane l
    → remove l item ≡ (
        if contains l.items item
        then some (record { items = unlink item l.items; num_in_list = l.num_in_list - 1 })
        else none)
unfolding remove is_empty remove_front
remove_lem l item v = go l.items refl
  where
    go :
        (xs : List ℕ)
        → l.items ≡ xs
        → remove l item ≡ (
            if contains l.items item
            then some (record { items = unlink item l.items; num_in_list = l.num_in_list - 1 })
            else none)
    go [] e = ground arith
    go (x ∷ xs) e = ground (
      arith,
      v.distinct item,
      v.counted,
      contains-absent item (unlink item l.items),
      count-unlink item item l.items,
      count-cons_self item [],
    )

link_sorted-nil : (compare : Compare) (item : ℕ) → link_sorted compare item [] ≡ some (item ∷ [])
unfolding link_sorted
link_sorted-nil compare item = refl

link_sorted-count :
    (compare : Compare) (item a : ℕ) (xs ys : List ℕ)
    → link_sorted compare item xs ≡ some ys
    → (count a ys ≡ count a (item ∷ []) + count a xs) × (length ys ≡ suc (length xs))
unfolding link_sorted
link_sorted-count compare item a [] ys e = ground (arith, count-nil a)
link_sorted-count compare item a (x ∷ xs) ys e =
    let (c, _, rest) = >>=-eq-some (compare item x) _ e in
    grind (
      arith,
      count-cons a item (x ∷ xs),
      count-cons,
      λ (zs : List ℕ) (p : link_sorted compare item xs ≡ some zs).
          link_sorted-count compare item a xs zs p,
    )

length-snoc : (xs : List ℕ) (x : ℕ) → length (xs ++ x ∷ []) ≡ suc (length xs)
length-snoc xs x = omega (arith, length-append xs (x ∷ []))

grown-Distinct :
    (item : ℕ) (xs ys : List ℕ)
    → Distinct xs
    → contains xs item ≡ false
    → ((a : ℕ) → count a ys ≡ count a (item ∷ []) + count a xs)
    → Distinct ys
unfolding count
grown-Distinct item xs ys d absent same a =
    ground (arith, d a, contains-count item xs absent, same a)

-- The list has grown by one item that was not in it.
pub record Grows (l : LinkedList) (item : ℕ) (l' : LinkedList) : Type 0 where
  pub absent : contains l.items item ≡ false
  pub more : (a : ℕ) → count a l'.items ≡ count a (item ∷ []) + count a l.items
  pub longer : length l'.items ≡ suc (length l.items)
  pub counts : l'.num_in_list ≡ l.num_in_list + 1

pub Grows-IsSane : {l l' : LinkedList} (item : ℕ) → IsSane l → Grows l item l' → IsSane l'
Grows-IsSane {l} {l'} item v g = record {
  distinct = grown-Distinct item l.items l'.items v.distinct g.absent g.more;
  counted = omega arith;
}

pub append-Grows :
    (l : LinkedList) (item : ℕ) {l' : LinkedList}
    → l.num_in_list ≡ length l.items
    → append l item ≡ some l'
    → Grows l item l'
append-Grows l item {l'} c e = record {
  absent = ground (arith, append_lem l item c);
  more = λ a. ground (arith, append_lem l item c, count-append a l.items (item ∷ []));
  longer = ground (arith, append_lem l item c, length-snoc l.items item);
  counts = ground (arith, append_lem l item c);
}

pub prepend-Grows :
    (l : LinkedList) (item : ℕ) {l' : LinkedList}
    → l.num_in_list ≡ length l.items
    → prepend l item ≡ some l'
    → Grows l item l'
prepend-Grows l item {l'} c e = record {
  absent = ground (arith, prepend_lem l item c);
  more = λ a. ground (arith, prepend_lem l item c, count-cons a item l.items);
  longer = ground (arith, prepend_lem l item c);
  counts = ground (arith, prepend_lem l item c);
}

-- With the count right, the walk alone decides what `Insert` links.
pub insert_lem :
    (compare : Compare) (l : LinkedList) (item : ℕ) (ys : List ℕ)
    → l.num_in_list ≡ length l.items
    → contains l.items item ≡ false
    → link_sorted compare item l.items ≡ some ys
    → insert compare l item ≡ some (record { items = ys; num_in_list = l.num_in_list + 1 })
unfolding insert is_empty is_in_list
insert_lem compare l item ys c absent linked =
    let here : contains ys item ≡ true = contains-present item ys (
      omega
        (arith, link_sorted-count compare item item l.items ys linked, count-cons_self item [])) in
    elim (Bool-cases (l.num_in_list == 0)) [
      | inl z ↦
          let e : l.items ≡ [] = no_items l.items (ground arith) in
          let only : item ∷ [] ≡ ys =
            some_eq (sym (link_sorted-nil compare item) ∙ rw e at linked) in
          let self : contains (item ∷ []) item ≡ true =
            contains-present item (item ∷ []) (omega (arith, count-cons_self item [])) in
          rw (z, absent, self)
            (ap (λ is. some (record { items = is; num_in_list = l.num_in_list + 1 })) only)
      | inr nz ↦ rw (nz, absent, linked, ◌>>=◌, here)
    ]

insert-linked :
    (compare : Compare) (l : LinkedList) (item : ℕ) {l' : LinkedList}
    → l.num_in_list ≡ length l.items
    → insert compare l item ≡ some l'
    → (contains l.items item ≡ false)
      × (link_sorted compare item l.items ≡ some l'.items)
      × (l'.num_in_list ≡ l.num_in_list + 1)
unfolding insert is_empty
insert-linked compare l item {l'} c e = elim (Bool-cases (l.num_in_list == 0)) [
  | inl z ↦
      let none_there : l.items ≡ [] = no_items l.items (ground arith) in
      (
        ground arith,
        rw none_there (link_sorted-nil compare item ∙ ap some (ground arith)),
        ground arith,
      )
  | inr nz ↦
      let (_, a, r) = >>=-eq-some (assert (not (contains l.items item))) _ e in
      let (ys, linked, fin) = >>=-eq-some (link_sorted compare item l.items) _ (rw nz at r) in
      (ground arith, linked ∙ ground arith, ground arith)
]

pub insert-Grows :
    (compare : Compare) (l : LinkedList) (item : ℕ) {l' : LinkedList}
    → l.num_in_list ≡ length l.items
    → insert compare l item ≡ some l'
    → Grows l item l'
insert-Grows compare l item {l'} c e =
    let (absent, linked, counts) = insert-linked compare l item c e in
    record {
      absent = absent;
      more = λ a. (link_sorted-count compare item a l.items l'.items linked).0;
      longer = (link_sorted-count compare item 0 l.items l'.items linked).1;
      counts = counts;
    }

-- With the count right, `RemoveFront` of a list that is not empty gives its first item.
pub remove_front_lem :
    (l : LinkedList)
    → 0 < length l.items
    → l.num_in_list ≡ length l.items
    → (f : ℕ) × (rest : LinkedList) × (remove_front l ≡ some (f, rest))
      × (l.items ≡ f ∷ rest.items)
      × (rest.num_in_list ≡ length rest.items)
unfolding remove_front is_empty
remove_front_lem l h c = go l.items refl
  where
    go :
        (xs : List ℕ)
        → l.items ≡ xs
        → (f : ℕ) × (rest : LinkedList) × (remove_front l ≡ some (f, rest))
          × (l.items ≡ f ∷ rest.items)
          × (rest.num_in_list ≡ length rest.items)
    go [] e = absurd (ground arith)
    go (f ∷ xs) e = (
      f,
      record { items = xs; num_in_list = l.num_in_list - 1 },
      ground arith,
      ground arith,
      ground arith,
    )
