-- ===== src/LinkedList.antt =====
-- MP3 code/lib/list.cc: List<T> and SortedList<T>. The nodes from `first` to `last` are a list;
-- `first` and `last` are its ends and are not kept apart. `numInList` is kept beside the nodes, as in
-- the code, and is what IsEmpty tests; it never goes below 0. An item is a number: the code instantiates T at
-- frame numbers and at pointers, and only compares items by `==` and by the list's own `compare`.
-- `none` is a failed ASSERT.
pub mod Contents
pub mod Sane
pub mod Order
pub mod Examples
use nthu_operating_system_er.Base.{
  ℕ, suc, ◌+◌, ◌-◌, ◌≡◌, Bool, true, false, not, List, [], ◌∷◌, ◌++◌, Option, none, some, ℤ, pos,
  ltb_ℤ, ◌==◌, if◌then◌else◌, ◌>>=◌, ◌>>◌, assert, contains, length,
}

pub record LinkedList : Type 0 where
  pub items : List ℕ
  pub num_in_list : ℕ

abbrev pub empty : LinkedList
empty = record { items = []; num_in_list = 0 }

unfoldable pub is_empty : LinkedList → Bool
is_empty l = l.num_in_list == 0

unfoldable pub is_in_list : LinkedList → ℕ → Bool
unfolding contains
is_in_list l item = contains l.items item

unfoldable pub append : LinkedList → ℕ → Option LinkedList
unfolding is_in_list is_empty
append l item = do
  assert (not (is_in_list l item))
  let l' : LinkedList = record {
    items = if is_empty l then item ∷ [] else l.items ++ item ∷ [];
    num_in_list = l.num_in_list + 1;
  }
  assert (is_in_list l' item)
  some l'

unfoldable pub prepend : LinkedList → ℕ → Option LinkedList
unfolding is_in_list is_empty
prepend l item = do
  assert (not (is_in_list l item))
  let l' : LinkedList = record {
    items = if is_empty l then item ∷ [] else item ∷ l.items;
    num_in_list = l.num_in_list + 1;
  }
  assert (is_in_list l' item)
  some l'

-- The first node, or a null pointer.
abbrev split_front : List ℕ → ℕ → Option (ℕ × LinkedList)
split_front [] n = none
split_front (x ∷ xs) n = some (x, record { items = xs; num_in_list = n - 1 })

unfoldable pub remove_front : LinkedList → Option (ℕ × LinkedList)
unfolding is_empty
remove_front l = do assert (not (is_empty l)); split_front l.items l.num_in_list

-- The walk that unlinks the first node that holds the item.
unfoldable pub unlink : ℕ → List ℕ → List ℕ
unlink item [] = []
unlink item (x ∷ xs) = if item == x then xs else x ∷ unlink item xs

abbrev starts_with : List ℕ → ℕ → Bool
starts_with [] item = false
starts_with (x ∷ xs) item = item == x

unfoldable pub remove : LinkedList → ℕ → Option LinkedList
unfolding is_in_list unlink remove_front
remove l item = do
  assert (is_in_list l item)
  l' ←
      (if starts_with l.items item
        then (remove_front l >>= λ r. some r.1)
        else some (record { items = unlink item l.items; num_in_list = l.num_in_list - 1 }))
  assert (not (is_in_list l' item))
  some l'

-- `Apply` over a state that the callback changes, and that it may abort.
unfoldable pub apply {ℓ} : {S : Type ℓ} → (S → ℕ → Option S) → S → List ℕ → Option S
apply func s [] = some s
apply func s (x ∷ xs) = func s x >>= λ s'. apply func s' xs

-- The comparison of a sorted list: negative, zero or positive, and it may abort.
abbrev pub Compare : Type 0
Compare = ℕ → ℕ → Option ℤ

unfoldable pub is_negative : ℤ → Bool
is_negative c = ltb_ℤ c (pos 0)

-- The walk to the first element that is greater than the item, or to the end.
unfoldable pub link_sorted : Compare → ℕ → List ℕ → Option (List ℕ)
link_sorted compare item [] = some (item ∷ [])
link_sorted compare item (y ∷ ys) = compare item y >>= λ c. elim (is_negative c) [
  | true ↦ some (item ∷ y ∷ ys)
  | false ↦ link_sorted compare item ys >>= λ zs. some (y ∷ zs)
]

-- The final ASSERT stands on all paths here; the code skips it where the item goes in the middle.
unfoldable pub insert : Compare → LinkedList → ℕ → Option LinkedList
unfolding is_in_list is_empty link_sorted
insert compare l item = do
  assert (not (is_in_list l item))
  items ← (if is_empty l then some (item ∷ []) else link_sorted compare item l.items)
  let l' : LinkedList = record { items = items; num_in_list = l.num_in_list + 1 }
  assert (is_in_list l' item)
  some l'

-- The loop of List::SanityCheck compares the count that is kept with the nodes that it meets.
unfoldable pub sanity_check : LinkedList → Bool
sanity_check l = l.num_in_list == length l.items
