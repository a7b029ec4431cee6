-- ===== src/LinkedList/Sane.antt =====
-- Every list that the operations make is sane.
use nthu_operating_system_er.Base.{ℕ, ◌≡◌, refl, some, arith, count, count-cons}
use nthu_operating_system_er.LinkedList.{
  LinkedList, Compare, empty, is_empty, append, prepend, remove_front, remove, insert,
}
use nthu_operating_system_er.LinkedList.Contents.{
  IsSane, Grows-IsSane, append-Grows, prepend-Grows, insert-Grows, remove_lem, count-unlink,
  length-unlink,
}

remove-IsSane :
    (l : LinkedList) (item : ℕ) {l' : LinkedList} → IsSane l → remove l item ≡ some l' → IsSane l'
remove-IsSane l item {l'} v e = record {
  distinct = λ a. ground (arith, v.distinct a, remove_lem l item v, count-unlink a item l.items);
  counted = ground (arith, remove_lem l item v, length-unlink item l.items);
}

remove_front-IsSane :
    (l : LinkedList) {item : ℕ} {l' : LinkedList}
    → IsSane l
    → remove_front l ≡ some (item, l')
    → IsSane l'
unfolding remove_front is_empty
remove_front-IsSane l {item} {l'} v e = record {
  distinct = λ a. ground (arith, v.distinct a, count-cons a item l'.items);
  counted = ground arith;
}

-- The lists that the operations make from an empty one; an aborted operation makes none.
pub data Reach (compare : Compare) : LinkedList → Type 0 where
  created : Reach compare empty
  appended :
      {l l' : LinkedList} (item : ℕ) → Reach compare l → append l item ≡ some l' → Reach compare l'
  prepended :
      {l l' : LinkedList} (item : ℕ) → Reach compare l → prepend l item ≡ some l' → Reach compare l'
  inserted :
      {l l' : LinkedList} (item : ℕ)
      → Reach compare l
      → insert compare l item ≡ some l'
      → Reach compare l'
  removed :
      {l l' : LinkedList} (item : ℕ) → Reach compare l → remove l item ≡ some l' → Reach compare l'
  taken :
      {l l' : LinkedList} (item : ℕ)
      → Reach compare l
      → remove_front l ≡ some (item, l')
      → Reach compare l'

-- Whatever `Append`, `Prepend`, `Insert`, `Remove` and `RemoveFront` are done on a list from its
-- construction on, as long as none aborts, no item is in it twice and `numInList` is its length.
pub Reach-IsSane : {compare : Compare} {l : LinkedList} → Reach compare l → IsSane l
unfolding count
Reach-IsSane created = record { distinct = λ a. ground arith; counted = refl }
Reach-IsSane (appended {l} item r e) =
    Grows-IsSane item (Reach-IsSane r) (append-Grows l item (Reach-IsSane r).counted e)
Reach-IsSane (prepended {l} item r e) =
    Grows-IsSane item (Reach-IsSane r) (prepend-Grows l item (Reach-IsSane r).counted e)
Reach-IsSane {compare} (inserted {l} item r e) =
    Grows-IsSane item (Reach-IsSane r) (insert-Grows compare l item (Reach-IsSane r).counted e)
Reach-IsSane (removed {l} item r e) = remove-IsSane l item (Reach-IsSane r) e
Reach-IsSane (taken {l} item r e) = remove_front-IsSane l (Reach-IsSane r) e
