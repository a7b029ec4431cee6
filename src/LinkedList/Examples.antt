-- ===== src/LinkedList/Examples.antt =====
-- The list operations on small lists.
use nthu_operating_system_er.Base.{
  ℕ, ◌≡◌, refl, true, false, [], ◌∷◌, none, some, arith, pos, negsuc, sub_ℕ, ltb_ℤ, contains,
}
use nthu_operating_system_er.LinkedList.{
  LinkedList, Compare, empty, is_empty, is_negative, append, remove, remove_front, insert,
  sanity_check, prepend,
}
use nthu_operating_system_er.LinkedList.Order.{
  Flips, Ordered, is_positive, insert-Ordered, insert-total,
}

-- The comparison of unsigned numbers.
abbrev by_number : Compare
by_number x y = some (sub_ℕ x y)

abbrev two_items : LinkedList
two_items = record { items = 2 ∷ 9 ∷ []; num_in_list = 2 }

abbrev three_items : LinkedList
three_items = record { items = 2 ∷ 5 ∷ 9 ∷ []; num_in_list = 3 }

insert_run : insert by_number two_items 5 ≡ some three_items
unfolding insert is_negative is_empty
insert_run = refl

append_run : append (record { items = 2 ∷ []; num_in_list = 1 }) 9 ≡ some two_items
unfolding append is_empty
append_run = refl

prepend_run : prepend empty 2 ≡ some (record { items = 2 ∷ []; num_in_list = 1 })
unfolding prepend is_empty
prepend_run = refl

remove_run : remove three_items 5 ≡ some two_items
unfolding remove is_empty remove_front
remove_run = refl

remove_front_run : remove_front two_items ≡ some (2, record { items = 9 ∷ []; num_in_list = 1 })
unfolding remove_front is_empty
remove_front_run = refl

append_aborts : append two_items 9 ≡ none
unfolding append is_empty
append_aborts = refl

sanity_check_counts : sanity_check three_items ≡ true
unfolding sanity_check
sanity_check_counts = refl

sub_ℕ-flips : (x y : ℕ) → ltb_ℤ (sub_ℕ x y) (pos 0) ≡ false → ltb_ℤ (pos 0) (sub_ℕ y x) ≡ false
sub_ℕ-flips x y h = ground arith

by_number-Flips : Flips by_number
unfolding is_negative is_positive
by_number-Flips x y c e n = (sub_ℕ y x, refl, sub_ℕ-flips x y (ground arith))

two_items-Ordered : Ordered by_number two_items.items
unfolding is_positive
two_items-Ordered = ((negsuc 6, refl, refl), tt)

insert-Ordered_example : Ordered by_number (2 ∷ 5 ∷ 9 ∷ [])
insert-Ordered_example =
    insert-Ordered by_number two_items three_items 5 by_number-Flips two_items-Ordered insert_run

absent_5 : contains two_items.items 5 ≡ false
unfolding contains
absent_5 = refl

insert-total_example : (l : LinkedList) × (insert by_number two_items 5 ≡ some l)
insert-total_example =
    insert-total by_number two_items 5 refl absent_5 (λ x here. (sub_ℕ 5 x, refl))
