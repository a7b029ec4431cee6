-- ===== src/AddrSpace/Examples.antt =====
-- Two small processes in one memory.
use nthu_operating_system_er.Base.{
  ℕ, ◌+◌, ◌≤◌, ◌≡◌, ◌≢◌, refl, true, false, [], ◌∷◌, some, arith, count,
}
use nthu_operating_system_er.LinkedList
use nthu_operating_system_er.LinkedList.{LinkedList}
use nthu_operating_system_er.AddrSpace.{
  PageTable, Memory, FrameTable, new_frame_table, allocate, fresh_entry, bzero, no_exception,
  address_error_exception, translate,
}
use nthu_operating_system_er.AddrSpace.Frames.{frames, range_from}
use nthu_operating_system_er.AddrSpace.Paging.{
  System, Reach, load, boot, next, IsPartition, Reach-IsPartition,
}
use nthu_operating_system_er.AddrSpace.Translation.{accessed, Reach-isolation, Reach-injective}

abbrev zeros : Memory
zeros a = 0

abbrev booted : FrameTable
booted = record {
  available = record { items = range_from 0 128; num_in_list = 128 };
  memory = zeros;
}

new_frame_table_run : new_frame_table zeros ≡ some booted
unfolding new_frame_table LinkedList.append LinkedList.is_empty
new_frame_table_run = refl

abbrev pub first_table : PageTable
first_table = fresh_entry 0 0 ∷ fresh_entry 1 1 ∷ []

abbrev pub second_table : PageTable
second_table = fresh_entry 0 2 ∷ []

abbrev after_first : FrameTable
after_first = record {
  available = record { items = range_from 2 126; num_in_list = 126 };
  memory = bzero (bzero zeros 0 128) 128 128;
}

abbrev after_second : FrameTable
after_second = record {
  available = record { items = range_from 3 125; num_in_list = 125 };
  memory = bzero after_first.memory 256 128;
}

allocate_first : allocate 2 booted ≡ some (some first_table, after_first)
unfolding allocate LinkedList.remove_front LinkedList.is_empty
allocate_first = refl

allocate_second : allocate 1 after_first ≡ some (some second_table, after_second)
unfolding allocate LinkedList.remove_front LinkedList.is_empty
allocate_second = refl

abbrev pub two_processes : System
two_processes = record { frame_table = after_second; spaces = second_table ∷ first_table ∷ [] }

pub two_processes-Reach : Reach two_processes
two_processes-Reach =
    next
      (next (boot zeros booted new_frame_table_run) (load 2 first_table after_first allocate_first))
      (load 1 second_table after_second allocate_second)

Reach-IsPartition_example : IsPartition two_processes
Reach-IsPartition_example = Reach-IsPartition two_processes-Reach

abbrev first_written : PageTable
first_written = fresh_entry 0 0 ∷ accessed (fresh_entry 1 1) true ∷ []

translate_first : translate first_table 130 true ≡ some (no_exception, 130, first_written)
unfolding translate
translate_first = refl

pub translate_second :
    translate second_table 5 false ≡ some (no_exception, 261, accessed (fresh_entry 0 2) false ∷ [])
unfolding translate
translate_second = refl

translate_low :
    translate first_table 2 false
    ≡ some (no_exception, 2, accessed (fresh_entry 0 0) false ∷ fresh_entry 1 1 ∷ [])
unfolding translate
translate_low = refl

translate_outside :
    translate second_table 128 false ≡ some (address_error_exception, 0, second_table)
unfolding translate
translate_outside = refl

Reach-isolation_example : ◌≢◌ {A = ℕ} 261 130
Reach-isolation_example =
    Reach-isolation [] [] [] second_table first_table _ _ 5 130 261 130 false true
      two_processes-Reach refl translate_second translate_first

Reach-injective_example : ◌≢◌ {A = ℕ} 130 2
Reach-injective_example =
    Reach-injective (second_table ∷ []) [] first_table _ _ 130 2 130 2 true false
      two_processes-Reach refl translate_first translate_low (λ e. omega (arith, e))

abbrev nearly_full : FrameTable
nearly_full = record { available = record { items = 7 ∷ []; num_in_list = 1 }; memory = zeros }

not_free : (a : ℕ) → count a (frames first_table) + count a nearly_full.available.items ≤ 1
unfolding count
not_free a = ground arith
