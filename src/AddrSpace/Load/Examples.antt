-- ===== src/AddrSpace/Load/Examples.antt =====
-- Two segments: one that starts at a page, and one that does not.
use nthu_operating_system_er.Base.{
  ℕ, zero, suc, ◌+◌, ◌/◌, ◌<◌, ◌≡◌, refl, true, [], ◌∷◌, some, arith, Distinct, count,
}
use nthu_operating_system_er.AddrSpace.{PageTable, Memory, fresh_entry, translate}
use nthu_operating_system_er.AddrSpace.Frames.{frames}
use nthu_operating_system_er.AddrSpace.Translation.{accessed}
use nthu_operating_system_er.AddrSpace.Load.{Segment, load_segment, read_at}
use nthu_operating_system_er.AddrSpace.Load.Segments.{Loaded}
use nthu_operating_system_er.AddrSpace.Load.Complete.{
  Accessible, load_segment-Loaded, load_segment_overruns,
}

-- Two pages, on the frames 4 and 9.
abbrev two_pages : PageTable
two_pages = fresh_entry 0 4 ∷ fresh_entry 1 9 ∷ []

abbrev blank_memory : Memory
blank_memory a = 0

-- The byte of the file at position i is i + 1.
abbrev file : ℕ → ℕ
file i = i + 1

abbrev page_and_a_half : Segment
page_and_a_half = record { virtual_addr = 0; in_file_addr = 40; size = 192 }

two_pages-Distinct : Distinct (frames two_pages)
unfolding count
two_pages-Distinct a = ground arith

two_pages-Accessible : (j : ℕ) → j < 2 → Accessible true two_pages j
two_pages-Accessible zero h = (fresh_entry 0 4, refl, omega arith, refl)
two_pages-Accessible (suc zero) h = (fresh_entry 1 9, refl, omega arith, refl)
two_pages-Accessible (suc (suc j)) h = absurd (omega arith)

load_segment-Loaded_example :
    (table' : PageTable) × (memory' : Memory) × (load_segment file true page_and_a_half two_pages
        blank_memory
      ≡ some (table', memory'))
    × (frames table' ≡ 4 ∷ 9 ∷ [])
    × Loaded file page_and_a_half 0 (4 ∷ 9 ∷ []) blank_memory memory'
load_segment-Loaded_example =
    load_segment-Loaded file page_and_a_half two_pages blank_memory two_pages-Distinct refl
      (λ k h. two_pages-Accessible ((0 + k) / 128) (omega arith))

-- 64 bytes at the virtual address 96: 32 of them are past the end of frame 4.
abbrev late : Segment
late = record { virtual_addr = 96; in_file_addr = 40; size = 64 }

late_run :
    load_segment file true late two_pages blank_memory
    ≡ some (
      accessed (fresh_entry 0 4) true ∷ fresh_entry 1 9 ∷ [],
      read_at file 608 64 40 blank_memory,
    )
unfolding load_segment translate
late_run = refl

load_segment_overruns_example : read_at file 608 64 40 blank_memory 640 ≡ file 72
load_segment_overruns_example =
    load_segment_overruns file late two_pages
      (accessed (fresh_entry 0 4) true ∷ fresh_entry 1 9 ∷ []) blank_memory
      (read_at file 608 64 40 blank_memory) (omega arith) (omega arith) late_run
