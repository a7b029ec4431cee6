-- ===== src/AddrSpace/Load/Complete.antt =====
-- The load of a segment ends with the segment in memory, if the segment starts at a page; one that
-- does not start at a page runs over the end of its frame.
use native.Mathlib.Nat.{add-zero}
use nthu_operating_system_er.Base.{
  ℕ, zero, suc, ◌+◌, ◌*◌, ◌/◌, ◌%◌, ◌-◌, ◌≤◌, ◌<◌, ◌≡◌, refl, ap, Bool, true, false, [], ◌∷◌, some,
  arith, ltb, ◌&&◌, ◌>>=◌, assert, get_elem?, set, get_or, Distinct, Bool-cases, inl, inr,
}
use nthu_operating_system_er.AddrSpace.{
  TranslationEntry, PageTable, Memory, page_size, num_phys_pages, no_exception, translate,
  translate_entry,
}
use nthu_operating_system_er.AddrSpace.Frames.{frames}
use nthu_operating_system_er.AddrSpace.Translation.{accessed}
use nthu_operating_system_er.AddrSpace.Load.{Segment, read_at, load_pages, load_segment}
use nthu_operating_system_er.AddrSpace.Load.Segments.{Loaded, load_pages-Loaded, load_round, chunk}

-- The page of a virtual address has a frame in memory, and may be written if w is set.
abbrev pub Accessible : Bool → PageTable → ℕ → Type 0
Accessible w table k =
    (pte : TranslationEntry) × (get_elem? table k ≡ some pte)
    × (pte.physical_page < num_phys_pages)
    × (w && pte.read_only ≡ false)

set-Accessible :
    (w : Bool) (table : PageTable) (j k : ℕ) (pte : TranslationEntry)
    → get_elem? table j ≡ some pte
    → Accessible w table k
    → Accessible w (set table j (accessed pte w)) k
set-Accessible w [] j k pte e a = a
set-Accessible w (x ∷ xs) zero zero pte e (q, f, b, r) =
    (accessed pte w, refl, ground arith, ground arith)
set-Accessible w (x ∷ xs) zero (suc k) pte e a = a
set-Accessible w (x ∷ xs) (suc j) zero pte e a = a
set-Accessible w (x ∷ xs) (suc j) (suc k) pte e a = set-Accessible w xs j k pte e a

translate-Accessible :
    (w : Bool) (table : PageTable) (v : ℕ) (pte : TranslationEntry)
    → get_elem? table (v / page_size) ≡ some pte
    → pte.physical_page < num_phys_pages
    → w && pte.read_only ≡ false
    → translate table v w
      ≡ some (
        no_exception,
        pte.physical_page * page_size + v % page_size,
        set table (v / page_size) (accessed pte w),
      )
unfolding translate translate_entry
translate-Accessible w table v pte e b r = ground arith

load_pages-total :
    (content : ℕ → ℕ) (w : Bool) (seg : Segment) (fuel offset : ℕ) (table : PageTable)
    (memory : Memory)
    → seg.size - offset < fuel
    → ((k : ℕ) → k < seg.size → Accessible w table ((seg.virtual_addr + k) / page_size))
    → (table' : PageTable) × (memory' : Memory) × (load_pages content w seg fuel offset table memory
        ≡ some (table', memory'))
unfolding load_pages
load_pages-total content w seg zero offset table memory enough acc = elim enough [ ]
load_pages-total content w seg (suc fuel) offset table memory enough acc =
    elim (Bool-cases (ltb offset seg.size)) [
      | inr done ↦ (table, memory, rw (done, load_pages))
      | inl more ↦
          let v = seg.virtual_addr + offset in
          let (pte, e, b, r) = acc offset (ground arith) in
          let (table', memory', run) =
            load_pages-total content w seg fuel (offset + page_size)
              (set table (v / page_size) (accessed pte w))
              (read_at content (pte.physical_page * page_size + v % page_size) (chunk seg offset)
                (seg.in_file_addr + offset) memory)
              (ground arith)
              (λ k h.
                set-Accessible w table (v / page_size) ((seg.virtual_addr + k) / page_size) pte e
                  (acc k h)) in
          (
            table',
            memory',
            rw (more, load_pages, translate-Accessible w table v pte e b r, ◌>>=◌, assert) run,
          )
    ]

-- If a segment starts at a page, its pages are in the page table on distinct frames of the memory,
-- and writable, then the load of the segment does not abort; afterwards each virtual address of the
-- segment reads the byte of the file, the other virtual addresses of the process read what they
-- read before, no byte outside the frames of the process has changed, and the frames are the same.
pub load_segment-Loaded :
    (content : ℕ → ℕ) (seg : Segment) (table : PageTable) (memory : Memory)
    → Distinct (frames table)
    → seg.virtual_addr % page_size ≡ 0
    → ((k : ℕ) → k < seg.size → Accessible true table ((seg.virtual_addr + k) / page_size))
    → (table' : PageTable) × (memory' : Memory) × (load_segment content true seg table memory
        ≡ some (table', memory'))
      × (frames table' ≡ frames table)
      × Loaded content seg 0 (frames table) memory memory'
unfolding load_segment
load_segment-Loaded content seg table memory d aligned acc = elim (Bool-cases (ltb 0 seg.size)) [
  | inl more ↦
      let (table', memory', run) =
        load_pages-total content true seg (suc seg.size) 0 table memory (omega arith) acc in
      let (kept, loaded) =
        load_pages-Loaded content true seg (suc seg.size) 0 table table' memory memory' d aligned
          refl run in
      (table', memory', rw more run, kept, loaded)
  | inr empty ↦ (
    table,
    memory,
    rw empty,
    refl,
    record {
      bytes = λ k h₁ h₂. absurd (ground arith);
      before = λ v h₁ h₂. refl;
      after = λ v h₁ h₂. refl;
      elsewhere = λ a h. refl;
    },
  )
]

load_pages-done :
    (content : ℕ → ℕ) (w : Bool) (seg : Segment) (fuel offset : ℕ) (table table' : PageTable)
    (memory memory' : Memory)
    → seg.size ≤ offset
    → load_pages content w seg fuel offset table memory ≡ some (table', memory')
    → memory' ≡ memory
unfolding load_pages
load_pages-done content w seg zero offset table table' memory memory' h e = absurd (cc e)
load_pages-done content w seg (suc fuel) offset table table' memory memory' h e = ground arith

read_at-overrun :
    (content : ℕ → ℕ) (f r size position : ℕ) (memory : Memory)
    → r < page_size
    → page_size < r + size
    → read_at content (f * page_size + r) size position memory ((f + 1) * page_size)
      ≡ content (position + (page_size - r))
unfolding read_at
read_at-overrun content f r size position memory h₁ h₂ =
    let distance : (f + 1) * page_size - (f * page_size + r) ≡ page_size - r = omega arith in
    ground (arith, ap (λ (d : ℕ). content (position + d)) distance)

-- A segment of at most a page that does not start at a page and does not fit behind its page
-- offset is read across the end of the frame: a load that does not abort leaves a byte of the file
-- in the first byte of the next frame of the memory, whoever owns it.
pub load_segment_overruns :
    (content : ℕ → ℕ) (seg : Segment) (table table' : PageTable) (memory memory' : Memory)
    → seg.size ≤ page_size
    → page_size < seg.virtual_addr % page_size + seg.size
    → load_segment content true seg table memory ≡ some (table', memory')
    → memory' ((get_or (frames table) (seg.virtual_addr / page_size) 0 + 1) * page_size)
      ≡ content (seg.in_file_addr + (page_size - seg.virtual_addr % page_size))
unfolding load_segment
load_segment_overruns content seg table table' memory memory' small over e =
    let (next, kept, inside, run) =
      load_round content true seg seg.size 0 table table' memory memory' (ground arith)
        (ground arith) in
    let whole : chunk seg 0 ≡ seg.size = ground arith in
    let start : seg.virtual_addr + 0 ≡ seg.virtual_addr = omega arith in
    let same =
      load_pages-done content true seg seg.size page_size next table' _ memory' small run in
    rw (same, whole, start, add-zero seg.in_file_addr)
      (read_at-overrun content (get_or (frames table) (seg.virtual_addr / page_size) 0)
        (seg.virtual_addr % page_size) seg.size seg.in_file_addr memory (omega arith) over)
