-- ===== src/AddrSpace/Load.antt =====
-- AddrSpace::Load: the segments of an executable are read into the frames of a new page table.
-- The executable's bytes are a parameter (the file system is the host's), and a read is complete.
-- Sizes are as the code uses them, unsigned and below 2 ^ 31, so nothing wraps. An exception reaches
-- ExceptionHandler, which for every exception raised here ends in ASSERTNOTREACHED: `none`.
pub mod Segments
pub mod Complete
pub mod Examples
use nthu_operating_system_er.Base.{
  ℕ, zero, suc, ◌+◌, ◌*◌, ◌/◌, ◌%◌, ◌-◌, Bool, true, false, ◌&&◌, Option, none, some, ltb, leb,
  ◌==◌, if◌then◌else◌, ◌>>=◌, ◌>>◌, assert, get_elem?, set, length,
}
use nthu_operating_system_er.AddrSpace.{
  TranslationEntry, PageTable, Memory, FrameTable, page_size, ExceptionType, no_exception,
  read_only_exception, bus_error_exception, address_error_exception, translate, allocate,
}

-- noff.h, with the read-only segment of RDATA.
pub record Segment : Type 0 where
  pub virtual_addr : ℕ
  pub in_file_addr : ℕ
  pub size : ℕ

pub record NoffHeader : Type 0 where
  pub noff_magic : ℕ
  pub code : Segment
  pub init_data : Segment
  pub readonly_data : Segment
  pub uninit_data : Segment

abbrev pub noff_magic_number : ℕ
noff_magic_number = 0xbadfad

abbrev pub user_stack_size : ℕ
user_stack_size = 1024

-- utility.h
unfoldable pub div_round_up : ℕ → ℕ → ℕ
div_round_up n s = n / s + (if ltb 0 (n % s) then 1 else 0)

-- ReadAt(&mainMemory[paddr], to_load, position)
unfoldable pub read_at : (ℕ → ℕ) → ℕ → ℕ → ℕ → Memory → Memory
read_at content paddr to_load position memory a =
    if leb paddr a && ltb a (paddr + to_load) then content (position + (a - paddr)) else memory a

abbrev pub is_no_exception : ExceptionType → Bool
is_no_exception no_exception = true
is_no_exception _ = false

-- The loop over the pages of a segment from `offset` on; `none` also when the fuel runs out.
unfoldable pub load_pages :
    (ℕ → ℕ) → Bool → Segment → ℕ → ℕ → PageTable → Memory → Option (PageTable × Memory)
unfolding read_at
load_pages content w seg zero offset table memory = none
load_pages content w seg (suc fuel) offset table memory = elim (ltb offset seg.size) [
  | false ↦ some (table, memory)
  | true ↦ do
    (ex, paddr, table') ← translate table (seg.virtual_addr + offset) w
    assert (is_no_exception ex)
    let to_load : ℕ = if ltb (offset + page_size) seg.size then page_size else seg.size - offset
    load_pages content w seg fuel (offset + page_size) table'
        (read_at content paddr to_load (seg.in_file_addr + offset) memory)
]

-- Each round advances by a page, so `size + 1` rounds are enough.
unfoldable pub load_segment :
    (ℕ → ℕ) → Bool → Segment → PageTable → Memory → Option (PageTable × Memory)
unfolding load_pages
load_segment content w seg table memory =
    if ltb 0 seg.size
    then load_pages content w seg (suc seg.size) 0 table memory
    else some (table, memory)

-- readOnly = TRUE on the entries from .. from + rounds - 1; one out of the table is not the table's.
unfoldable pub protect_pages : ℕ → ℕ → PageTable → Option PageTable
protect_pages zero from table = some table
protect_pages (suc rounds) from table = elim (get_elem? table from) [
  | none ↦ none
  | some pte ↦ protect_pages rounds (suc from) (set table from (record pte { read_only = true }))
]

unfoldable pub load_readonly : (ℕ → ℕ) → Segment → PageTable → Memory → Option (PageTable × Memory)
unfolding protect_pages load_pages div_round_up
load_readonly content seg table memory =
    if ltb 0 seg.size
    then (do
      protected ←
          protect_pages (div_round_up seg.size page_size) (seg.virtual_addr / page_size) table
      load_pages content false seg (suc seg.size) 0 protected memory)
    else some (table, memory)

unfoldable pub image_size : NoffHeader → ℕ
image_size h =
    h.code.size + h.readonly_data.size + h.init_data.size + h.uninit_data.size + user_stack_size

-- After the frames are allocated. A NULL table is MemoryLimitException.
unfoldable pub load_segments :
    (ℕ → ℕ) → NoffHeader → Option PageTable → FrameTable → Option (PageTable × FrameTable)
unfolding load_segment load_readonly
load_segments content h none t = none
load_segments content h (some table) t = do
  (table₁, memory₁) ← load_segment content true h.code table t.memory
  (table₂, memory₂) ← load_segment content true h.init_data table₁ memory₁
  (table₃, memory₃) ← load_readonly content h.readonly_data table₂ memory₂
  some (table₃, record t { memory = memory₃ })

-- The host is little endian, where SwapHeader changes nothing. `none` inside is a missing file.
unfoldable pub load :
    Option (NoffHeader × (ℕ → ℕ)) → FrameTable → Option (Option PageTable × FrameTable)
unfolding load_segments image_size div_round_up
load none t = some (none, t)
load (some (h, content)) t = do
  assert (h.noff_magic == noff_magic_number)
  (table, t₁) ← allocate (div_round_up (image_size h) page_size) t
  (loaded, t₂) ← load_segments content h table t₁
  some (some loaded, t₂)
