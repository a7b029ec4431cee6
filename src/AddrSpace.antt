-- ===== src/AddrSpace.antt =====
-- MP2 code/userprog/addrspace.cc and addrspace.h: the frame table, the page table of an address
-- space and its translation. A page table is a list of entries; the main memory is a function from
-- addresses to bytes. `none` is a failed ASSERT.
pub mod Frames
pub mod Paging
pub mod Translation
pub mod Load
pub mod Examples
use nthu_operating_system_er.Base.{
  ℕ, zero, suc, ◌+◌, ◌*◌, ◌/◌, ◌%◌, ◌-◌, Bool, true, false, ◌&&◌, not, List, [], ◌∷◌, Option, none,
  some, ltb, leb, if◌then◌else◌, ◌>>=◌, ◌>>◌, assert, get_elem?, set, length, contains,
}
use nthu_operating_system_er.LinkedList
use nthu_operating_system_er.LinkedList.{LinkedList}

-- machine.h
abbrev pub page_size : ℕ
page_size = 128

abbrev pub num_phys_pages : ℕ
num_phys_pages = 128

abbrev pub memory_size : ℕ
memory_size = num_phys_pages * page_size

pub record TranslationEntry : Type 0 where
  pub virtual_page : ℕ
  pub physical_page : ℕ
  pub valid : Bool
  pub in_use : Bool
  pub dirty : Bool
  pub read_only : Bool

abbrev pub PageTable : Type 0
PageTable = List TranslationEntry

abbrev pub Memory : Type 0
Memory = ℕ → ℕ

-- bzero(mainMemory + from, size)
unfoldable pub bzero : Memory → ℕ → ℕ → Memory
bzero memory from size a = if leb from a && ltb a (from + size) then 0 else memory a

pub record FrameTable : Type 0 where
  pub available : LinkedList
  pub memory : Memory

-- FrameTable::FrameTable appends the frames i, i + 1, …: `rounds` more of them.
unfoldable pub append_frames : ℕ → ℕ → LinkedList → Option LinkedList
append_frames zero i l = some l
append_frames (suc rounds) i l = LinkedList.append l i >>= append_frames rounds (suc i)

unfoldable pub new_frame_table : Memory → Option FrameTable
unfolding append_frames
new_frame_table memory = do
  available ← append_frames num_phys_pages 0 LinkedList.empty
  some (record { available = available; memory = memory })

unfoldable pub remain_size : FrameTable → ℕ
remain_size t = t.available.num_in_list

abbrev pub fresh_entry : ℕ → ℕ → TranslationEntry
fresh_entry i f = record {
  virtual_page = i;
  physical_page = f;
  valid = true;
  in_use = false;
  dirty = false;
  read_only = false;
}

-- The loop of FrameTable::Allocate from page i on, for `rounds` more pages.
unfoldable pub allocate_pages : ℕ → ℕ → FrameTable → Option (PageTable × FrameTable)
unfolding bzero
allocate_pages zero i t = some ([], t)
allocate_pages (suc rounds) i t = do
  (f, rest) ← LinkedList.remove_front t.available
  let cleared : FrameTable = record {
    available = rest;
    memory = bzero t.memory (f * page_size) page_size;
  }
  (table, t') ← allocate_pages rounds (suc i) cleared
  some (fresh_entry i f ∷ table, t')

-- A NULL page table is `none` inside the result.
unfoldable pub allocate : ℕ → FrameTable → Option (Option PageTable × FrameTable)
unfolding allocate_pages remain_size
allocate page_num t =
    if ltb (remain_size t) page_num
    then some (none, t)
    else (allocate_pages page_num 0 t >>= λ r. some (some (r.0), r.1))

-- The loop of FrameTable::Release.
unfoldable pub release_frames : List TranslationEntry → LinkedList → Option LinkedList
release_frames [] available = some available
release_frames (e ∷ es) available =
    LinkedList.append available e.physical_page >>= release_frames es

-- `page_num` is the length of the page table at every call; a NULL table releases nothing.
unfoldable pub release : Option PageTable → FrameTable → Option FrameTable
unfolding release_frames
release none t = some t
release (some table) t = do
  available ← release_frames table t.available
  some (record t { available = available })

-- ExceptionType, as far as translation raises it.
pub data ExceptionType : Type 0 where
  no_exception read_only_exception bus_error_exception address_error_exception : ExceptionType

-- The entry is there, since the page number is below the table's length.
unfoldable pub translate_entry :
    PageTable → ℕ → ℕ → Bool → TranslationEntry → Option (ExceptionType × ℕ × PageTable)
translate_entry table vpn offset is_read_write pte =
    if is_read_write && pte.read_only
    then some (read_only_exception, 0, table)
    else if leb num_phys_pages pte.physical_page
    then some (bus_error_exception, 0, table)
    else (do
      let pte' : TranslationEntry = record pte {
        in_use = true;
        dirty = if is_read_write then true else pte.dirty;
      }
      let paddr : ℕ = pte.physical_page * page_size + offset
      assert (ltb paddr memory_size)
      some (no_exception, paddr, set table vpn pte'))

-- Returns the exception, the physical address (of no meaning after an exception) and the table.
unfoldable pub translate : PageTable → ℕ → Bool → Option (ExceptionType × ℕ × PageTable)
unfolding translate_entry
translate table vaddr is_read_write = elim (get_elem? table (vaddr / page_size)) [
  | none ↦ some (address_error_exception, 0, table)
  | some pte ↦ translate_entry table (vaddr / page_size) (vaddr % page_size) is_read_write pte
]
