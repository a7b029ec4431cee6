-- ===== src/Machine/Translate.antt =====
-- MP4 code/machine/translate.cc: ReadMem, WriteMem and Translate, on a host that is little endian, where
-- the conversions between the host and the machine do nothing.
use nthu_operating_system_er.Base.{
  ℕ, suc, ◌+◌, ◌*◌, ◌/◌, ◌%◌, Bool, true, false, ◌&&◌, ◌||◌, not, List, [], ◌∷◌, Option, none, some,
  leb, ◌==◌, if◌then◌else◌, ◌>>◌, assert, get_elem?, set,
}
use nthu_operating_system_er.AddrSpace.{
  TranslationEntry, Memory, page_size, num_phys_pages, memory_size,
}
use nthu_operating_system_er.Machine.{
  Machine, ExceptionType, no_exception, page_fault_exception, read_only_exception,
  bus_error_exception, address_error_exception, Outcome, done, aborted, ◌>>=◌, raise_exception,
  assign,
}
use nthu_operating_system_er.Machine.Word.{sign_extend_byte}

-- The exception, the physical address (of no meaning after an exception), and the machine.
abbrev pub Translated : Type 0
Translated = ExceptionType × ℕ × Machine

abbrev pub misaligned : ℕ → ℕ → Bool
misaligned virt_addr size =
    (size == 4 && not (virt_addr % 4 == 0)) || (size == 2 && not (virt_addr % 2 == 0))

-- The loop over the TLB: the first valid entry of the page, and its place.
unfoldable pub find_entry : ℕ → List TranslationEntry → Option (ℕ × TranslationEntry)
find_entry vpn [] = none
find_entry vpn (e ∷ es) =
    let rest = find_entry vpn es in
    if e.valid && e.virtual_page == vpn
    then some (0, e)
    else elim rest [ none ↦ none | some (i, entry) ↦ some (suc i, entry) ]

-- The entry that Translate marks.
abbrev pub touched : TranslationEntry → Bool → TranslationEntry
touched entry writing = record entry {
  in_use = true;
  dirty = if writing then true else entry.dirty;
}

-- The end of Translate, from the test of the read-only bit on; `put` stores the marked entry.
unfoldable pub use_entry :
    Machine → (TranslationEntry → Machine) → TranslationEntry → ℕ → ℕ → Bool → Option Translated
use_entry m put entry offset size writing =
    if entry.read_only && writing
    then some (read_only_exception, 0, m)
    else if leb num_phys_pages entry.physical_page
    then some (bus_error_exception, 0, m)
    else (do
      let phys_addr : ℕ = entry.physical_page * page_size + offset
      assert (leb (phys_addr + size) memory_size)
      some (no_exception, phys_addr, put (touched entry writing)))

-- Translate with a page table
unfoldable pub translate_page_table :
    Machine → List TranslationEntry → ℕ → ℕ → Bool → Option Translated
unfolding use_entry
translate_page_table m table virt_addr size writing =
    elim (get_elem? table (virt_addr / page_size)) [
      | none ↦ some (address_error_exception, 0, m)
      | some entry ↦
          if not entry.valid
          then some (page_fault_exception, 0, m)
          else use_entry m
              (λ marked. record m { page_table = some (set table (virt_addr / page_size) marked) })
              entry (virt_addr % page_size) size writing
    ]

-- Translate with a TLB
unfoldable pub translate_tlb : Machine → List TranslationEntry → ℕ → ℕ → Bool → Option Translated
unfolding use_entry find_entry
translate_tlb m tlb virt_addr size writing = elim (find_entry (virt_addr / page_size) tlb) [
  | none ↦ some (page_fault_exception, 0, m)
  | some (i, entry) ↦
      use_entry m (λ marked. record m { tlb = some (set tlb i marked) }) entry
        (virt_addr % page_size) size writing
]

-- Machine::Translate
unfoldable pub translate : ℕ → ℕ → Bool → Machine → Option Translated
unfolding translate_page_table translate_tlb
translate virt_addr size writing m =
    if misaligned virt_addr size then some (address_error_exception, 0, m) else elim m.tlb [
      | none ↦ elim m.page_table [
        | none ↦ none
        | some table ↦ translate_page_table m table virt_addr size writing
      ]
      | some tlb ↦ elim m.page_table [
        | none ↦ translate_tlb m tlb virt_addr size writing
        | some table ↦ none
      ]
    ]

-- *(unsigned short *) and *(unsigned int *)
abbrev pub load_half : Memory → ℕ → ℕ
load_half memory a = memory a + 0x100 * memory (a + 1)

abbrev pub load_word : Memory → ℕ → ℕ
load_word memory a = load_half memory a + 0x1_0000 * load_half memory (a + 2)

abbrev pub store_byte : ℕ → ℕ → Memory → Memory
store_byte a v memory = assign a (v % 0x100) memory

abbrev pub store_half : ℕ → ℕ → Memory → Memory
store_half a v memory = store_byte (a + 1) (v / 0x100) (store_byte a v memory)

abbrev pub store_word : ℕ → ℕ → Memory → Memory
store_word a v memory = store_half (a + 2) (v / 0x1_0000) (store_half a v memory)

-- The switches on the size
unfoldable pub load : Memory → ℕ → ℕ → Option ℕ
load memory a size =
    if size == 1
    then some (sign_extend_byte (memory a))
    else if size == 2
    then some (load_half memory a)
    else if size == 4
    then some (load_word memory a)
    else none

unfoldable pub store : ℕ → ℕ → ℕ → Memory → Option Memory
store a size v memory =
    if size == 1
    then some (store_byte a v memory)
    else if size == 2
    then some (store_half a v memory)
    else if size == 4
    then some (store_word a v memory)
    else none

-- What ReadMem and WriteMem do with Translate's result: an exception is raised in the machine.
unfoldable pub translated : ℕ → Option Translated → Outcome (ℕ × Machine)
unfolding raise_exception
translated addr none = aborted
translated addr (some (no_exception, phys_addr, m)) = done (phys_addr, m)
translated addr (some (which, phys_addr, m)) = raise_exception which addr m

abbrev pub or_abort {ℓ} : {A : Type ℓ} → Option A → Outcome A
or_abort none = aborted
or_abort (some a) = done a

-- Machine::ReadMem
unfoldable pub read_mem : ℕ → ℕ → Machine → Outcome (ℕ × Machine)
unfolding translate translated load
read_mem addr size m = do
  (phys_addr, m') ← translated addr (translate addr size false m)
  value ← or_abort (load m'.main_memory phys_addr size)
  done (value, m')

-- Machine::WriteMem
unfoldable pub write_mem : ℕ → ℕ → ℕ → Machine → Outcome Machine
unfolding translate translated store
write_mem addr size value m = do
  (phys_addr, m') ← translated addr (translate addr size true m)
  memory ← or_abort (store phys_addr size value m'.main_memory)
  done (record m' { main_memory = memory })
