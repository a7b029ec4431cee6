-- ===== src/Machine/Access.antt =====
-- What Translate leaves: an address in the frame of a valid entry that permits the access, and a table
-- that differs in the use and dirty bits only; or the exception of the first test that fails.
use nthu_operating_system_er.Base.{
  ℕ, ◌+◌, ◌*◌, ◌≤◌, ◌≡◌, ◌≢◌, refl, sym, ◌∙◌, ap, Bool, true, false, ◌&&◌, Option, some, arith, leb,
  get_elem?, Bool-cases, inl, inr, ◌⊎◌,
}
use nthu_operating_system_er.AddrSpace.{TranslationEntry, page_size, num_phys_pages, memory_size}
use nthu_operating_system_er.Machine.{
  Machine, ExceptionType, no_exception, read_only_exception, bus_error_exception,
}
use nthu_operating_system_er.Machine.Translate.{Translated, touched, use_entry}
use nthu_operating_system_er.Machine.Mapping.{
  OneTable, entries_of, SameMapping, SameMapping-refl, SameMapping-trans,
}

-- The second machine is the first with marks in its table.
pub record Touched (m m' : Machine) : Type 0 where
  pub registers : m'.registers ≡ m.registers
  pub memory : m'.main_memory ≡ m.main_memory
  pub one_table : OneTable m'.tlb m'.page_table
  pub mapping : SameMapping (entries_of m) (entries_of m')

pub Touched-refl : (m : Machine) → OneTable m.tlb m.page_table → Touched m m
Touched-refl m h = record {
  registers = refl;
  memory = refl;
  one_table = h;
  mapping = SameMapping-refl (entries_of m);
}

pub Touched-trans : {m m' m'' : Machine} → Touched m m' → Touched m' m'' → Touched m m''
Touched-trans s t = record {
  registers = t.registers ∙ s.registers;
  memory = t.memory ∙ s.memory;
  one_table = t.one_table;
  mapping = SameMapping-trans _ _ _ s.mapping t.mapping;
}

-- An entry of the machine's table grants the access.
pub record Permits (m : Machine) (frame : ℕ) (writing : Bool) : Type 0 where
  pub place : ℕ
  pub entry : TranslationEntry
  pub stored : get_elem? (entries_of m) place ≡ some entry
  pub is_valid : entry.valid ≡ true
  pub permitted : entry.read_only && writing ≡ false
  pub at_frame : entry.physical_page ≡ frame

-- The address of a successful translation, and the machine after it.
pub record Granted (m : Machine) (size : ℕ) (writing : Bool) (phys_addr : ℕ) (m' : Machine)
    : Type 0 where
  pub frame : ℕ
  pub permits : Permits m frame writing
  pub starts : frame * page_size ≤ phys_addr
  pub ends : phys_addr + size ≤ frame * page_size + page_size
  pub in_memory : phys_addr + size ≤ memory_size
  pub after : Touched m m'

-- Sizes that ReadMem and WriteMem know.
abbrev pub IsSize : ℕ → Type 0
IsSize size = (size ≡ 1) ⊎ ((size ≡ 2) ⊎ (size ≡ 4))

-- An outcome of Translate.
abbrev pub Answer : Machine → ℕ → Bool → Translated → Type 0
Answer m size writing (which, phys_addr, m') =
    ((which ≡ no_exception) × Granted m size writing phys_addr m')
    ⊎ ((which ≢ no_exception) × (m' ≡ m))

abbrev pub Answers : Machine → ℕ → Bool → Option Translated → Type 0
Answers m size writing o = (t : Translated) × (o ≡ some t) × Answer m size writing t

pub refused :
    (m : Machine) (size : ℕ) (w : Bool) (which : ExceptionType) (o : Option Translated)
    → which ≢ no_exception
    → o ≡ some (which, 0, m)
    → Answers m size w o
refused m size w which o h e = ((which, 0, m), e, inr (h, refl))

pub use_entry-Answers :
    (m : Machine) (put : TranslationEntry → Machine) (e : TranslationEntry) (k offset size : ℕ)
    (w : Bool)
    → get_elem? (entries_of m) k ≡ some e
    → e.valid ≡ true
    → Touched m (put (touched e w))
    → offset + size ≤ page_size
    → Answers m size w (use_entry m put e offset size w)
unfolding use_entry
use_entry-Answers m put e k offset size w g v after short = elim (Bool-cases (e.read_only && w)) [
  | inl locked ↦
      let e₁ : use_entry m put e offset size w ≡ some (read_only_exception, 0, m) = rw locked in
      refused m size w read_only_exception _ (λ q. cc q) e₁
  | inr free ↦ elim (Bool-cases (leb num_phys_pages e.physical_page)) [
    | inl beyond ↦
        let e₂ : use_entry m put e offset size w ≡ some (bus_error_exception, 0, m) =
          rw (free, beyond) in
        refused m size w bus_error_exception _ (λ q. cc q) e₂
    | inr inside ↦
        let fits : leb (e.physical_page * page_size + offset + size) memory_size ≡ true =
          ground arith in
        (
          (no_exception, e.physical_page * page_size + offset, put (touched e w)),
          rw (free, inside, fits),
          inl (
            refl,
            record {
              frame = e.physical_page;
              permits = record {
                place = k;
                entry = e;
                stored = g;
                is_valid = v;
                permitted = free;
                at_frame = refl;
              };
              starts = omega arith;
              ends = omega arith;
              in_memory = ground arith;
              after = after;
            },
          ),
        )
  ]
]

pub Permits-SameMapping :
    {m m' : Machine} {frame : ℕ} {w : Bool}
    → SameMapping (entries_of m) (entries_of m')
    → Permits m' frame w
    → Permits m frame w
Permits-SameMapping s p =
    let (e, stored, same) = s p.place p.entry p.stored in
    record {
      place = p.place;
      entry = e;
      stored = stored;
      is_valid = sym same.valid ∙ p.is_valid;
      permitted = ap (λ b. b && _) (sym same.read_only) ∙ p.permitted;
      at_frame = sym same.physical_page ∙ p.at_frame;
    }
