-- ===== src/Machine/RoundTrip.antt =====
-- WriteMem, and then ReadMem.
use nthu_operating_system_er.Base.{
  ℕ, ◌%◌, ◌<◌, ◌≡◌, refl, sym, ◌∙◌, ap, subst, Bool, true, false, List, Option, none, some, some_eq,
  arith, ◌==◌, if◌then◌else◌, Bool-cases, inl, inr,
}
use nthu_operating_system_er.Mult.{word_size}
use nthu_operating_system_er.AddrSpace.{TranslationEntry, Memory}
use nthu_operating_system_er.Machine.{
  Machine, no_exception, syscall_exception, page_fault_exception, read_only_exception,
  bus_error_exception, address_error_exception, overflow_exception, illegal_instr_exception, done,
  ◌>>=◌, raise_exception,
}
use nthu_operating_system_er.Machine.Word.{sign_extend_byte}
use nthu_operating_system_er.Machine.Translate.{
  Translated, misaligned, translate_page_table, translate_tlb, translate, translated, load, store,
  load_half, load_word, store_byte, store_half, store_word, read_mem, write_mem, or_abort,
}
use nthu_operating_system_er.Machine.Answers.{with_page_table, with_tlb}
use nthu_operating_system_er.Machine.Again.{granted, page_table-Again, tlb-Again}
use nthu_operating_system_er.Machine.Access.{IsSize}

-- Any memory in the place of the machine's
abbrev with_memory : Memory → Machine → Machine
with_memory memory m = record m { main_memory = memory }

-- The read of the place that a write was granted
abbrev ReadsAgain : ℕ → ℕ → ℕ → Machine → Type 0
ReadsAgain addr size phys_addr m' =
    (memory' : Memory)
    → (m'' : Machine) × (translate addr size false (with_memory memory' m') ≡ granted phys_addr m'')
      × (m''.main_memory ≡ memory')

translate-with_page_table :
    (r memory : Memory) (t : List TranslationEntry) (addr size : ℕ) (w : Bool)
    → misaligned addr size ≡ false
    → translate addr size w (with_page_table r memory t)
      ≡ translate_page_table (with_page_table r memory t) t addr size w
unfolding translate
translate-with_page_table r memory t addr size w a = rw (a, translate)

translate-with_tlb :
    (r memory : Memory) (t : List TranslationEntry) (addr size : ℕ) (w : Bool)
    → misaligned addr size ≡ false
    → translate addr size w (with_tlb r memory t)
      ≡ translate_tlb (with_tlb r memory t) t addr size w
unfolding translate
translate-with_tlb r memory t addr size w a = rw (a, translate)

translate-again :
    (r memory : Memory) (tlb table : Option (List TranslationEntry)) (addr size phys_addr : ℕ)
    (m' : Machine)
    → misaligned addr size ≡ false
    → translate addr size true
        (record { registers = r; main_memory = memory; tlb = tlb; page_table = table })
      ≡ granted phys_addr m'
    → ReadsAgain addr size phys_addr m'
unfolding translate
translate-again r memory none none addr size phys_addr m' a h = absurd (ground (arith, h))
translate-again r memory none (some t) addr size phys_addr m' a h =
    let (t', e, again) =
      page_table-Again r memory t addr size phys_addr m'
        (sym (translate-with_page_table r memory t addr size true a) ∙ h) in
    subst (ReadsAgain addr size phys_addr) (sym e) (λ memory'.
      let (m'', q, same) = again memory' in
      (m'', translate-with_page_table r memory' t' addr size false a ∙ q, same))
translate-again r memory (some t) none addr size phys_addr m' a h =
    let (t', e, again) =
      tlb-Again r memory t addr size phys_addr m'
        (sym (translate-with_tlb r memory t addr size true a) ∙ h) in
    subst (ReadsAgain addr size phys_addr) (sym e) (λ memory'.
      let (m'', q, same) = again memory' in
      (m'', translate-with_tlb r memory' t' addr size false a ∙ q, same))
translate-again r memory (some t) (some t') addr size phys_addr m' a h = absurd (ground (arith, h))

granted-aligned :
    (m m' : Machine) (addr size phys_addr : ℕ)
    → translate addr size true m ≡ granted phys_addr m'
    → misaligned addr size ≡ false
granted-aligned m m' addr size phys_addr h = elim (Bool-cases (misaligned addr size)) [
  | inr aligned ↦ aligned
  | inl odd ↦ absurd (no_grant (sym (refuses odd) ∙ h))
]
  where
    refuses :
        misaligned addr size ≡ true
        → translate addr size true m ≡ some (address_error_exception, 0, m)
    refuses e = unfold translate in rw (e, translate)

    no_grant : some (address_error_exception, 0, m) ≡ granted phys_addr m' → ⊥
    no_grant e = cc e

-- A WriteMem that ends without a trap
pub record WrittenAt (addr size value : ℕ) (m m' : Machine) : Type 0 where
  pub phys_addr : ℕ
  pub machine : Machine
  pub memory : Memory
  pub access : translate addr size true m ≡ granted phys_addr machine
  pub stored : store phys_addr size value machine.main_memory ≡ some memory
  pub after : m' ≡ with_memory memory machine

write_mem-WrittenAt :
    (addr size value : ℕ) (m m' : Machine)
    → write_mem addr size value m ≡ done m'
    → WrittenAt addr size value m m'
unfolding write_mem translated raise_exception
write_mem-WrittenAt addr size value m m' h = from_translate (translate addr size true m) refl h
  where
    from_store :
        (phys_addr : ℕ) (m₁ : Machine) (o : Option Memory)
        → translate addr size true m ≡ granted phys_addr m₁
        → store phys_addr size value m₁.main_memory ≡ o
        → (or_abort o >>= λ memory. done (with_memory memory m₁)) ≡ done m'
        → WrittenAt addr size value m m'
    from_store phys_addr m₁ none t e h = absurd (cc h)
    from_store phys_addr m₁ (some memory) t e h = record {
      phys_addr = phys_addr;
      machine = m₁;
      memory = memory;
      access = t;
      stored = e;
      after = ground (arith, h);
    }

    from_translate :
        (o : Option Translated)
        → translate addr size true m ≡ o
        → (translated addr o >>= λ t. or_abort (store t.0 size value t.1.main_memory) >>= λ memory.
            done (with_memory memory t.1))
          ≡ done m'
        → WrittenAt addr size value m m'
    from_translate none e h = absurd (cc h)
    from_translate (some (no_exception, p, m₁)) e h =
        from_store p m₁ (store p size value m₁.main_memory) e refl h
    from_translate (some (syscall_exception, p, m₁)) e h = absurd (cc h)
    from_translate (some (page_fault_exception, p, m₁)) e h = absurd (cc h)
    from_translate (some (read_only_exception, p, m₁)) e h = absurd (cc h)
    from_translate (some (bus_error_exception, p, m₁)) e h = absurd (cc h)
    from_translate (some (address_error_exception, p, m₁)) e h = absurd (cc h)
    from_translate (some (overflow_exception, p, m₁)) e h = absurd (cc h)
    from_translate (some (illegal_instr_exception, p, m₁)) e h = absurd (cc h)

-- What ReadMem makes of the bytes that are left of a value.
abbrev pub clip : ℕ → ℕ → ℕ
clip size v =
    if size == 1 then sign_extend_byte (v % 0x100) else if size == 2 then v % 0x1_0000 else v

load-store :
    (a size v : ℕ) (memory memory' : Memory)
    → IsSize size
    → v < word_size
    → store a size v memory ≡ some memory'
    → load memory' a size ≡ some (clip size v)
unfolding load store
load-store a size v memory memory' (inl q) h e =
    let st : store a size v memory ≡ some (store_byte a v memory) = rw q in
    subst (λ (f : Memory). load f a size ≡ some (clip size v)) (some_eq (sym st ∙ e))
      (rw q (ap some (ap sign_extend_byte (byte_back a v memory))))
  where
    byte_back : (a v : ℕ) (memory : Memory) → store_byte a v memory a ≡ v % 0x100
    byte_back a v memory = ground arith
load-store a size v memory memory' (inr (inl q)) h e =
    let st : store a size v memory ≡ some (store_half a v memory) = rw q in
    subst (λ (f : Memory). load f a size ≡ some (clip size v)) (some_eq (sym st ∙ e))
      (rw q (ap some (half_back a v memory)))
  where
    half_back : (a v : ℕ) (memory : Memory) → load_half (store_half a v memory) a ≡ v % 0x1_0000
    half_back a v memory = ground arith
load-store a size v memory memory' (inr (inr q)) h e =
    let st : store a size v memory ≡ some (store_word a v memory) = rw q in
    subst (λ (f : Memory). load f a size ≡ some (clip size v)) (some_eq (sym st ∙ e))
      (rw q (ap some (word_back a v memory h)))
  where
    word_back :
        (a v : ℕ) (memory : Memory) → v < word_size → load_word (store_word a v memory) a ≡ v
    word_back a v memory h = ground arith

read_mem_run :
    (addr size phys_addr value : ℕ) (m m' : Machine)
    → translate addr size false m ≡ granted phys_addr m'
    → load m'.main_memory phys_addr size ≡ some value
    → read_mem addr size m ≡ done (value, m')
unfolding read_mem translated
read_mem_run addr size phys_addr value m m' e l = rw (e, translated, l)

-- After a WriteMem of one, two or four bytes of a word that does not trap, ReadMem of the same
-- address and size does not trap and gives these bytes of the word, one byte with its sign, and
-- keeps the memory.
pub read_mem-write_mem :
    (addr size value : ℕ) (m m' : Machine)
    → IsSize size
    → value < word_size
    → write_mem addr size value m ≡ done m'
    → (m'' : Machine) × (read_mem addr size m' ≡ done (clip size value, m''))
      × (m''.main_memory ≡ m'.main_memory)
read_mem-write_mem addr size value m m' s h e =
    let w = write_mem-WrittenAt addr size value m m' e in
    let aligned = granted-aligned m w.machine addr size w.phys_addr w.access in
    let (m'', again, same) =
      translate-again m.registers m.main_memory m.tlb m.page_table addr size w.phys_addr w.machine
        aligned w.access w.memory in
    let loaded = load-store w.phys_addr size value w.machine.main_memory w.memory s h w.stored in
    (
      m'',
      subst (λ x. read_mem addr size x ≡ done (clip size value, m'')) (sym w.after)
          (read_mem_run addr size w.phys_addr (clip size value) (with_memory w.memory w.machine) m''
            again (ap (λ f. load f w.phys_addr size) same ∙ loaded)),
      same ∙ sym (ap (λ (x : Machine). x.main_memory) w.after),
    )
