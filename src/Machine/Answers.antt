-- ===== src/Machine/Answers.antt =====
-- Translate of a machine with one table has an answer at every address.
use nthu_operating_system_er.Base.{
  ℕ, zero, suc, ◌+◌, ◌/◌, ◌%◌, ◌≤◌, ◌≡◌, refl, subst, Bool, true, false, List, [], ◌∷◌, Option,
  none, some, arith, get_elem?, set, Bool-cases, Option-cases, inl, inr,
}
use nthu_operating_system_er.AddrSpace.{TranslationEntry, page_size}
use nthu_operating_system_er.Machine.{Machine, page_fault_exception, address_error_exception}
use nthu_operating_system_er.Machine.Translate.{
  misaligned, find_entry, touched, translate_page_table, translate_tlb, translate,
}
use nthu_operating_system_er.Machine.Mapping.{OneTable, set-SameMapping}
use nthu_operating_system_er.Machine.Access.{Touched, IsSize, Answers, refused, use_entry-Answers}

find_entry-some :
    (vpn : ℕ) (t : List TranslationEntry) (k : ℕ) (e : TranslationEntry)
    → find_entry vpn t ≡ some (k, e)
    → (get_elem? t k ≡ some e) × (e.valid ≡ true)
unfolding find_entry
find_entry-some vpn [] k e h = absurd (cc h)
find_entry-some vpn (x ∷ t) zero e h = ground arith
find_entry-some vpn (x ∷ t) (suc k) e h = ground (arith, find_entry-some vpn t k e)

short_access :
    (addr size : ℕ)
    → IsSize size
    → misaligned addr size ≡ false
    → addr % page_size + size ≤ page_size
short_access addr size (inl e) a = omega (arith, e)
short_access addr size (inr (inl e)) a = ground (arith, e)
short_access addr size (inr (inr e)) a = ground (arith, e)

-- The machine with another table in the place of its own.
module _ (r : ℕ → ℕ) (memory : ℕ → ℕ) where
  abbrev pub with_page_table : List TranslationEntry → Machine
  with_page_table table = record {
    registers = r;
    main_memory = memory;
    tlb = none;
    page_table = some table;
  }

  abbrev pub with_tlb : List TranslationEntry → Machine
  with_tlb tlb = record { registers = r; main_memory = memory; tlb = some tlb; page_table = none }

  marked_page :
      (t : List TranslationEntry) (k : ℕ) (e : TranslationEntry) (w : Bool)
      → get_elem? t k ≡ some e
      → Touched (with_page_table t) (with_page_table (set t k (touched e w)))
  marked_page t k e w g = record {
    registers = refl;
    memory = refl;
    one_table = tt;
    mapping = set-SameMapping t k e w g;
  }

  marked_tlb :
      (t : List TranslationEntry) (k : ℕ) (e : TranslationEntry) (w : Bool)
      → get_elem? t k ≡ some e
      → Touched (with_tlb t) (with_tlb (set t k (touched e w)))
  marked_tlb t k e w g = record {
    registers = refl;
    memory = refl;
    one_table = tt;
    mapping = set-SameMapping t k e w g;
  }

  page_table-Answers :
      (t : List TranslationEntry) (addr size : ℕ) (w : Bool)
      → addr % page_size + size ≤ page_size
      → Answers (with_page_table t) size w (translate_page_table (with_page_table t) t addr size w)
  unfolding translate_page_table
  page_table-Answers t addr size w short = elim (Option-cases (get_elem? t (addr / page_size))) [
    | inl absent ↦
        let e₁ : translate_page_table (with_page_table t) t addr size w
            ≡ some (address_error_exception, 0, with_page_table t) =
          rw (absent, translate_page_table) in
        refused (with_page_table t) size w address_error_exception _ (λ q. cc q) e₁
    | inr (e, present) ↦ elim (Bool-cases e.valid) [
      | inl valid ↦
          subst (Answers (with_page_table t) size w) (rw (present, valid, translate_page_table)) (
            use_entry-Answers (with_page_table t)
              (λ x. with_page_table (set t (addr / page_size) x)) e (addr / page_size)
              (addr % page_size) size w present valid (marked_page t (addr / page_size) e w present)
              short)
      | inr invalid ↦
          let e₂ : translate_page_table (with_page_table t) t addr size w
              ≡ some (page_fault_exception, 0, with_page_table t) =
            rw (present, invalid, translate_page_table) in
          refused (with_page_table t) size w page_fault_exception _ (λ q. cc q) e₂
    ]
  ]

  tlb-Answers :
      (t : List TranslationEntry) (addr size : ℕ) (w : Bool)
      → addr % page_size + size ≤ page_size
      → Answers (with_tlb t) size w (translate_tlb (with_tlb t) t addr size w)
  unfolding translate_tlb
  tlb-Answers t addr size w short = elim (Option-cases (find_entry (addr / page_size) t)) [
    | inl absent ↦
        let e₁ : translate_tlb (with_tlb t) t addr size w
            ≡ some (page_fault_exception, 0, with_tlb t) =
          rw (absent, translate_tlb) in
        refused (with_tlb t) size w page_fault_exception _ (λ q. cc q) e₁
    | inr ((k, e), found) ↦
        let (present, valid) = find_entry-some (addr / page_size) t k e found in
        subst (Answers (with_tlb t) size w) (rw (found, translate_tlb)) (
          use_entry-Answers (with_tlb t) (λ x. with_tlb (set t k x)) e k (addr % page_size) size w
            present valid (marked_tlb t k e w present) short)
  ]

translate_aligned :
    (r memory : ℕ → ℕ) (tlb table : Option (List TranslationEntry)) (addr size : ℕ) (w : Bool)
    → OneTable tlb table
    → IsSize size
    → misaligned addr size ≡ false
    → Answers
        (record { registers = r; main_memory = memory; tlb = tlb; page_table = table })
        size
        w
        (translate addr size w
          (record { registers = r; main_memory = memory; tlb = tlb; page_table = table }))
unfolding translate
translate_aligned r memory none none addr size w h s a = absurd h
translate_aligned r memory none (some t) addr size w h s a =
    subst (Answers (with_page_table r memory t) size w) (rw (a, translate))
      (page_table-Answers r memory t addr size w (short_access addr size s a))
translate_aligned r memory (some t) none addr size w h s a =
    subst (Answers (with_tlb r memory t) size w) (rw (a, translate))
      (tlb-Answers r memory t addr size w (short_access addr size s a))
translate_aligned r memory (some t) (some t') addr size w h s a = absurd h

-- Translate of a machine with one table does not abort.
pub translate-Answers :
    (m : Machine) (addr size : ℕ) (w : Bool)
    → OneTable m.tlb m.page_table
    → IsSize size
    → Answers m size w (translate addr size w m)
unfolding translate
translate-Answers m addr size w h s = elim (Bool-cases (misaligned addr size)) [
  | inl odd ↦
      let e₁ : translate addr size w m ≡ some (address_error_exception, 0, m) =
        rw (odd, translate) in
      refused m size w address_error_exception _ (λ q. cc q) e₁
  | inr aligned ↦
      translate_aligned m.registers m.main_memory m.tlb m.page_table addr size w h s aligned
]
