-- ===== src/Machine/Again.antt =====
-- Translate of a page that a write was granted, a second time for a read.
use nthu_operating_system_er.Base.{
  ℕ, zero, suc, ◌/◌, ◌%◌, ◌≡◌, refl, sym, ◌∙◌, ap, Bool, true, false, ◌&&◌, List, [], ◌∷◌, Option,
  some, arith, ◌==◌, get_elem?, set, Bool-cases, Option-cases, inl, inr,
}
use nthu_operating_system_er.AddrSpace.{TranslationEntry, Memory, page_size}
use nthu_operating_system_er.Machine.{Machine, no_exception}
use nthu_operating_system_er.Machine.Translate.{
  Translated, find_entry, touched, use_entry, translate_page_table, translate_tlb,
}
use nthu_operating_system_er.Machine.Answers.{with_page_table, with_tlb}

-- An answer without an exception
abbrev pub granted : ℕ → Machine → Option Translated
granted phys_addr m = some (no_exception, phys_addr, m)

use_entry-again :
    (m m₂ m' : Machine) (put put₂ : TranslationEntry → Machine) (e : TranslationEntry)
    (offset size phys_addr : ℕ)
    → use_entry m put e offset size true ≡ granted phys_addr m'
    → (m' ≡ put (touched e true))
      × (use_entry m₂ put₂ (touched e true) offset size false
          ≡ granted phys_addr (put₂ (touched (touched e true) false)))
unfolding use_entry
use_entry-again m m₂ m' put put₂ e offset size phys_addr h = (ground (arith, h), ground (arith, h))

get_elem?-set_self :
    (t : List TranslationEntry) (k : ℕ) (e x : TranslationEntry)
    → get_elem? t k ≡ some e
    → get_elem? (set t k x) k ≡ some x
get_elem?-set_self [] k e x h = absurd (cc h)
get_elem?-set_self (y ∷ t) zero e x h = refl
get_elem?-set_self (y ∷ t) (suc k) e x h = get_elem?-set_self t k e x h

find_entry-here :
    (vpn : ℕ) (y : TranslationEntry) (t : List TranslationEntry) (e : TranslationEntry)
    → find_entry vpn (y ∷ t) ≡ some (0, e)
    → ((y.valid && y.virtual_page == vpn) ≡ true) × (y ≡ e)
unfolding find_entry
find_entry-here vpn y t e h = (ground arith, ground arith)

find_entry-set :
    (vpn : ℕ) (t : List TranslationEntry) (k : ℕ) (e : TranslationEntry) (w : Bool)
    → find_entry vpn t ≡ some (k, e)
    → find_entry vpn (set t k (touched e w)) ≡ some (k, touched e w)
unfolding find_entry
find_entry-set vpn [] k e w h = absurd (cc h)
find_entry-set vpn (y ∷ t) zero e w h =
    let (found, same) = find_entry-here vpn y t e h in
    let found' : (e.valid && e.virtual_page == vpn) ≡ true =
      ap (λ (x : TranslationEntry). x.valid && x.virtual_page == vpn) (sym same) ∙ found in
    rw found'
find_entry-set vpn (y ∷ t) (suc k) e w h = ground (arith, find_entry-set vpn t k e w)

-- A second access of the page by a read, after a write was granted, with any memory.
abbrev pub Again :
    (Machine → List TranslationEntry → Option Translated)
    → (Memory → List TranslationEntry → Machine)
    → Memory
    → ℕ
    → Machine
    → Type 0
Again translate_by with_table memory phys_addr m' =
    (t' : List TranslationEntry) × (m' ≡ with_table memory t')
    × ((memory' : Memory)
        → (m'' : Machine) × (translate_by (with_table memory' t') t' ≡ granted phys_addr m'')
          × (m''.main_memory ≡ memory'))

translate_page_table_run :
    (r memory : ℕ → ℕ) (t : List TranslationEntry) (addr size : ℕ) (w : Bool) (e : TranslationEntry)
    → get_elem? t (addr / page_size) ≡ some e
    → e.valid ≡ true
    → translate_page_table (with_page_table r memory t) t addr size w
      ≡ use_entry
          (with_page_table r memory t)
          (λ x. with_page_table r memory (set t (addr / page_size) x))
          e
          (addr % page_size)
          size
          w
unfolding translate_page_table
translate_page_table_run r memory t addr size w e present valid =
    rw (present, valid, translate_page_table)

translate_tlb_run :
    (r memory : ℕ → ℕ) (t : List TranslationEntry) (addr size : ℕ) (w : Bool) (k : ℕ)
    (e : TranslationEntry)
    → find_entry (addr / page_size) t ≡ some (k, e)
    → translate_tlb (with_tlb r memory t) t addr size w
      ≡ use_entry
          (with_tlb r memory t)
          (λ x. with_tlb r memory (set t k x))
          e
          (addr % page_size)
          size
          w
unfolding translate_tlb
translate_tlb_run r memory t addr size w k e found = rw (found, translate_tlb)

pub page_table-Again :
    (r memory : ℕ → ℕ) (t : List TranslationEntry) (addr size phys_addr : ℕ) (m' : Machine)
    → translate_page_table (with_page_table r memory t) t addr size true ≡ granted phys_addr m'
    → Again
        (λ m t'. translate_page_table m t' addr size false)
        (with_page_table r)
        memory
        phys_addr
        m'
unfolding translate_page_table
page_table-Again r memory t addr size phys_addr m' h =
    elim (Option-cases (get_elem? t (addr / page_size))) [
      | inl absent ↦ absurd (ground (arith, h))
      | inr (e, present) ↦ elim (Bool-cases e.valid) [
        | inr invalid ↦ absurd (ground (arith, h))
        | inl valid ↦ marked e present valid
      ]
    ]
  where
    marked :
        (e : TranslationEntry)
        → get_elem? t (addr / page_size) ≡ some e
        → e.valid ≡ true
        → Again
            (λ m t'. translate_page_table m t' addr size false)
            (with_page_table r)
            memory
            phys_addr
            m'
    marked e present valid =
        let k : ℕ = addr / page_size in
        let t' : List TranslationEntry = set t k (touched e true) in
        let again = λ (memory' : Memory).
          use_entry-again (with_page_table r memory t) (with_page_table r memory' t') m'
            (λ x. with_page_table r memory (set t k x))
            (λ x. with_page_table r memory' (set t' k x)) e (addr % page_size) size phys_addr
            (sym (translate_page_table_run r memory t addr size true e present valid) ∙ h) in
        (
          t',
          (again memory).0,
          λ memory'. (
            with_page_table r memory' (set t' k (touched (touched e true) false)),
            translate_page_table_run r memory' t' addr size false (touched e true)
                  (get_elem?-set_self t k e (touched e true) present) valid
                ∙ (again memory').1,
            refl,
          ),
        )

pub tlb-Again :
    (r memory : ℕ → ℕ) (t : List TranslationEntry) (addr size phys_addr : ℕ) (m' : Machine)
    → translate_tlb (with_tlb r memory t) t addr size true ≡ granted phys_addr m'
    → Again (λ m t'. translate_tlb m t' addr size false) (with_tlb r) memory phys_addr m'
unfolding translate_tlb
tlb-Again r memory t addr size phys_addr m' h =
    elim (Option-cases (find_entry (addr / page_size) t)) [
      | inl absent ↦ absurd (ground (arith, h))
      | inr ((k, e), found) ↦ marked k e found
    ]
  where
    marked :
        (k : ℕ) (e : TranslationEntry)
        → find_entry (addr / page_size) t ≡ some (k, e)
        → Again (λ m t'. translate_tlb m t' addr size false) (with_tlb r) memory phys_addr m'
    marked k e found =
        let t' : List TranslationEntry = set t k (touched e true) in
        let again = λ (memory' : Memory).
          use_entry-again (with_tlb r memory t) (with_tlb r memory' t') m'
            (λ x. with_tlb r memory (set t k x)) (λ x. with_tlb r memory' (set t' k x)) e
            (addr % page_size) size phys_addr
            (sym (translate_tlb_run r memory t addr size true k e found) ∙ h) in
        (
          t',
          (again memory).0,
          λ memory'. (
            with_tlb r memory' (set t' k (touched (touched e true) false)),
            translate_tlb_run r memory' t' addr size false k (touched e true)
                  (find_entry-set (addr / page_size) t k e true found)
                ∙ (again memory').1,
            refl,
          ),
        )
