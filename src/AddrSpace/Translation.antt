-- ===== src/AddrSpace/Translation.antt =====
-- AddrSpace::Translate: every branch, and that no two processes share a byte.
use mathlib.Core.List.{append_assoc}
use nthu_operating_system_er.Base.{
  ℕ, zero, suc, ◌+◌, ◌*◌, ◌/◌, ◌%◌, ◌≤◌, ◌<◌, ◌≡◌, ◌≢◌, refl, sym, ap, subst, Bool, true, false,
  ◌&&◌, List, [], ◌∷◌, ◌++◌, none, some, arith, if◌then◌else◌, count, get_elem?, set, Option-cases,
  inl, inr,
}
use nthu_operating_system_er.AddrSpace.{
  TranslationEntry, PageTable, page_size, memory_size, no_exception, translate, translate_entry,
}
use nthu_operating_system_er.AddrSpace.Frames.{frames}
use nthu_operating_system_er.AddrSpace.Paging.{
  System, Reach, Reach-IsPartition, IsPartition, lent, count-lent,
}

-- The entry after an access: used, and dirty if it was written to.
abbrev pub accessed : TranslationEntry → Bool → TranslationEntry
accessed pte w = record pte { in_use = true; dirty = if w then true else pte.dirty }

-- A successful translation reads the page's frame, which is in memory, and the page is writable if
-- it was for a write.
pub record Success (table : PageTable) (vaddr : ℕ) (w : Bool) (paddr : ℕ) (table' : PageTable)
    : Type 0 where
  pub pte : TranslationEntry
  pub entry : get_elem? table (vaddr / page_size) ≡ some pte
  pub permitted : w && pte.read_only ≡ false
  pub address : paddr ≡ pte.physical_page * page_size + vaddr % page_size
  pub in_memory : paddr < memory_size
  pub marked : table' ≡ set table (vaddr / page_size) (accessed pte w)

pub translate-Success :
    (table : PageTable) (vaddr : ℕ) (w : Bool) {paddr : ℕ} {table' : PageTable}
    → translate table vaddr w ≡ some (no_exception, paddr, table')
    → Success table vaddr w paddr table'
unfolding translate translate_entry
translate-Success table vaddr w {paddr} {table'} e =
    elim (Option-cases (get_elem? table (vaddr / page_size))) [
      | inl absent ↦ absurd (ground arith)
      | inr (pte, present) ↦ record {
        pte = pte;
        entry = present;
        permitted = ground arith;
        address = ground arith;
        in_memory = ground arith;
        marked = ground arith;
      }
    ]

-- `Translate` never meets its failed ASSERT: every address, table and mode has an answer.
pub translate-ne-none : (table : PageTable) (vaddr : ℕ) (w : Bool) → translate table vaddr w ≢ none
unfolding translate translate_entry
translate-ne-none table vaddr w e = ground arith

pub count-frames :
    (table : PageTable) (k : ℕ) {pte : TranslationEntry}
    → get_elem? table k ≡ some pte
    → 0 < count pte.physical_page (frames table)
unfolding count
count-frames [] k e = cc
count-frames (x ∷ xs) zero {pte} e = ground arith
count-frames (x ∷ xs) (suc k) {pte} e = ground (arith, count-frames xs k e)

-- Two pages on one frame count it twice.
count-frames_two :
    (table : PageTable) (j k : ℕ) {p q : TranslationEntry}
    → get_elem? table j ≡ some p
    → get_elem? table k ≡ some q
    → p.physical_page ≡ q.physical_page
    → j ≢ k
    → 1 < count p.physical_page (frames table)
unfolding count
count-frames_two [] j k e f h n = cc
count-frames_two (x ∷ xs) zero zero e f h n = absurd (n refl)
count-frames_two (x ∷ xs) zero (suc k) e f h n = ground (arith, count-frames xs k f)
count-frames_two (x ∷ xs) (suc j) zero e f h n = ground (arith, count-frames xs j e)
count-frames_two (x ∷ xs) (suc j) (suc k) e f h n =
    ground (arith, count-frames_two xs j k e f h (λ i. n (ap suc i)))

pub once_at_most :
    (s : System) (a : ℕ)
    → IsPartition s
    → count a s.frame_table.available.items + count a (lent s.spaces) ≤ 1
once_at_most s a p = ground (arith, p.once a)

-- In every reachable system, two live address spaces never translate to the same byte of memory.
pub Reach-isolation :
    {s : System} (before middle after : List PageTable) (table other t₁ t₂ : PageTable)
    (v₁ v₂ p₁ p₂ : ℕ) (w₁ w₂ : Bool)
    → Reach s
    → s.spaces ≡ before ++ table ∷ (middle ++ other ∷ after)
    → translate table v₁ w₁ ≡ some (no_exception, p₁, t₁)
    → translate other v₂ w₂ ≡ some (no_exception, p₂, t₂)
    → p₁ ≢ p₂
Reach-isolation {s} before middle after table other t₁ t₂ v₁ v₂ p₁ p₂ w₁ w₂ r here e₁ e₂ same =
    let part = Reach-IsPartition r in
    let x = translate-Success table v₁ w₁ e₁ in
    let y = translate-Success other v₂ w₂ e₂ in
    let f = x.pte.physical_page in
    let same_frame : f ≡ y.pte.physical_page = omega (arith, x.address, y.address, same) in
    let lower = count-frames other (v₂ / page_size) y.entry in
    omega (
      arith,
      count-frames table (v₁ / page_size) x.entry,
      subst (λ (a : ℕ). 0 < count a (frames other)) (sym same_frame) lower,
      once_at_most s f part,
      ap (λ ts. count f (lent ts)) here,
      count-lent f before (middle ++ other ∷ after) table,
      ap (λ ts. count f (lent ts)) (sym (append_assoc before middle (other ∷ after))),
      count-lent f (before ++ middle) after other,
    )

-- Within one live address space, two addresses never translate to the same byte of memory.
pub Reach-injective :
    {s : System} (before after : List PageTable) (table t₁ t₂ : PageTable) (v₁ v₂ p₁ p₂ : ℕ)
    (w₁ w₂ : Bool)
    → Reach s
    → s.spaces ≡ before ++ table ∷ after
    → translate table v₁ w₁ ≡ some (no_exception, p₁, t₁)
    → translate table v₂ w₂ ≡ some (no_exception, p₂, t₂)
    → v₁ ≢ v₂
    → p₁ ≢ p₂
Reach-injective {s} before after table t₁ t₂ v₁ v₂ p₁ p₂ w₁ w₂ r here e₁ e₂ differ same =
    let x = translate-Success table v₁ w₁ e₁ in
    let y = translate-Success table v₂ w₂ e₂ in
    let f = x.pte.physical_page in
    let same_frame : f ≡ y.pte.physical_page = omega (arith, x.address, y.address, same) in
    let same_offset : v₁ % page_size ≡ v₂ % page_size = omega (arith, x.address, y.address, same) in
    let apart : v₁ / page_size ≢ v₂ / page_size = (λ q. differ (omega (arith, q, same_offset))) in
    omega (
      arith,
      count-frames_two table (v₁ / page_size) (v₂ / page_size) x.entry y.entry same_frame apart,
      once_at_most s f (Reach-IsPartition r),
      ap (λ ts. count f (lent ts)) here,
      count-lent f before after table,
    )
