-- ===== src/AddrSpace/Load/Segments.antt =====
-- What the load of one segment does to the memory.
use nthu_operating_system_er.Base.{
  ℕ, zero, suc, ◌+◌, ◌*◌, ◌/◌, ◌%◌, ◌-◌, ◌≤◌, ◌<◌, ◌≡◌, ◌≢◌, refl, sym, ap, subst, ◌∙◌, Bool, true,
  false, List, [], ◌∷◌, some, arith, ltb, leb, ◌&&◌, if◌then◌else◌, assert, >>=-eq-some, length,
  count, contains, get_elem?, get_or, Distinct, Bool-cases, ltb→lt, ==_iff, contains-count, ◌==◌,
  inl, inr,
}
use nthu_operating_system_er.AddrSpace.{
  TranslationEntry, PageTable, Memory, page_size, ExceptionType, no_exception, read_only_exception,
  bus_error_exception, address_error_exception, translate,
}
use nthu_operating_system_er.AddrSpace.Frames.{frames}
use nthu_operating_system_er.AddrSpace.Paging.{translate-frames}
use nthu_operating_system_er.AddrSpace.Translation.{translate-Success}
use nthu_operating_system_er.AddrSpace.Load.{Segment, read_at, load_pages, is_no_exception}

-- The byte of memory at a virtual address, by the frames of a page table.
abbrev pub physical : List ℕ → ℕ → ℕ
physical fs v = get_or fs (v / page_size) 0 * page_size + v % page_size

get_or-frames :
    (table : PageTable) (k : ℕ) {pte : TranslationEntry}
    → get_elem? table k ≡ some pte
    → (get_or (frames table) k 0 ≡ pte.physical_page) × (k < length (frames table))
get_or-frames [] k e = absurd (cc e)
get_or-frames (x ∷ xs) zero e = ground arith
get_or-frames (x ∷ xs) (suc k) e = ground (arith, get_or-frames xs k e)

count-get_or : (fs : List ℕ) (k : ℕ) → k < length fs → 0 < count (get_or fs k 0) fs
unfolding count
count-get_or [] k h = absurd (omega arith)
count-get_or (x ∷ xs) zero h = ground arith
count-get_or (x ∷ xs) (suc k) h = ground (arith, count-get_or xs k)

-- Distinct frames stand at one place each.
get_or-Distinct :
    (fs : List ℕ) (j k : ℕ)
    → Distinct fs
    → j < length fs
    → k < length fs
    → get_or fs j 0 ≡ get_or fs k 0
    → j ≡ k
unfolding count
get_or-Distinct [] j k d h₁ h₂ e = absurd (omega arith)
get_or-Distinct (x ∷ xs) zero zero d h₁ h₂ e = refl
get_or-Distinct (x ∷ xs) zero (suc k) d h₁ h₂ e = ground (arith, d x, count-get_or xs k)
get_or-Distinct (x ∷ xs) (suc j) zero d h₁ h₂ e = ground (arith, d x, count-get_or xs j)
get_or-Distinct (x ∷ xs) (suc j) (suc k) d h₁ h₂ e =
    ap suc (get_or-Distinct xs j k (λ a. ground (arith, d a)) (omega arith) (omega arith) e)

-- What the rounds from `offset` on did, over the frames `fs`.
pub record Loaded (content : ℕ → ℕ) (seg : Segment) (offset : ℕ) (fs : List ℕ)
    (memory memory' : Memory) : Type 0 where
  pub bytes :
      (k : ℕ)
      → offset ≤ k
      → k < seg.size
      → (memory' (physical fs (seg.virtual_addr + k)) ≡ content (seg.in_file_addr + k))
        × ((seg.virtual_addr + k) / page_size < length fs)
  pub before :
      (v : ℕ)
      → v < seg.virtual_addr + offset
      → v / page_size < length fs
      → memory' (physical fs v) ≡ memory (physical fs v)
  pub after :
      (v : ℕ)
      → seg.virtual_addr + seg.size ≤ v
      → v / page_size < length fs
      → memory' (physical fs v) ≡ memory (physical fs v)
  pub elsewhere : (a : ℕ) → contains fs (a / page_size) ≡ false → memory' a ≡ memory a

offset_in_page :
    (f start v : ℕ)
    → start % page_size ≡ 0
    → v / page_size ≡ start / page_size
    → f * page_size + v % page_size - (f * page_size + start % page_size) ≡ v - start
offset_in_page f start v aligned page = omega arith

-- One aligned read changes the first `to_load` bytes of its page.
read_at-physical :
    (content : ℕ → ℕ) (fs : List ℕ) (start to_load position v : ℕ) (memory : Memory)
    → Distinct fs
    → start % page_size ≡ 0
    → start / page_size < length fs
    → v / page_size < length fs
    → to_load ≤ page_size
    → read_at content (physical fs start) to_load position memory (physical fs v) ≡ (
        if leb start v && ltb v (start + to_load)
        then content (position + (v - start))
        else memory (physical fs v))
unfolding read_at
read_at-physical content fs start to_load position v memory d aligned hs hv small =
    elim (Bool-cases (v / page_size == start / page_size)) [
      | inl same ↦
          let page = (==_iff (v / page_size) (start / page_size)).0 same in
          ground (
            arith,
            page,
            aligned,
            ap (λ k. get_or fs k 0) page,
            ap (λ k. content (position + k))
                (offset_in_page (get_or fs (start / page_size) 0) start v aligned page),
          )
      | inr other ↦
          let apart : get_or fs (v / page_size) 0 ≢ get_or fs (start / page_size) 0 = (λ q. cc (
            other,
            (==_iff (v / page_size) (start / page_size)).1
                (get_or-Distinct fs (v / page_size) (start / page_size) d hv hs q),
          )) in
          ground (arith, apart, aligned)
    ]

read_at-elsewhere :
    (content : ℕ → ℕ) (fs : List ℕ) (start to_load position a : ℕ) (memory : Memory)
    → start % page_size ≡ 0
    → start / page_size < length fs
    → to_load ≤ page_size
    → contains fs (a / page_size) ≡ false
    → read_at content (physical fs start) to_load position memory a ≡ memory a
unfolding read_at
read_at-elsewhere content fs start to_load position a memory aligned hs small absent =
    ground (arith, contains-count (a / page_size) fs absent, count-get_or fs (start / page_size) hs)

abbrev pub chunk : Segment → ℕ → ℕ
chunk seg offset = if ltb (offset + page_size) seg.size then page_size else seg.size - offset

no_exception-of_assert :
    (ex : ExceptionType) (u : Unit {0}) → assert (is_no_exception ex) ≡ some u → ex ≡ no_exception
no_exception-of_assert no_exception u e = refl
no_exception-of_assert read_only_exception u e = cc
no_exception-of_assert bus_error_exception u e = cc
no_exception-of_assert address_error_exception u e = cc

-- One round that did not abort: the page is in the table, and its chunk is read into its frame.
pub load_round :
    (content : ℕ → ℕ) (w : Bool) (seg : Segment) (fuel offset : ℕ) (table table' : PageTable)
    (memory memory' : Memory)
    → ltb offset seg.size ≡ true
    → load_pages content w seg (suc fuel) offset table memory ≡ some (table', memory')
    → (next : PageTable) × (frames next ≡ frames table)
      × ((seg.virtual_addr + offset) / page_size < length (frames table))
      × (load_pages content w seg fuel (offset + page_size) next (
            read_at content
              (physical (frames table) (seg.virtual_addr + offset))
              (chunk seg offset)
              (seg.in_file_addr + offset)
              memory)
          ≡ some (table', memory'))
unfolding load_pages
load_round content w seg fuel offset table table' memory memory' more e =
    let v = seg.virtual_addr + offset in
    let (r, translated, rest) = >>=-eq-some (translate table v w) _ (rw (more, load_pages) at e) in
    let (u, fine, run) = >>=-eq-some (assert (is_no_exception r.0)) _ rest in
    let accepted : translate table v w ≡ some (no_exception, r.1, r.2) =
      translated ∙ ap (λ ex. some (ex, r.1, r.2)) (no_exception-of_assert r.0 u fine) in
    let s = translate-Success table v w accepted in
    let (frame, inside) = get_or-frames table (v / page_size) s.entry in
    let address : r.1 ≡ physical (frames table) v = omega (arith, s.address, frame) in
    (
      r.2,
      translate-frames table r.2 v w r.0 r.1 translated,
      inside,
      subst
          (λ (paddr : ℕ).
            load_pages content w seg fuel (offset + page_size) r.2
              (read_at content paddr (chunk seg offset) (seg.in_file_addr + offset) memory)
            ≡ some (table', memory'))
          address run,
    )

-- A round and the rounds behind it.
Loaded-round :
    (content : ℕ → ℕ) (seg : Segment) (offset : ℕ) (fs : List ℕ) (memory memory' : Memory)
    → Distinct fs
    → seg.virtual_addr % page_size ≡ 0
    → offset % page_size ≡ 0
    → offset < seg.size
    → (seg.virtual_addr + offset) / page_size < length fs
    → Loaded content seg
        (offset + page_size)
        fs
        (read_at content
          (physical fs (seg.virtual_addr + offset))
          (chunk seg offset)
          (seg.in_file_addr + offset)
          memory)
        memory'
    → Loaded content seg offset fs memory memory'
Loaded-round content seg offset fs memory memory' d av ao more inside rest =
    let start = seg.virtual_addr + offset in
    let aligned : start % page_size ≡ 0 = omega arith in
    let small : chunk seg offset ≤ page_size = ground arith in
    let read = λ (v : ℕ) (h : v / page_size < length fs).
      read_at-physical content fs start (chunk seg offset) (seg.in_file_addr + offset) v memory d
        aligned inside h small in
    record {
      bytes = λ k h₁ h₂. elim (Bool-cases (leb (offset + page_size) k)) [
        | inl later ↦ rest.bytes k (ground arith) h₂
        | inr now ↦
            let page : (seg.virtual_addr + k) / page_size < length fs = ground arith in
            let position : seg.in_file_addr + offset + (seg.virtual_addr + k - start)
                ≡ seg.in_file_addr + k =
              omega arith in
            (
              ground (
                arith,
                rest.before (seg.virtual_addr + k) (ground arith) page,
                read (seg.virtual_addr + k) page,
                ap content position,
              ),
              page,
            )
      ];
      before = λ v h₁ h₂. ground (arith, rest.before v (omega arith) h₂, read v h₂);
      after = λ v h₁ h₂. ground (arith, rest.after v h₁ h₂, read v h₂);
      elsewhere = λ a h. ground (
        arith,
        rest.elsewhere a h,
        read_at-elsewhere content fs start (chunk seg offset) (seg.in_file_addr + offset) a memory
            aligned inside small h,
      );
    }

pub load_pages-Loaded :
    (content : ℕ → ℕ) (w : Bool) (seg : Segment) (fuel offset : ℕ) (table table' : PageTable)
    (memory memory' : Memory)
    → Distinct (frames table)
    → seg.virtual_addr % page_size ≡ 0
    → offset % page_size ≡ 0
    → load_pages content w seg fuel offset table memory ≡ some (table', memory')
    → (frames table' ≡ frames table) × Loaded content seg offset (frames table) memory memory'
unfolding load_pages
load_pages-Loaded content w seg zero offset table table' memory memory' d av ao e = absurd (cc e)
load_pages-Loaded content w seg (suc fuel) offset table table' memory memory' d av ao e =
    elim (Bool-cases (ltb offset seg.size)) [
      | inl more ↦
          let (next, kept, inside, run) =
            load_round content w seg fuel offset table table' memory memory' more e in
          let (kept', rest) =
            load_pages-Loaded content w seg fuel (offset + page_size) next table' _ memory'
              (subst Distinct (sym kept) d) av (omega arith) run in
          (
            kept' ∙ kept,
            Loaded-round content seg offset (frames table) memory memory' d av ao
                (ltb→lt offset seg.size more) inside
                (subst
                  (λ gs.
                    Loaded content seg (offset + page_size) gs
                      (read_at content (physical (frames table) (seg.virtual_addr + offset))
                        (chunk seg offset) (seg.in_file_addr + offset) memory)
                      memory')
                  kept rest),
          )
      | inr done ↦ (
        ground arith,
        record {
          bytes = λ k h₁ h₂. absurd (ground arith);
          before = λ v h₁ h₂. ground arith;
          after = λ v h₁ h₂. ground arith;
          elsewhere = λ a h. ground arith;
        },
      )
    ]
