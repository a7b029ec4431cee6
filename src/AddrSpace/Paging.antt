-- ===== src/AddrSpace/Paging.antt =====
-- The address spaces of the kernel together: processes that load and exit share the frame table.
use nthu_operating_system_er.Base.{
  ℕ, zero, suc, ◌+◌, ◌/◌, ◌≤◌, ◌≡◌, refl, ap, Bool, true, List, [], ◌∷◌, ◌++◌, none, some, arith,
  ltb, if◌then◌else◌, length, count, count-append, get_elem?, set, Option-cases, inl, inr,
  count-nil, length-append, length-map,
}
use nthu_operating_system_er.AddrSpace.{
  TranslationEntry, PageTable, Memory, FrameTable, new_frame_table, allocate, release, page_size,
  num_phys_pages, ExceptionType, translate, translate_entry,
}
use nthu_operating_system_er.AddrSpace.Frames.{
  frames, allocate_lem, release_lem, new_frame_table_lem, count-range_from,
}

-- The page tables of the live address spaces, and the frame table that they share.
pub record System : Type 0 where
  pub frame_table : FrameTable
  pub spaces : List PageTable

abbrev pub lent : List PageTable → List ℕ
lent [] = []
lent (table ∷ tables) = frames table ++ lent tables

-- A process loads (and gets a table, or NULL), exits, or accesses its memory.
pub data Step (s : System) : System → Type 0 where
  load :
      (page_num : ℕ) (table : PageTable) (t : FrameTable)
      → allocate page_num s.frame_table ≡ some (some table, t)
      → Step s (record { frame_table = t; spaces = table ∷ s.spaces })
  refuse :
      (page_num : ℕ) (t : FrameTable)
      → allocate page_num s.frame_table ≡ some (none, t)
      → Step s (record s { frame_table = t })
  exit :
      (before after : List PageTable) (table : PageTable) (t : FrameTable)
      → s.spaces ≡ before ++ table ∷ after
      → release (some table) s.frame_table ≡ some t
      → Step s (record { frame_table = t; spaces = before ++ after })
  access :
      (before after : List PageTable) (table table' : PageTable) (vaddr : ℕ) (is_read_write : Bool)
      (ex : ExceptionType) (paddr : ℕ)
      → s.spaces ≡ before ++ table ∷ after
      → translate table vaddr is_read_write ≡ some (ex, paddr, table')
      → Step s (record s { spaces = before ++ table' ∷ after })

pub data Reach : System → Type 0 where
  boot :
      (memory : Memory) (t : FrameTable)
      → new_frame_table memory ≡ some t
      → Reach (record { frame_table = t; spaces = [] })
  next : {s s' : System} → Reach s → Step s s' → Reach s'

-- Every frame is free or in one page table, exactly once, and no other number is.
pub record IsPartition (s : System) : Type 0 where
  pub counted : s.frame_table.available.num_in_list ≡ length s.frame_table.available.items
  pub once :
      (a : ℕ)
      → count a s.frame_table.available.items + count a (lent s.spaces)
        ≡ (if ltb a num_phys_pages then 1 else 0)

pub count-lent :
    (a : ℕ) (before after : List PageTable) (table : PageTable)
    → count a (lent (before ++ table ∷ after))
      ≡ count a (frames table) + count a (lent (before ++ after))
count-lent a [] after table = count-append a (frames table) (lent after)
count-lent a (b ∷ before) after table = omega (
  arith,
  count-append a (frames b) (lent (before ++ table ∷ after)),
  count-append a (frames b) (lent (before ++ after)),
  count-lent a before after table,
)

frames-set :
    (table : PageTable) (k : ℕ) (pte pte' : TranslationEntry)
    → get_elem? table k ≡ some pte
    → pte'.physical_page ≡ pte.physical_page
    → frames (set table k pte') ≡ frames table
frames-set [] k pte pte' e h = refl
frames-set (x ∷ xs) zero pte pte' e h = ground arith
frames-set (x ∷ xs) (suc k) pte pte' e h =
    ap (λ r. x.physical_page ∷ r) (frames-set xs k pte pte' e h)

-- Translation changes the use and dirty bits alone.
pub translate-frames :
    (table table' : PageTable) (vaddr : ℕ) (w : Bool) (ex : ExceptionType) (paddr : ℕ)
    → translate table vaddr w ≡ some (ex, paddr, table')
    → frames table' ≡ frames table
unfolding translate translate_entry
translate-frames table table' vaddr w ex paddr e =
    elim (Option-cases (get_elem? table (vaddr / page_size))) [
      | inl absent ↦ ground arith
      | inr (pte, present) ↦
          let marked : TranslationEntry = record pte {
            in_use = true;
            dirty = if w then true else pte.dirty;
          } in
          ground (arith, frames-set table (vaddr / page_size) pte marked present refl)
    ]

-- The frames of a live table are distinct and none of them is free.
owned_once :
    (s : System) (before after : List PageTable) (table : PageTable)
    → IsPartition s
    → s.spaces ≡ before ++ table ∷ after
    → (a : ℕ) → count a (frames table) + count a s.frame_table.available.items ≤ 1
owned_once s before after table p here a =
    ground (arith, p.once a, ap (λ ts. count a (lent ts)) here, count-lent a before after table)

Step-IsPartition : {s s' : System} → Step s s' → IsPartition s → IsPartition s'
Step-IsPartition {s} (load n table t run) p = elim (allocate_lem n s.frame_table p.counted) [
  | inl (few, refused) ↦ cc
  | inr (table', t', ok, taken) ↦ record {
    counted = ground (arith, taken.counted);
    once = λ a. ground (
      arith,
      p.once a,
      ap (count a) taken.from_front,
      count-append a (frames table') t'.available.items,
      count-append a (frames table) (lent s.spaces),
    );
  }
]
Step-IsPartition {s} (refuse n t run) p = elim (allocate_lem n s.frame_table p.counted) [
  | inl (few, refused) ↦ record {
    counted = ground (arith, p.counted);
    once = λ a. ground (arith, p.once a);
  }
  | inr (table', t', ok, taken) ↦ cc
]
Step-IsPartition {s} (exit before after table t here run) p =
    let (t', ok, items, counted, _) =
      release_lem table s.frame_table p.counted (owned_once s before after table p here) in
    record {
      counted = ground (arith, counted);
      once = λ a. ground (
        arith,
        p.once a,
        ap (λ ts. count a (lent ts)) here,
        count-lent a before after table,
        ap (count a) items,
        count-append a s.frame_table.available.items (frames table),
      );
    }
Step-IsPartition {s} (access before after table table' vaddr w ex paddr here run) p = record {
  counted = p.counted;
  once = λ a. omega (
    arith,
    p.once a,
    ap (λ ts. count a (lent ts)) here,
    count-lent a before after table,
    count-lent a before after table',
    ap (count a) (translate-frames table table' vaddr w ex paddr run),
  );
}

boot-IsPartition :
    (memory : Memory) (t : FrameTable)
    → new_frame_table memory ≡ some t
    → IsPartition (record { frame_table = t; spaces = [] })
boot-IsPartition memory t run =
    let (t', ok, items, counted) = new_frame_table_lem memory in
    record {
      counted = ground (arith, counted);
      once =
          λ a. ground (arith, ap (count a) items, count-range_from a 0 num_phys_pages, count-nil a);
    }

-- In every system that a sequence of loads, refused loads, exits and memory accesses can reach from
-- boot, the count of free frames is right, and each of the NumPhysPages frames is either free or in
-- exactly one live page table, and once: none is lost, invented or shared.
pub Reach-IsPartition : {s : System} → Reach s → IsPartition s
Reach-IsPartition (boot memory t run) = boot-IsPartition memory t run
Reach-IsPartition (next r step) = Step-IsPartition step (Reach-IsPartition r)

-- In a reachable system an exiting process can always give its frames back: `Release` does not
-- meet a failed ASSERT, and the free frames grow by the size of its table.
pub Reach-release :
    {s : System} (before after : List PageTable) (table : PageTable)
    → Reach s
    → s.spaces ≡ before ++ table ∷ after
    → (t : FrameTable) × (release (some table) s.frame_table ≡ some t)
      × (t.available.num_in_list ≡ s.frame_table.available.num_in_list + length table)
Reach-release {s} before after table r here =
    let p = Reach-IsPartition r in
    let (t, ok, items, counted, _) =
      release_lem table s.frame_table p.counted (owned_once s before after table p here) in
    (
      t,
      ok,
      omega (
        arith,
        p.counted,
        counted,
        ap (length {A = ℕ}) items,
        length-append s.frame_table.available.items (frames table),
        length-map table (λ (e : TranslationEntry). e.physical_page),
      ),
    )
