-- ===== src/AddrSpace/Frames.antt =====
-- FrameTable::Allocate and FrameTable::Release: which frames move, and that neither aborts.
use mathlib.Core.List.{append-nil, append_assoc}
use nthu_operating_system_er.Base.{
  ℕ, zero, suc, ◌+◌, ◌*◌, ◌/◌, ◌≤◌, ◌<◌, ◌≡◌, refl, sym, ◌∙◌, ap, List, [], ◌∷◌, ◌++◌, map, none,
  some, arith, ltb, if◌then◌else◌, ◌>>=◌, length, length-append, contains, count, count-append,
  count-cons, count-cons_self, contains-absent, Bool-cases, inl, inr, ◌==◌, ltb→lt, leb, ◌&&◌, ◌⊎◌,
  count-nil, count-cons_ne,
}
use nthu_operating_system_er.LinkedList
use nthu_operating_system_er.LinkedList.{LinkedList}
use nthu_operating_system_er.LinkedList.Contents.{remove_front_lem, append_lem}
use nthu_operating_system_er.AddrSpace.{
  TranslationEntry, PageTable, Memory, FrameTable, append_frames, new_frame_table, remain_size,
  allocate_pages, allocate, release_frames, release, fresh_entry, page_size, bzero, num_phys_pages,
}

abbrev pub frames : PageTable → List ℕ
frames = map λ e. e.physical_page

-- Entry k of the table is the fresh entry of page i + k.
abbrev pub IsFresh : ℕ → PageTable → Type 0
IsFresh i [] = Unit {0}
IsFresh i (e ∷ es) = (e ≡ fresh_entry i e.physical_page) × IsFresh (suc i) es

-- What an allocation of n pages, numbered from i on, takes from a frame table.
pub record Taken (n i : ℕ) (t : FrameTable) (table : PageTable) (t' : FrameTable) : Type 0 where
  pub from_front : frames table ++ t'.available.items ≡ t.available.items
  pub size : length table ≡ n
  pub fresh : IsFresh i table
  pub counted : t'.available.num_in_list ≡ length t'.available.items
  -- The frames taken are zero, the rest of the memory is as it was.
  pub zeroed :
      (a : ℕ) → t'.memory a ≡ (if contains (frames table) (a / page_size) then 0 else t.memory a)

-- bzero over one page clears the addresses of its frame.
bzero-frame :
    (memory : Memory) (f a : ℕ)
    → bzero memory (f * page_size) page_size a ≡ (if a / page_size == f then 0 else memory a)
unfolding bzero
bzero-frame memory f a = ground arith

allocate_pages-Taken :
    (n i : ℕ) (t : FrameTable)
    → n ≤ length t.available.items
    → t.available.num_in_list ≡ length t.available.items
    → (table : PageTable) × (t' : FrameTable) × (allocate_pages n i t ≡ some (table, t'))
      × Taken n i t table t'
unfolding allocate_pages contains
allocate_pages-Taken zero i t h c = (
  [],
  t,
  refl,
  record { from_front = refl; size = refl; fresh = tt; counted = c; zeroed = λ a. refl },
)
allocate_pages-Taken (suc n) i t h c =
    let (f, rest, removed, items, counted) = remove_front_lem t.available (omega arith) c in
    let cleared : FrameTable = record {
      available = rest;
      memory = bzero t.memory (f * page_size) page_size;
    } in
    let (table, t', run, taken) =
      allocate_pages-Taken n (suc i) cleared (omega (arith, ap (length {A = ℕ}) items)) counted in
    (
      fresh_entry i f ∷ table,
      t',
      rw (removed, ◌>>=◌, run),
      record {
        from_front = ap (λ xs. f ∷ xs) taken.from_front ∙ sym items;
        size = ap suc taken.size;
        fresh = (refl, taken.fresh);
        counted = taken.counted;
        zeroed = λ a. ground (arith, taken.zeroed a, bzero-frame t.memory f a);
      },
    )

-- With a count of free frames that is right, `Allocate` never aborts: if fewer frames are free than
-- pages are wanted it returns NULL and changes nothing; otherwise the table has the pages
-- 0 .. page_num - 1 in order, fresh, on the first free frames, exactly those are free no more, and
-- their bytes, and no others, are zeroed.
pub allocate_lem :
    (page_num : ℕ) (t : FrameTable)
    → t.available.num_in_list ≡ length t.available.items
    → (length t.available.items < page_num × (allocate page_num t ≡ some (none, t)))
      ⊎ ((table : PageTable) × (t' : FrameTable) × (allocate page_num t ≡ some (some table, t'))
          × Taken page_num 0 t table t')
unfolding allocate remain_size
allocate_lem n t c = elim (Bool-cases (ltb t.available.num_in_list n)) [
  | inl few ↦ inl (omega (arith, ltb→lt t.available.num_in_list n few, c), rw few)
  | inr enough ↦
      let (table, t', run, taken) = allocate_pages-Taken n 0 t (ground arith) c in
      inr (table, t', rw (enough, run), taken)
]

append-available :
    (l : LinkedList) (f : ℕ) (fs : List ℕ)
    → l.num_in_list ≡ length l.items
    → ((a : ℕ) → count a (f ∷ fs) + count a l.items ≤ 1)
    → LinkedList.append l f
      ≡ some (record { items = l.items ++ f ∷ []; num_in_list = l.num_in_list + 1 })
append-available l f fs c d =
    append_lem l f c ∙ rw (contains-absent f l.items (omega (arith, d f, count-cons_self f fs)))

-- The frames of a table that are not free go to the end of the free list, in order.
release_frames_lem :
    (es : List TranslationEntry) (l : LinkedList)
    → l.num_in_list ≡ length l.items
    → ((a : ℕ) → count a (frames es) + count a l.items ≤ 1)
    → (l' : LinkedList) × (release_frames es l ≡ some l')
      × (l'.items ≡ l.items ++ frames es)
      × (l'.num_in_list ≡ length l'.items)
unfolding release_frames
release_frames_lem [] l c d = (l, refl, sym (append-nil l.items), c)
release_frames_lem (e ∷ es) l c d =
    let f = e.physical_page in
    let l₁ : LinkedList = record { items = l.items ++ f ∷ []; num_in_list = l.num_in_list + 1 } in
    let (l', run, items, counted) =
      release_frames_lem es l₁ (omega (arith, c, length-append l.items (f ∷ [])))
        (λ a. omega (arith, d a, count-append a l.items (f ∷ []), count-cons a f (frames es))) in
    (
      l',
      rw (append-available l f (frames es) c d, ◌>>=◌, run),
      items ∙ append_assoc l.items (f ∷ []) (frames es),
      counted,
    )

-- Releasing a table whose frames are distinct and not free does not abort: the frames go to the
-- end of the free list, in the table's order, and the memory is as before.
pub release_lem :
    (table : PageTable) (t : FrameTable)
    → t.available.num_in_list ≡ length t.available.items
    → ((a : ℕ) → count a (frames table) + count a t.available.items ≤ 1)
    → (t' : FrameTable) × (release (some table) t ≡ some t')
      × (t'.available.items ≡ t.available.items ++ frames table)
      × (t'.available.num_in_list ≡ length t'.available.items)
      × (t'.memory ≡ t.memory)
unfolding release
release_lem table t c d =
    let (l', run, items, counted) = release_frames_lem table t.available c d in
    (record t { available = l' }, rw (run, ◌>>=◌), items, counted, refl)

-- The frames i, i + 1, … that the constructor appends, as a list.
abbrev pub range_from : ℕ → ℕ → List ℕ
range_from i zero = []
range_from i (suc n) = i ∷ range_from (suc i) n

pub count-range_from :
    (a i n : ℕ) → count a (range_from i n) ≡ (if leb i a && ltb a (i + n) then 1 else 0)
unfolding count
count-range_from a i zero = ground arith
count-range_from a i (suc n) = ground (arith, count-range_from a (suc i) n)

append_frames_lem :
    (n i : ℕ) (l : LinkedList)
    → l.num_in_list ≡ length l.items
    → ((a : ℕ) → i ≤ a → count a l.items ≡ 0)
    → (l' : LinkedList) × (append_frames n i l ≡ some l')
      × (l'.items ≡ l.items ++ range_from i n)
      × (l'.num_in_list ≡ length l'.items)
unfolding append_frames
append_frames_lem zero i l c d = (l, refl, sym (append-nil l.items), c)
append_frames_lem (suc n) i l c d =
    let l₁ : LinkedList = record { items = l.items ++ i ∷ []; num_in_list = l.num_in_list + 1 } in
    let (l', run, items, counted) =
      append_frames_lem n (suc i) l₁ (omega (arith, c, length-append l.items (i ∷ []))) (λ a h.
        omega (
          arith,
          d a (omega arith),
          count-append a l.items (i ∷ []),
          count-cons_ne a i [] (λ e. omega (arith, e)),
          count-nil a,
        )) in
    (
      l',
      rw (append_lem l i c, contains-absent i l.items (d i (omega arith)), ◌>>=◌, run),
      items ∙ append_assoc l.items (i ∷ []) (range_from (suc i) n),
      counted,
    )

-- The constructor does not abort, and makes the frames 0 .. NumPhysPages - 1 free, in order.
pub new_frame_table_lem :
    (memory : Memory)
    → (t : FrameTable) × (new_frame_table memory ≡ some t)
      × (t.available.items ≡ range_from 0 num_phys_pages)
      × (t.available.num_in_list ≡ length t.available.items)
unfolding new_frame_table
new_frame_table_lem memory =
    let (l', run, items, counted) =
      append_frames_lem num_phys_pages 0 LinkedList.empty refl (λ a h. count-nil a) in
    (record { available = l'; memory = memory }, rw (run, ◌>>=◌), items, counted)
