-- ===== src/FileHeader/Release.antt =====
-- FileHeader::Deallocate, and Allocate followed by it.
use nthu_operating_system_er.Base.{
  ℕ, ◌+◌, ◌*◌, ◌≤◌, ◌<◌, ◌≡◌, refl, ◌∙◌, ap, Bool, true, false, List, [], ◌∷◌, ◌++◌, some, arith,
  ltb, if◌then◌else◌, length, length-append, count, count-append, count-cons, count-cons_self,
  count-nil, ◌⊎◌, inl, inr, pos, Distinct, dec_lt, ◌==◌, lt→ltb,
}
use nthu_operating_system_er.Bitmap.{Bitmap, bit_of, test, clear, count_clear, suc_ℤ}
use nthu_operating_system_er.Bitmap.Marks.{IsBitmap, mark-clear-Sets}
use nthu_operating_system_er.FileHeader.{
  FileHeader, file_header, Slots, unused, leaf, node, deallocate, deallocate_slots, allocate,
  sectors_for, n_sectors,
}
use nthu_operating_system_er.FileHeader.Tree.{
  leaves, slot_leaves, headers, slot_headers, used, slot_used, width, IsHeader,
}
use nthu_operating_system_er.FileHeader.Marking.{Marked}
use nthu_operating_system_er.FileHeader.Rounds.{IsPowerBelow}
use nthu_operating_system_er.FileHeader.Built.{Built}
use nthu_operating_system_er.FileHeader.Allocation.{allocate-Built}

-- The sectors are clear now, no other bit has changed, and the counter has grown by one for each.
pub record Released (sectors : List ℕ) (b b' : Bitmap) : Type 0 where
  pub valid : IsBitmap b'
  pub same_bits : b'.num_bits ≡ b.num_bits
  pub bits :
      (j : ℕ) → bit_of b'.words j ≡ (if ltb 0 (count j sectors) then false else bit_of b.words j)
  pub counter : (s : ℕ) → b.size ≡ pos s → b'.size ≡ pos (s + length sectors)

-- The sectors are distinct and marked.
pub record Held (sectors : List ℕ) (b : Bitmap) : Type 0 where
  pub distinct : Distinct sectors
  pub marked : (j : ℕ) → 0 < count j sectors → (bit_of b.words j ≡ true) × (j < b.num_bits)

Released-none : (b : Bitmap) → IsBitmap b → Released [] b b
unfolding count
Released-none b v = record {
  valid = v;
  same_bits = refl;
  bits = λ j. refl;
  counter = λ s e. e ∙ ap pos (omega arith);
}

pub Released-append :
    {b b₁ b₂ : Bitmap} (xs ys : List ℕ)
    → Released xs b b₁
    → Released ys b₁ b₂
    → Released (xs ++ ys) b b₂
Released-append xs ys m n = record {
  valid = n.valid;
  same_bits = n.same_bits ∙ m.same_bits;
  bits = λ j. ground (arith, m.bits j, n.bits j, count-append j xs ys);
  counter = λ s e.
      n.counter (s + length xs) (m.counter s e) ∙ ap pos (omega (arith, length-append xs ys));
}

pub Held-left : (xs ys : List ℕ) (b : Bitmap) → Held (xs ++ ys) b → Held xs b
Held-left xs ys b h = record {
  distinct = λ a. omega (arith, h.distinct a, count-append a xs ys);
  marked = λ j k. h.marked j (omega (arith, count-append j xs ys));
}

-- What is freed first is not held by the rest.
pub Held-right :
    (xs ys : List ℕ) (b b₁ : Bitmap) → Held (xs ++ ys) b → Released xs b b₁ → Held ys b₁
Held-right xs ys b b₁ h r = record {
  distinct = λ a. omega (arith, h.distinct a, count-append a xs ys);
  marked = λ j k.
      let (set, inside) = h.marked j (omega (arith, count-append j xs ys)) in
      let other : count j xs ≡ 0 = omega (arith, h.distinct j, count-append j xs ys) in
      (ground (arith, r.bits j, set, other), omega (arith, inside, r.same_bits));
}

count_single : (j k : ℕ) → count j (k ∷ []) ≡ (if k == j then 1 else 0)
unfolding count
count_single j k = ground arith

pub clear-Released :
    (b : Bitmap) (sector : ℕ)
    → IsBitmap b
    → Held (sector ∷ []) b
    → (test b sector ≡ some true)
      × (b' : Bitmap) × (clear b sector ≡ some b')
      × Released (sector ∷ []) b b'
unfolding test
clear-Released b sector v h =
    let (set, inside) = h.marked sector (ground (arith, count_single sector sector)) in
    let (b', run, sets, counter) = (mark-clear-Sets b sector v inside).1 in
    (
      rw (lt→ltb sector b.num_bits inside, set),
      b',
      run,
      record {
        valid = sets.valid;
        same_bits = sets.same_bits;
        bits = λ j. sets.bits j ∙ ground (arith, count_single j sector);
        counter = λ s e.
            counter
            ∙ ap (λ (m : Bool). if m then suc_ℤ b.size else b.size) set
            ∙ ap suc_ℤ e
            ∙ ap pos (omega arith);
      },
    )

mutual
  unfolding deallocate leaves

  -- On a header tree whose data sectors are distinct and marked, `Deallocate` does not abort, clears
  -- the data sectors, and changes no other bit of the map.
  pub deallocate-Released :
      (h : FileHeader) (b : Bitmap)
      → IsBitmap b
      → Held (leaves h) b
      → (b' : Bitmap) × (deallocate h b ≡ some b') × Released (leaves h) b b'
  deallocate-Released (file_header nb ns ad slots) b v held =
      deallocate_slots-Released slots b v held

  deallocate_slots-Released :
      (slots : Slots) (b : Bitmap)
      → IsBitmap b
      → Held (slot_leaves slots) b
      → (b' : Bitmap) × (deallocate_slots slots b ≡ some b') × Released (slot_leaves slots) b b'
  deallocate_slots-Released (unused start) b v held = (b, refl, Released-none b v)
  deallocate_slots-Released (leaf start sector rest) b v held =
      let (tested, b₁, run₁, released₁) =
        clear-Released b sector v (Held-left (sector ∷ []) (slot_leaves rest) b held) in
      let (b₂, run₂, released₂) =
        deallocate_slots-Released rest b₁ released₁.valid
          (Held-right (sector ∷ []) (slot_leaves rest) b b₁ held released₁) in
      (
        b₂,
        rw (tested, run₁, run₂),
        Released-append {b = b} {b₁ = b₁} {b₂ = b₂} (sector ∷ []) (slot_leaves rest) released₁
            released₂,
      )
  deallocate_slots-Released (node start sector child rest) b v held =
      let (b₁, run₁, released₁) =
        deallocate-Released child b v (Held-left (leaves child) (slot_leaves rest) b held) in
      let (b₂, run₂, released₂) =
        deallocate_slots-Released rest b₁ released₁.valid
          (Held-right (leaves child) (slot_leaves rest) b b₁ held released₁) in
      (
        b₂,
        rw (run₁, run₂),
        Released-append {b = b} {b₁ = b₁} {b₂ = b₂} (leaves child) (slot_leaves rest) released₁
            released₂,
      )

-- The sectors of a file are its data sectors and those of the headers below its own.
mutual
  unfolding used leaves headers

  pub count-used :
      (j : ℕ) (h : FileHeader) → count j (used h) ≡ count j (leaves h) + count j (headers h)
  count-used j (file_header nb ns ad slots) = count-slot_used j slots

  count-slot_used :
      (j : ℕ) (slots : Slots)
      → count j (slot_used slots) ≡ count j (slot_leaves slots) + count j (slot_headers slots)
  count-slot_used j (unused start) = omega (arith, count-nil j)
  count-slot_used j (leaf start sector rest) = omega (
    arith,
    count-slot_used j rest,
    count-cons j sector (slot_used rest),
    count-cons j sector (slot_leaves rest),
  )
  count-slot_used j (node start sector child rest) = omega (
    arith,
    count-used j child,
    count-slot_used j rest,
    count-cons j sector (used child ++ slot_used rest),
    count-cons j sector (headers child ++ slot_headers rest),
    count-append j (used child) (slot_used rest),
    count-append j (leaves child) (slot_leaves rest),
    count-append j (headers child) (slot_headers rest),
  )

mutual
  unfolding used leaves headers

  pub length-used : (h : FileHeader) → length (used h) ≡ length (leaves h) + length (headers h)
  length-used (file_header nb ns ad slots) = length-slot_used slots

  length-slot_used :
      (slots : Slots)
      → length (slot_used slots) ≡ length (slot_leaves slots) + length (slot_headers slots)
  length-slot_used (unused start) = refl
  length-slot_used (leaf start sector rest) = omega (arith, length-slot_used rest)
  length-slot_used (node start sector child rest) = omega (
    arith,
    length-used child,
    length-slot_used rest,
    length-append (used child) (slot_used rest),
    length-append (leaves child) (slot_leaves rest),
    length-append (headers child) (slot_headers rest),
  )

-- A header with more data sectors than slots has a header below it.
headers-present :
    (slots : Slots)
    → ((j : ℕ) × (0 < count j (slot_headers slots))) ⊎ (length (slot_leaves slots) ≡ width slots)
unfolding headers leaves width
headers-present (unused start) = inr refl
headers-present (leaf start sector rest) = elim (headers-present rest) [
  | inl found ↦ inl found
  | inr e ↦ inr (omega (arith, e))
]
headers-present (node start sector child rest) =
    inl (sector, omega (arith, count-cons_self sector (headers child ++ slot_headers rest)))

large-headers :
    (h : FileHeader) (current : ℕ)
    → IsHeader h current
    → n_sectors < length (leaves h)
    → (j : ℕ) × (0 < count j (headers h))
unfolding IsHeader headers leaves
large-headers (file_header nb ns ad slots) current v large = elim (headers-present slots) [
  | inl found ↦ found
  | inr e ↦ absurd (omega (arith, v.2))
]

-- The data sectors of a header that was built are held.
Built-Held :
    {b b' : Bitmap} (total current bytes : ℕ) (h : FileHeader)
    → Built b total current bytes h b'
    → Held (leaves h) b'
Built-Held total current bytes h built = record {
  distinct = λ a. omega (arith, built.marked.distinct a, count-used a h);
  marked = λ j k.
      let mine : 0 < count j (used h) = omega (arith, count-used j h) in
      (
        ground (arith, built.marked.bits j, mine),
        omega (arith, built.marked.in_range j mine, built.marked.same_bits),
      );
}

-- Under the conditions of `allocate-Built`, `Deallocate` of the header that `Allocate` has built does
-- not abort, and the map is then what it was before `Allocate`, but for the sectors of the headers
-- below the file's own, which were clear and stay marked; a file of more sectors than a header has
-- slots has such a header.
pub allocate-deallocate :
    (p : ℕ → ℕ)
    → IsPowerBelow p
    → (b : Bitmap) (file_size s : ℕ) → IsBitmap b
    → b.size ≡ pos s
    → 4 * sectors_for file_size < s
    → 2 * sectors_for file_size ≤ count_clear b.num_bits 0 b.words
    → (h : FileHeader) × (b₁ : Bitmap) × (b₂ : Bitmap) × (allocate p b file_size ≡ some (h, b₁))
      × (deallocate h b₁ ≡ some b₂)
      × ((j : ℕ)
          → bit_of b₂.words j ≡ (if ltb 0 (count j (headers h)) then true else bit_of b.words j))
      × ((j : ℕ) → 0 < count j (headers h) → bit_of b.words j ≡ false)
      × (n_sectors < sectors_for file_size → (j : ℕ) × (0 < count j (headers h)))
allocate-deallocate p power b file_size s v counter c₁ c₂ =
    let (h, b₁, run₁, _, _, built) = allocate-Built p power b file_size s v counter c₁ c₂ in
    let (b₂, run₂, released) =
      deallocate-Released h b₁ built.marked.valid
        (Built-Held {b = b} {b' = b₁} (sectors_for file_size) 0 file_size h built) in
    (
      h,
      b₁,
      b₂,
      run₁,
      run₂,
      λ j. restored b b₁ b₂ h j built.marked released,
      λ j k. built.marked.free j (omega (arith, count-used j h)),
      λ large. large-headers h 0 built.shape (omega (arith, large, built.all_leaves)),
    )
  where
    restored :
        (b b₁ b₂ : Bitmap) (h : FileHeader) (j : ℕ)
        → Marked (used h) b b₁
        → Released (leaves h) b₁ b₂
        → bit_of b₂.words j ≡ (if ltb 0 (count j (headers h)) then true else bit_of b.words j)
    restored b b₁ b₂ h j m r = elim (dec_lt 0 (count j (leaves h))) [
      | yes mine ↦
          ground (
            arith,
            m.free j (omega (arith, count-used j h)),
            r.bits j,
            m.distinct j,
            count-used j h,
          )
      | no other ↦ ground (arith, m.bits j, r.bits j, count-used j h)
    ]
