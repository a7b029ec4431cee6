-- ===== src/FileHeader/Built.antt =====
-- What FileHeader::Allocate has built, slot by slot.
use nthu_operating_system_er.Base.{
  ℕ, suc, ◌+◌, ◌-◌, ◌*◌, ◌≤◌, ◌<◌, ◌≡◌, refl, sym, subst, [], ◌∷◌, ◌++◌, some, arith, ◌⊎◌, inl, inr,
  length, length-append, dec_lt, ℕ_discrete,
}
use nthu_operating_system_er.Bitmap.{Bitmap, count_clear}
use nthu_operating_system_er.Bitmap.Marks.{IsBitmap}
use nthu_operating_system_er.FileHeader.{
  FileHeader, file_header, Slots, unused, leaf, node, additional, n_sectors, sector_size,
  child_bytes, allocate_slots, file_length,
}
use nthu_operating_system_er.FileHeader.Tree.{
  leaves, slot_leaves, used, slot_used, width, IsHeader, IsSlots, num_sectors_of-leaves,
}
use nthu_operating_system_er.FileHeader.Marking.{Marked, Marked-none, Marked-append}
use nthu_operating_system_er.FileHeader.Rounds.{allocate_slots_end}

-- What the loop needs from slot i on; `e` is 0 at the first slot and 1 behind it.
pub record Enough (fuel total i remain bytes s c : ℕ) : Type 0 where
  pub e : ℕ
  pub place : ((e ≡ 0) × (i ≡ 0) × (remain ≡ total)) ⊎ ((e ≡ 1) × 0 < i × remain < total)
  pub room : (i < n_sectors) ⊎ ((remain ≡ 0) × i ≤ n_sectors)
  pub rounds : 3 * remain + 1 + 2 * e ≤ fuel
  pub counter : 4 * remain + 1 + 2 * e ≤ s
  pub clears : 2 * remain + e ≤ c
  pub size : bytes ≤ remain * sector_size

-- The slots that the loop makes for `remain` of `total` sectors.
pub record BuiltSlots (b : Bitmap) (total current i remain : ℕ) (slots : Slots) (b' : Bitmap)
    : Type 0 where
  pub marked : Marked (slot_used slots) b b'
  pub shape : IsSlots slots (current + total - remain)
  pub all_leaves : length (slot_leaves slots) ≡ remain
  pub fits : width slots + i ≤ n_sectors
  pub cost :
      ((remain ≡ 0) × (length (slot_used slots) ≡ 0)) ⊎ length (slot_used slots) + 1 ≤ 2 * remain
  pub cost_whole : remain < total ⊎ total ≤ 1 ⊎ length (slot_used slots) + 2 ≤ 2 * total

-- A header with one data sector for each of its sectors, all taken from the free map.
pub record Built (b : Bitmap) (total current bytes : ℕ) (h : FileHeader) (b' : Bitmap)
    : Type 0 where
  pub marked : Marked (used h) b b'
  pub shape : IsHeader h current
  pub all_leaves : length (leaves h) ≡ total
  pub cost : ((total ≤ 1) × length (used h) ≤ total) ⊎ length (used h) + 2 ≤ 2 * total
  pub total_bytes : file_length h ≡ bytes

pub child_bytes-le : (p : ℕ → ℕ) (cur bytes : ℕ) → child_bytes p cur bytes ≤ cur * sector_size
child_bytes-le p cur bytes = ground arith

rest_bytes :
    (p : ℕ → ℕ) (cur remain bytes : ℕ)
    → bytes ≤ remain * sector_size
    → cur ≤ remain
    → bytes - child_bytes p cur bytes ≤ (remain - cur) * sector_size
rest_bytes p cur remain bytes h k = ground arith

module _ (p : ℕ → ℕ) where
  -- Behind a slot with `cur` sectors the loop has what it needs.
  pub later :
      (fuel total i remain bytes s c cur cost : ℕ)
      → Enough (suc fuel) total i remain bytes s c
      → 1 ≤ cur
      → cur ≤ remain
      → (i + 1 ≡ n_sectors → remain < total → cur ≡ remain)
      → cost + 1 ≤ 2 * cur
      → Enough fuel total
          (suc i)
          (remain - cur)
          (bytes - child_bytes p cur bytes)
          (s - 2 * cost)
          (c - cost)
  later fuel total i remain bytes s c cur cost n a b last k = record {
    e = 1;
    place = inr (refl, omega arith, elim n.place [ inl f ↦ omega arith | inr f ↦ omega arith ]);
    room = elim n.room [
      | inr none_left ↦ absurd (omega arith)
      | inl inside ↦ elim (ℕ_discrete (i + 1) n_sectors) [
        | no more ↦ inl (omega arith)
        | yes end ↦ elim n.place [
          | inl f ↦ absurd (omega arith)
          | inr f ↦ inr (omega (arith, last end f.2), omega arith)
        ]
      ]
    ];
    rounds = elim n.place [ inl f ↦ omega (arith, n.rounds) | inr f ↦ omega (arith, n.rounds) ];
    counter = elim n.place [ inl f ↦ omega (arith, n.counter) | inr f ↦ omega (arith, n.counter) ];
    clears = elim n.place [ inl f ↦ omega (arith, n.clears) | inr f ↦ omega (arith, n.clears) ];
    size = rest_bytes p cur remain bytes n.size b;
  }

  -- The last round.
  pub ended :
      (fuel : ℕ) (b : Bitmap) (total current i bytes s : ℕ)
      → IsBitmap b
      → Enough (suc fuel) total i 0 bytes s (count_clear b.num_bits 0 b.words)
      → (slots : Slots) × (b' : Bitmap) × (allocate_slots p (suc fuel) b total current i 0 bytes
          ≡ some (slots, b'))
        × BuiltSlots b total current i 0 slots b'
  unfolding slot_used slot_leaves IsSlots width
  ended fuel b total current i bytes s v n = (
    unused (current + total),
    b,
    allocate_slots_end p fuel b total current i bytes (omega (arith, n.size)),
    record {
      marked = Marked-none b v;
      shape = omega arith;
      all_leaves = refl;
      fits = elim n.room [ inl f ↦ omega arith | inr f ↦ omega arith ];
      cost = inl (refl, refl);
      cost_whole = elim (dec_lt 1 total) [
        | yes large ↦ inl (omega arith)
        | no small ↦ inr (inl (omega arith))
      ];
    },
  )

-- A leaf in front of the slots of the rest.
pub leaf-BuiltSlots :
    {b b₁ b₂ : Bitmap} (total current i remain sector : ℕ) (rest : Slots)
    → 1 ≤ remain
    → remain ≤ total
    → Marked (sector ∷ []) b b₁
    → BuiltSlots b₁ total current (suc i) (remain - 1) rest b₂
    → BuiltSlots b total current i remain (leaf (current + total - remain) sector rest) b₂
unfolding slot_used slot_leaves IsSlots width
leaf-BuiltSlots total current i remain sector rest r t m rest_built = record {
  marked = Marked-append (sector ∷ []) (slot_used rest) m rest_built.marked;
  shape = (refl, subst (IsSlots rest) (omega arith) rest_built.shape);
  all_leaves = omega (arith, rest_built.all_leaves);
  fits = omega (arith, rest_built.fits);
  cost = inr (elim rest_built.cost [ inl f ↦ omega arith | inr f ↦ omega arith ]);
  cost_whole = elim (dec_lt remain total) [
    | yes part ↦ inl part
    | no whole ↦ elim (dec_lt 1 total) [
      | no small ↦ inr (inl (omega arith))
      | yes large ↦ inr (inr (elim rest_built.cost [ inl f ↦ omega arith | inr f ↦ omega arith ]))
    ]
  ];
}

-- A child in front of the slots of the rest.
pub node-BuiltSlots :
    {b b₁ b₂ b₃ : Bitmap} (total current i remain sector cur bytes : ℕ) (child : FileHeader)
    (rest : Slots)
    → 2 ≤ cur
    → cur ≤ remain
    → cur < total
    → remain ≤ total
    → Marked (sector ∷ []) b b₁
    → Built b₁ cur (current + total - remain) bytes child b₂
    → BuiltSlots b₂ total current (suc i) (remain - cur) rest b₃
    → BuiltSlots b total current i remain (node (current + total - remain) sector child rest) b₃
unfolding slot_used slot_leaves IsSlots width
node-BuiltSlots total current i remain sector cur bytes child rest big within less t m child_built
      rest_built =
    let number = num_sectors_of-leaves child (current + total - remain) child_built.shape in
    record {
      marked =
          Marked-append (sector ∷ []) (used child ++ slot_used rest) m
            (Marked-append (used child) (slot_used rest) child_built.marked rest_built.marked);
      shape = (
        refl,
        child_built.shape,
        subst (IsSlots rest) (omega (arith, number, child_built.all_leaves)) rest_built.shape,
      );
      all_leaves = omega (
        arith,
        rest_built.all_leaves,
        child_built.all_leaves,
        length-append (leaves child) (slot_leaves rest),
      );
      fits = omega (arith, rest_built.fits);
      cost = inr (elim child_built.cost [
        | inl f ↦ absurd (omega arith)
        | inr f ↦ elim rest_built.cost [
          | inl g ↦ omega (arith, length-append (used child) (slot_used rest))
          | inr g ↦ omega (arith, length-append (used child) (slot_used rest))
        ]
      ]);
      cost_whole = elim (dec_lt remain total) [
        | yes part ↦ inl part
        | no whole ↦ inr (
            inr (elim child_built.cost [
              | inl f ↦ absurd (omega arith)
              | inr f ↦ elim rest_built.cost [
                | inl g ↦ absurd (omega arith)
                | inr g ↦ omega (arith, length-append (used child) (slot_used rest))
              ]
            ]))
      ];
    }

pub header-Built :
    {b b' : Bitmap} (total current bytes : ℕ) (slots : Slots)
    → BuiltSlots b total current 0 total slots b'
    → Built b total current bytes (file_header bytes total (1 + additional slots) slots) b'
unfolding used leaves IsHeader file_length
header-Built total current bytes slots built = record {
  marked = built.marked;
  shape = (
    sym built.all_leaves,
    refl,
    omega (arith, built.fits),
    subst (IsSlots slots) (omega arith) built.shape,
  );
  all_leaves = built.all_leaves;
  cost = elim built.cost_whole [
    | inl part ↦ absurd (omega arith)
    | inr (inl small) ↦ inl (small, elim built.cost [ inl f ↦ omega arith | inr f ↦ omega arith ])
    | inr (inr large) ↦ inr large
  ];
  total_bytes = refl;
}
