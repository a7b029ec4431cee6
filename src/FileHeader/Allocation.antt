-- ===== src/FileHeader/Allocation.antt =====
-- FileHeader::Allocate ends, and builds a tree with a data sector for each sector of the file.
use nthu_operating_system_er.Base.{
  ℕ, zero, suc, ◌+◌, ◌-◌, ◌*◌, ◌≤◌, ◌<◌, ◌≡◌, refl, sym, ◌∙◌, ap, subst, true, [], ◌∷◌, some, arith,
  ltb_ℤ, ◌⊎◌, inl, inr, length, ℕ_discrete, pos,
}
use nthu_operating_system_er.Bitmap.{Bitmap, find_and_set, num_clear, count_clear}
use nthu_operating_system_er.Bitmap.Marks.{IsBitmap}
use nthu_operating_system_er.FileHeader.{
  FileHeader, file_header, Slots, leaf, node, additional, n_sectors, sector_size, child_sectors,
  child_bytes, allocate_header, allocate_slots, allocate, sectors_for,
}
use nthu_operating_system_er.FileHeader.Tree.{used}
use nthu_operating_system_er.FileHeader.Marking.{Marked, find_and_set-Marked}
use nthu_operating_system_er.FileHeader.Built.{
  Enough, BuiltSlots, Built, later, ended, leaf-BuiltSlots, node-BuiltSlots, header-Built,
  child_bytes-le,
}
use nthu_operating_system_er.FileHeader.Rounds.{
  IsPowerBelow, child_sectors_bounds, child_sectors_last, allocate_header_run, allocate_slots_leaf,
  allocate_slots_node,
}

-- What the two recursive calls are shown to do on this much fuel.
abbrev SlotsRun : (ℕ → ℕ) → ℕ → Bitmap → (total current i remain bytes : ℕ) → Type 0
SlotsRun p fuel b total current i remain bytes =
    (slots : Slots) × (b' : Bitmap) × (allocate_slots p fuel b total current i remain bytes
      ≡ some (slots, b'))
    × BuiltSlots b total current i remain slots b'

abbrev HeaderRun : (ℕ → ℕ) → ℕ → Bitmap → (total current bytes : ℕ) → Type 0
HeaderRun p fuel b total current bytes =
    (h : FileHeader) × (b' : Bitmap) × (allocate_header p fuel b total current bytes ≡ some (h, b'))
    × Built b total current bytes h b'

abbrev SlotsTotal : (ℕ → ℕ) → ℕ → Type 0
SlotsTotal p fuel =
    (b : Bitmap) (total current i remain bytes s : ℕ)
    → IsBitmap b
    → b.size ≡ pos s
    → Enough fuel total i remain bytes s (count_clear b.num_bits 0 b.words)
    → SlotsRun p fuel b total current i remain bytes

abbrev HeaderTotal : (ℕ → ℕ) → ℕ → Type 0
HeaderTotal p fuel =
    (b : Bitmap) (total current bytes s : ℕ)
    → IsBitmap b
    → b.size ≡ pos s
    → 4 * total + 1 ≤ s
    → 2 * total ≤ count_clear b.num_bits 0 b.words
    → 3 * total + 2 ≤ fuel
    → bytes ≤ total * sector_size
    → HeaderRun p fuel b total current bytes

enough_space :
    (b : Bitmap) (total s : ℕ) → b.size ≡ pos s → total < s → ltb_ℤ (pos total) (num_clear b) ≡ true
unfolding num_clear
enough_space b total s e h = rw e (ground arith)

-- A call of Allocate has enough for its loop.
first_slot :
    (fuel total bytes s c : ℕ)
    → 4 * total + 1 ≤ s
    → 2 * total ≤ c
    → 3 * total + 1 ≤ fuel
    → bytes ≤ total * sector_size
    → Enough fuel total 0 total bytes s c
first_slot fuel total bytes s c c₁ c₂ c₃ c₄ = record {
  e = 0;
  place = inl (refl, refl, refl);
  room = inl (omega arith);
  rounds = omega arith;
  counter = omega arith;
  clears = omega arith;
  size = c₄;
}

header_step : (p : ℕ → ℕ) (fuel : ℕ) → SlotsTotal p fuel → HeaderTotal p (suc fuel)
header_step p fuel slots_rec b total current bytes s v counter c₁ c₂ c₃ c₄ =
    let (slots, b', run, built) =
      slots_rec b total current 0 total bytes s v counter
        (first_slot fuel total bytes s (count_clear b.num_bits 0 b.words) c₁ c₂ (omega arith) c₄) in
    (
      file_header bytes total (1 + additional slots) slots,
      b',
      allocate_header_run p fuel b total current bytes slots b'
          (enough_space b total s counter (omega arith)) run,
      header-Built total current bytes slots built,
    )

-- What a round of the loop has found: a sector, for slot i.
record Round (p : ℕ → ℕ) (b : Bitmap) (total i remain s sector : ℕ) (b₁ : Bitmap) : Type 0 where
  found : find_and_set b ≡ some (some sector, b₁)
  marked : Marked (sector ∷ []) b b₁
  counter : b₁.size ≡ pos (s - 2)
  some_left : 1 ≤ remain
  within : remain ≤ total
  inside : i < n_sectors
  low : 1 ≤ child_sectors p i remain total
  high : child_sectors p i remain total ≤ remain
  kind : (child_sectors p i remain total ≡ 1) ⊎ (child_sectors p i remain total < total)
  last : i + 1 ≡ n_sectors → remain < total → child_sectors p i remain total ≡ remain

module _ (p : ℕ → ℕ) (power : IsPowerBelow p) (fuel : ℕ) where
  round :
      (b : Bitmap) (total i remain bytes s : ℕ)
      → IsBitmap b
      → b.size ≡ pos s
      → 1 ≤ remain
      → Enough (suc fuel) total i remain bytes s (count_clear b.num_bits 0 b.words)
      → (sector : ℕ) × (b₁ : Bitmap) × Round p b total i remain s sector b₁
  round b total i remain bytes s v counter some_left n =
      let within : remain ≤ total = elim n.place [ inl f ↦ omega arith | inr f ↦ omega arith ] in
      let at : (i ≡ 0) ⊎ remain < total = elim n.place [ inl f ↦ inl f.1 | inr f ↦ inr f.2 ] in
      let bounds = child_sectors_bounds p power i remain total some_left within at in
      let (sector, b₁, found, m) =
        find_and_set-Marked b (s - 1) v (counter ∙ ap pos (omega (arith, n.counter)))
          (omega (arith, n.clears)) in
      (
        sector,
        b₁,
        record {
          found = found;
          marked = m;
          counter = m.counter (s - 2) (counter ∙ ap pos (omega (arith, n.counter)));
          some_left = some_left;
          within = within;
          inside = elim n.room [ inl f ↦ f | inr f ↦ absurd (omega arith) ];
          low = bounds.0;
          high = bounds.1;
          kind = bounds.2;
          last = child_sectors_last p power i remain total;
        },
      )

  module _ (b : Bitmap) (total current i remain bytes s sector : ℕ) (b₁ : Bitmap)
      (n : Enough (suc fuel) total i remain bytes s (count_clear b.num_bits 0 b.words))
      (r : Round p b total i remain s sector b₁) where
    leaf-Enough :
        child_sectors p i remain total ≡ 1
        → Enough fuel total
            (suc i)
            (remain - 1)
            (bytes - child_bytes p 1 bytes)
            (s - 2)
            (count_clear b₁.num_bits 0 b₁.words)
    leaf-Enough one =
        subst
          (λ (c : ℕ).
            Enough fuel total (suc i) (remain - 1) (bytes - child_bytes p 1 bytes) (s - 2) c)
          (omega (arith, r.marked.clears))
          (later p fuel total i remain bytes s (count_clear b.num_bits 0 b.words) 1 1 n
            (omega arith) (omega (arith, r.some_left)) (λ q h. sym one ∙ r.last q h) (omega arith))

    leaf_round :
        SlotsTotal p fuel
        → child_sectors p i remain total ≡ 1
        → SlotsRun p (suc fuel) b total current i remain bytes
    leaf_round slots_rec one =
        let (rest, b₂, run, built) =
          slots_rec b₁ total current (suc i) (remain - 1) (bytes - child_bytes p 1 bytes) (s - 2)
            r.marked.valid r.counter (leaf-Enough one) in
        (
          leaf (current + total - remain) sector rest,
          b₂,
          allocate_slots_leaf p fuel b total current i remain bytes sector b₁ r.some_left r.inside
              r.found rest b₂ one run,
          leaf-BuiltSlots {b = b} {b₁ = b₁} {b₂ = b₂} total current i remain sector rest r.some_left
              r.within r.marked built,
        )

    child_run :
        HeaderTotal p fuel
        → child_sectors p i remain total < total
        → 2 ≤ child_sectors p i remain total
        → HeaderRun p fuel b₁
            (child_sectors p i remain total)
            (current + total - remain)
            (child_bytes p (child_sectors p i remain total) bytes)
    child_run header_rec less big =
        header_rec b₁ (child_sectors p i remain total) (current + total - remain)
          (child_bytes p (child_sectors p i remain total) bytes) (s - 2) r.marked.valid r.counter
          (elim n.place [
            | inl f ↦ omega (arith, n.counter, r.high)
            | inr f ↦ omega (arith, n.counter, r.high)
          ])
          (elim n.place [
            | inl f ↦ omega (arith, n.clears, r.marked.clears, r.high)
            | inr f ↦ omega (arith, n.clears, r.marked.clears, r.high)
          ])
          (elim n.place [
            | inl f ↦ omega (arith, n.rounds, r.high)
            | inr f ↦ omega (arith, n.rounds, r.high)
          ])
          (child_bytes-le p (child_sectors p i remain total) bytes)

    module _ (cur : ℕ) (share : child_sectors p i remain total ≡ cur) (less : cur < total)
        (big : 2 ≤ cur) (child : FileHeader) (b₂ : Bitmap)
        (built : Built b₁ cur (current + total - remain) (child_bytes p cur bytes) child b₂) where
      cheap : length (used child) + 2 ≤ 2 * cur
      cheap = elim built.cost [ inl f ↦ absurd (omega arith) | inr f ↦ f ]

      affordable : 2 * (1 + length (used child)) ≤ s
      affordable = elim n.place [
        | inl f ↦ omega (arith, n.counter, cheap, r.high, share)
        | inr f ↦ omega (arith, n.counter, cheap, r.high, share)
      ]

      node_counter : b₂.size ≡ pos (s - 2 * (1 + length (used child)))
      node_counter =
          built.marked.counter (s - 2 * (1 + length (used child)))
            (r.counter ∙ ap pos (omega (arith, affordable)))

      node-Enough :
          Enough fuel total
            (suc i)
            (remain - cur)
            (bytes - child_bytes p cur bytes)
            (s - 2 * (1 + length (used child)))
            (count_clear b₂.num_bits 0 b₂.words)
      node-Enough =
          subst
            (λ (c : ℕ).
              Enough fuel total (suc i) (remain - cur) (bytes - child_bytes p cur bytes)
                (s - 2 * (1 + length (used child))) c)
            (omega (arith, r.marked.clears, built.marked.clears))
            (later p fuel total i remain bytes s (count_clear b.num_bits 0 b.words) cur
              (1 + length (used child)) n (omega (arith, big)) (omega (arith, r.high, share))
              (λ q h. sym share ∙ r.last q h) (omega (arith, cheap)))

      node_round :
          SlotsTotal p fuel
          → allocate_header p fuel b₁ cur (current + total - remain) (child_bytes p cur bytes)
            ≡ some (child, b₂)
          → SlotsRun p (suc fuel) b total current i remain bytes
      node_round slots_rec child_runs =
          let (rest, b₃, run, rest_built) =
            slots_rec b₂ total current (suc i) (remain - cur) (bytes - child_bytes p cur bytes)
              (s - 2 * (1 + length (used child))) built.marked.valid node_counter node-Enough in
          (
            node (current + total - remain) sector child rest,
            b₃,
            allocate_slots_node p fuel b total current i remain bytes sector b₁ r.some_left r.inside
                r.found cur child rest b₂ b₃ share big child_runs run,
            node-BuiltSlots {b = b} {b₁ = b₁} {b₂ = b₂} {b₃ = b₃} total current i remain sector cur
                (child_bytes p cur bytes) child rest big (omega (arith, r.high, share)) less
                r.within r.marked built rest_built,
          )

    slots_round :
        HeaderTotal p fuel
        → SlotsTotal p fuel
        → SlotsRun p (suc fuel) b total current i remain bytes
    slots_round header_rec slots_rec = elim (ℕ_discrete (child_sectors p i remain total) 1) [
      | yes one ↦ leaf_round slots_rec one
      | no more ↦
          let less : child_sectors p i remain total < total = elim r.kind [
            | inl one ↦ absurd (more one)
            | inr f ↦ f
          ] in
          let big : 2 ≤ child_sectors p i remain total = omega (arith, r.low, more) in
          let (child, b₂, run, built) = child_run header_rec less big in
          node_round (child_sectors p i remain total) refl less big child b₂ built slots_rec run
    ]

  slots_step : HeaderTotal p fuel → SlotsTotal p fuel → SlotsTotal p (suc fuel)
  slots_step header_rec slots_rec b total current i zero bytes s v counter n =
      ended p fuel b total current i bytes s v n
  slots_step header_rec slots_rec b total current i (suc k) bytes s v counter n =
      let (sector, b₁, r) = round b total i (suc k) bytes s v counter (omega arith) n in
      slots_round b total current i (suc k) bytes s sector b₁ n r header_rec slots_rec

module _ (p : ℕ → ℕ) (power : IsPowerBelow p) where
  -- Both recursions end.
  header-SlotsTotal : (fuel : ℕ) → HeaderTotal p fuel × SlotsTotal p fuel
  header-SlotsTotal zero = (
    λ b total current bytes s v counter c₁ c₂ c₃ c₄. absurd (omega arith),
    λ b total current i remain bytes s v counter n. absurd (omega (arith, n.rounds)),
  )
  header-SlotsTotal (suc fuel) =
      let (header_rec, slots_rec) = header-SlotsTotal fuel in
      (header_step p fuel slots_rec, slots_step p power fuel header_rec slots_rec)

  sectors_for-enough : (bytes : ℕ) → bytes ≤ sectors_for bytes * sector_size
  unfolding sectors_for
  sectors_for-enough bytes = ground arith

  sectors_for-needed : (bytes : ℕ) → sectors_for bytes * sector_size < bytes + sector_size
  unfolding sectors_for
  sectors_for-needed bytes = ground arith

  -- On a well-formed map of free sectors with twice as many clear bits as the file has sectors, and
  -- the counter above four times that number, `Allocate` does not abort: it builds a well-formed
  -- header tree with one data sector for each sector of the file, of the file's length, from distinct
  -- sectors that were clear in the map and are set now, and no other bit of the map changes. The
  -- sectors of the file hold its bytes, and one sector less does not.
  pub allocate-Built :
      (b : Bitmap) (file_size s : ℕ)
      → IsBitmap b
      → b.size ≡ pos s
      → 4 * sectors_for file_size < s
      → 2 * sectors_for file_size ≤ count_clear b.num_bits 0 b.words
      → (h : FileHeader) × (b' : Bitmap) × (allocate p b file_size ≡ some (h, b'))
        × (file_size ≤ sectors_for file_size * sector_size)
        × (sectors_for file_size * sector_size < file_size + sector_size)
        × Built b (sectors_for file_size) 0 file_size h b'
  unfolding allocate
  allocate-Built b file_size s v counter c₁ c₂ =
      let (h, b', run, built) =
        (header-SlotsTotal (3 * sectors_for file_size + 4)).0 b (sectors_for file_size) 0 file_size
          s v counter (omega arith) c₂ (omega arith) (sectors_for-enough file_size) in
      (h, b', run, sectors_for-enough file_size, sectors_for-needed file_size, built)
