-- ===== src/FileHeader/Rounds.antt =====
-- One round of FileHeader::Allocate: the share of a slot, and what the round does.
use native.Mathlib.Nat.{pow-suc, one-le-pow}
use nthu_operating_system_er.Base.{
  ℕ, zero, suc, ◌+◌, ◌-◌, ◌^◌, ◌≤◌, ◌<◌, ◌≡◌, true, some, arith, ltb_ℤ, ◌⊎◌, ℕ_discrete, pos,
}
use nthu_operating_system_er.Bitmap.{Bitmap, find_and_set, num_clear}
use nthu_operating_system_er.FileHeader.{
  FileHeader, file_header, Slots, unused, leaf, node, additional, n_sectors, child_sectors,
  child_bytes, allocate_header, allocate_slots,
}

-- What the code expects of `pow(N_SECTORS, floor(log(n) / log(N_SECTORS)))`, as an int: a power of
-- N_SECTORS that is at most n.
abbrev pub IsPowerBelow : (ℕ → ℕ) → Type 0
IsPowerBelow p = (n : ℕ) → 1 ≤ n → (k : ℕ) × (p n ≡ n_sectors ^ k) × p n ≤ n

power_large : (k c : ℕ) → c ≡ n_sectors ^ k → 2 ≤ c → n_sectors ≤ c
power_large zero c e h = absurd (omega (arith, e))
power_large (suc k) c e h =
    omega (arith, e, pow-suc n_sectors k, one-le-pow k n_sectors (omega arith))

module _ (p : ℕ → ℕ) (power : IsPowerBelow p) (i remain total : ℕ) where
  -- The share is positive and at most what remains; a share of more than one sector is smaller than
  -- the whole, so that the recursion ends; the last slot takes all that remains.
  pub child_sectors_bounds :
      1 ≤ remain
      → remain ≤ total
      → ((i ≡ 0) ⊎ remain < total)
      → (1 ≤ child_sectors p i remain total)
        × child_sectors p i remain total ≤ remain
        × ((child_sectors p i remain total ≡ 1) ⊎ (child_sectors p i remain total < total))
  unfolding child_sectors
  child_sectors_bounds r t place = elim (ℕ_discrete remain 1) [
    | yes one ↦ ground (arith, one)
    | no more ↦
        let (k, e, below) = power remain r in
        ground (arith, below, one-le-pow k n_sectors (omega arith), power_large k (p remain) e)
  ]

  pub child_sectors_last :
      i + 1 ≡ n_sectors → remain < total → child_sectors p i remain total ≡ remain
  unfolding child_sectors
  child_sectors_last last less = ground arith

module _ (p : ℕ → ℕ) (fuel : ℕ) (b : Bitmap) (total current : ℕ) where
  pub allocate_header_run :
      (bytes : ℕ) (slots : Slots) (b' : Bitmap)
      → ltb_ℤ (pos total) (num_clear b) ≡ true
      → allocate_slots p fuel b total current 0 total bytes ≡ some (slots, b')
      → allocate_header p (suc fuel) b total current bytes
        ≡ some (file_header bytes total (1 + additional slots) slots, b')
  unfolding allocate_header
  allocate_header_run bytes slots b' space run = rw (space, run)

  pub allocate_slots_end :
      (i bytes : ℕ)
      → bytes ≡ 0
      → allocate_slots p (suc fuel) b total current i 0 bytes ≡ some (unused (current + total), b)
  unfolding allocate_header
  allocate_slots_end i bytes e = rw e

  module _ (i remain bytes sector : ℕ) (b₁ : Bitmap) (some_left : 1 ≤ remain) (room : i < n_sectors)
      (found : find_and_set b ≡ some (some sector, b₁)) where
    pub allocate_slots_leaf :
        (rest : Slots) (b₂ : Bitmap)
        → child_sectors p i remain total ≡ 1
        → allocate_slots p fuel b₁ total current
            (suc i)
            (remain - 1)
            (bytes - child_bytes p 1 bytes)
          ≡ some (rest, b₂)
        → allocate_slots p (suc fuel) b total current i remain bytes
          ≡ some (leaf (current + total - remain) sector rest, b₂)
    unfolding allocate_header
    allocate_slots_leaf rest b₂ one run = ground arith

    pub allocate_slots_node :
        (cur : ℕ) (child : FileHeader) (rest : Slots) (b₂ b₃ : Bitmap)
        → child_sectors p i remain total ≡ cur
        → 2 ≤ cur
        → allocate_header p fuel b₁ cur (current + total - remain) (child_bytes p cur bytes)
          ≡ some (child, b₂)
        → allocate_slots p fuel b₂ total current
            (suc i)
            (remain - cur)
            (bytes - child_bytes p cur bytes)
          ≡ some (rest, b₃)
        → allocate_slots p (suc fuel) b total current i remain bytes
          ≡ some (node (current + total - remain) sector child rest, b₃)
    unfolding allocate_header
    allocate_slots_node cur child rest b₂ b₃ share big first run = ground arith
