-- ===== src/FileHeader.antt =====
-- MP4 code/filesys/filehdr.cc and filehdr.h: the header of a file, a tree of sectors. The arrays
-- `dataSectors`, `startSector`, `children` and the bits of `map` are kept together, slot by slot: a slot
-- is a leaf (a data sector) or a node (the sector of a child's header, and the child); from `unused` on
-- the sectors are INVALID_SECTOR, the bits are clear, and its number is the additional last position
-- of `startSector`. `pow(N_SECTORS, floor(log(n) / log(N_SECTORS)))`, cast to int, is a parameter:
-- its rounding is the machine's. `none` is a failed ASSERT, or a write past the end of an array.
pub mod Tree
pub mod Marking
pub mod Rounds
pub mod Built
pub mod Allocation
pub mod Stored
pub mod Written
pub mod RoundTrip
pub mod Examples
pub mod Release
use nthu_operating_system_er.Base.{
  ℕ, zero, suc, ◌+◌, ◌-◌, ◌*◌, ◌/◌, ◌%◌, ◌^◌, ◌≤◌, ◌≡◌, Bool, true, false, ◌&&◌, not, List, [], ◌∷◌,
  ◌++◌, Option, none, some, ℤ, pos, negsuc, ltb, leb, ltb_ℤ, if◌then◌else◌, ◌==◌, ◌>>=◌, ◌>>◌,
  assert,
}
use nthu_operating_system_er.Bitmap.{Bitmap, find_and_set, num_clear, test, clear}

-- machine/disk.h
abbrev pub sector_size : ℕ
sector_size = 128

abbrev pub filehdr_sz : ℕ
filehdr_sz = sector_size / 4

abbrev pub member_sz : ℕ
member_sz = 3

abbrev pub n_sectors : ℕ
n_sectors = filehdr_sz - member_sz

mutual
  pub data FileHeader : Type 0 where
    file_header : (num_bytes num_sectors additional_sector : ℕ) → Slots → FileHeader

  pub data Slots : Type 0 where
    unused : (start : ℕ) → Slots
    leaf : (start sector : ℕ) → Slots → Slots
    node : (start sector : ℕ) → FileHeader → Slots → Slots

abbrev pub slots_of : FileHeader → Slots
slots_of (file_header num_bytes num_sectors additional_sector slots) = slots

abbrev pub num_sectors_of : FileHeader → ℕ
num_sectors_of (file_header num_bytes num_sectors additional_sector slots) = num_sectors

abbrev pub additional_sector_of : FileHeader → ℕ
additional_sector_of (file_header num_bytes num_sectors additional_sector slots) = additional_sector

unfoldable pub file_length : FileHeader → ℕ
file_length (file_header num_bytes num_sectors additional_sector slots) = num_bytes

-- What the children add to additionalSector.
unfoldable pub additional : Slots → ℕ
additional (unused start) = 0
additional (leaf start sector rest) = additional rest
additional (node start sector child rest) = additional_sector_of child + additional rest

-- utility.h, at SectorSize
unfoldable pub sectors_for : ℕ → ℕ
sectors_for bytes = bytes / sector_size + (if ltb 0 (bytes % sector_size) then 1 else 0)

module _ (leading_power : ℕ → ℕ) where
  -- The number of sectors that slot i gets.
  unfoldable pub child_sectors : ℕ → ℕ → ℕ → ℕ
  child_sectors i remain total =
      if remain == 1
      then 1
      else let cur : ℕ = if ltb (i + 1) n_sectors then leading_power remain else remain in
        if cur == total then cur / n_sectors else cur

  abbrev pub child_bytes : ℕ → ℕ → ℕ
  child_bytes cur remain_bytes =
      if ltb remain_bytes (cur * sector_size) then remain_bytes else cur * sector_size

  -- FileHeader::Allocate, the private one, and its loop from slot i on. The rounds and the levels
  -- together use up the fuel.
  unfoldable mutual
    pub allocate_header : ℕ → Bitmap → ℕ → ℕ → ℕ → Option (FileHeader × Bitmap)
    allocate_header zero free_map total current bytes = none
    allocate_header (suc fuel) free_map total current bytes = do
      assert (ltb_ℤ (pos total) (num_clear free_map))
      (slots, free_map') ← allocate_slots fuel free_map total current 0 total bytes
      some (file_header bytes total (1 + additional slots) slots, free_map')

    pub allocate_slots : ℕ → Bitmap → ℕ → ℕ → ℕ → ℕ → ℕ → Option (Slots × Bitmap)
    allocate_slots zero free_map total current i remain remain_bytes = none
    allocate_slots (suc fuel) free_map total current i remain remain_bytes = elim (leb 1 remain) [
      | false ↦ do assert (remain_bytes == 0); some (unused (current + total), free_map)
      | true ↦ do
        assert (ltb i n_sectors)
        let cur : ℕ = child_sectors i remain total
        let cur_bytes : ℕ = child_bytes cur remain_bytes
        let start : ℕ = current + total - remain
        (found, free_map₁) ← find_and_set free_map
        sector ← found
        elim (cur == 1) [
          | true ↦ do
            (rest, free_map₂) ←
                allocate_slots fuel free_map₁ total current (suc i) (remain - cur)
                  (remain_bytes - cur_bytes)
            some (leaf start sector rest, free_map₂)
          | false ↦ do
            (child, free_map₂) ← allocate_header fuel free_map₁ cur start cur_bytes
            (rest, free_map₃) ←
                allocate_slots fuel free_map₂ total current (suc i) (remain - cur)
                  (remain_bytes - cur_bytes)
            some (node start sector child rest, free_map₃)
        ]
    ]

  -- FileHeader::Allocate
  unfoldable pub allocate : Bitmap → ℕ → Option (FileHeader × Bitmap)
  unfolding sectors_for
  allocate free_map file_size =
      let total : ℕ = sectors_for file_size in
      allocate_header (3 * total + 4) free_map total 0 file_size

-- FileHeader::Deallocate. The header itself is reset.
unfoldable mutual
  pub deallocate : FileHeader → Bitmap → Option Bitmap
  deallocate (file_header num_bytes num_sectors additional_sector slots) free_map =
      deallocate_slots slots free_map

  pub deallocate_slots : Slots → Bitmap → Option Bitmap
  deallocate_slots (unused start) free_map = some free_map
  deallocate_slots (leaf start sector rest) free_map = do
    marked ← test free_map sector
    assert marked
    free_map' ← clear free_map sector
    deallocate_slots rest free_map'
  deallocate_slots (node start sector child rest) free_map = do
    free_map' ← deallocate child free_map
    deallocate_slots rest free_map'

-- startSector[i] for the first slot
abbrev pub start_of : Slots → ℕ
start_of (unused start) = start
start_of (leaf start sector rest) = start
start_of (node start sector child rest) = start

abbrev pub in_slot : ℕ → ℕ → Slots → Bool
in_slot offset_sector start rest = leb start offset_sector && ltb offset_sector (start_of rest)

-- FileHeader::ByteToSector
unfoldable mutual
  pub byte_to_sector : FileHeader → ℕ → Option ℕ
  byte_to_sector (file_header num_bytes num_sectors additional_sector slots) offset =
      find_slot slots offset

  pub find_slot : Slots → ℕ → Option ℕ
  find_slot (unused start) offset = none
  find_slot (leaf start sector rest) offset =
      if in_slot (offset / sector_size) start rest then some sector else find_slot rest offset
  find_slot (node start sector child rest) offset =
      if in_slot (offset / sector_size) start rest
      then byte_to_sector child offset
      else find_slot rest offset
