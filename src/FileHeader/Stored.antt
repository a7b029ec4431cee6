-- ===== src/FileHeader/Stored.antt =====
-- MP4 code/filesys/filehdr.cc: FileHeader::WriteBack and FileHeader::FetchFrom. A sector that holds a
-- header holds 32 ints: the two counts, the word of `map`, and dataSectors, where INVALID_SECTOR is -1.
-- A count or a sector that is negative on the disk is `none` here, but for INVALID_SECTOR.
use nthu_operating_system_er.Base.{
  ℕ, zero, suc, ◌+◌, ◌-◌, ◌*◌, true, false, List, [], ◌∷◌, ◌++◌, Option, none, some, ℤ, pos, negsuc,
  ◌==◌, ◌>>=◌, ◌>>◌, assert, get_or, take, drop, replicate, length,
}
use nthu_operating_system_er.Bitmap.Bits.{test_bit, set_bit}
use nthu_operating_system_er.SynchDisk.{Disk, read_sector, write_sector, num_disk_sectors}
use nthu_operating_system_er.FileHeader.{
  FileHeader, file_header, Slots, unused, leaf, node, num_sectors_of, additional, n_sectors,
  member_sz,
}

abbrev pub invalid_sector : ℤ
invalid_sector = negsuc 0

-- The word of `map`, and dataSectors up to the first INVALID_SECTOR, from slot i on.
unfoldable pub map_word : ℕ → Slots → ℕ
map_word i (unused start) = 0
map_word i (leaf start sector rest) = map_word (suc i) rest
map_word i (node start sector child rest) = set_bit (map_word (suc i) rest) i

unfoldable pub data_sectors : Slots → List ℤ
data_sectors (unused start) = []
data_sectors (leaf start sector rest) = pos sector ∷ data_sectors rest
data_sectors (node start sector child rest) = pos sector ∷ data_sectors rest

-- `cache` of WriteBack
unfoldable pub cache_of : FileHeader → List ℤ
unfolding map_word data_sectors
cache_of (file_header num_bytes num_sectors additional_sector slots) =
    pos num_bytes
    ∷ pos num_sectors
    ∷ pos (map_word 0 slots)
    ∷ (data_sectors slots ++ replicate (n_sectors - length (data_sectors slots)) invalid_sector)

-- FileHeader::WriteBack, and its loop
unfoldable mutual
  unfolding cache_of

  pub write_back : ℕ → FileHeader → Disk (List ℤ) → Option (Disk (List ℤ))
  write_back sector (file_header num_bytes num_sectors additional_sector slots) disk = do
    disk₁ ←
        write_sector disk sector
          (cache_of (file_header num_bytes num_sectors additional_sector slots))
    write_back_slots slots disk₁

  pub write_back_slots : Slots → Disk (List ℤ) → Option (Disk (List ℤ))
  write_back_slots (unused start) disk = some disk
  write_back_slots (leaf start sector rest) disk = write_back_slots rest disk
  write_back_slots (node start sector child rest) disk = do
    disk₁ ← write_back sector child disk
    write_back_slots rest disk₁

abbrev pub as_ℕ : ℤ → Option ℕ
as_ℕ (pos n) = some n
as_ℕ (negsuc n) = none

-- FileHeader::FetchFrom, the private one, and its loop over dataSectors from slot i on, which gives the
-- slots and childSector. The rounds and the levels of the deepest chain use up the fuel: headers that
-- contain each other are fetched without end.
unfoldable mutual
  pub fetch_header : ℕ → Disk (List ℤ) → ℕ → ℕ → Option FileHeader
  fetch_header zero disk sector current_sector = none
  fetch_header (suc fuel) disk sector current_sector = do
    cache ← read_sector disk sector
    num_bytes ← as_ℕ (get_or cache 0 (pos 0))
    num_sectors ← as_ℕ (get_or cache 1 (pos 0))
    word ← as_ℕ (get_or cache 2 (pos 0))
    (slots, child_sector) ←
        fetch_slots fuel disk word (take n_sectors (drop member_sz cache)) 0 current_sector 0
    assert (child_sector == num_sectors)
    some (file_header num_bytes num_sectors (1 + additional slots) slots)

  pub fetch_slots : ℕ → Disk (List ℤ) → ℕ → List ℤ → ℕ → ℕ → ℕ → Option (Slots × ℕ)
  fetch_slots zero disk word sectors i current_sector child_sector = none
  fetch_slots (suc fuel) disk word [] i current_sector child_sector =
      some (unused (current_sector + child_sector), child_sector)
  fetch_slots (suc fuel) disk word (data_sector ∷ later_sectors) i current_sector child_sector =
      elim (test_bit word i) [
        | true ↦ do
          sector ← as_ℕ data_sector
          child ← fetch_header fuel disk sector (current_sector + child_sector)
          (rest, last) ←
              fetch_slots fuel disk word later_sectors (suc i) current_sector
                (child_sector + num_sectors_of child)
          some (node (current_sector + child_sector) sector child rest, last)
        | false ↦ elim data_sector [
          | pos sector ↦ do
            (rest, last) ←
                fetch_slots fuel disk word later_sectors (suc i) current_sector (suc child_sector)
            some (leaf (current_sector + child_sector) sector rest, last)
          | negsuc zero ↦ some (unused (current_sector + child_sector), child_sector)
          | negsuc (suc n) ↦ none
        ]
      ]

-- FileHeader::FetchFrom. A chain of more headers than the disk has sectors comes back to one of them;
-- each has a call and at most N_SECTORS + 1 rounds.
unfoldable pub fetch_from : Disk (List ℤ) → ℕ → Option FileHeader
fetch_from disk sector = fetch_header (num_disk_sectors * (n_sectors + 2)) disk sector 0
