-- ===== src/OpenFile.antt =====
-- MP4 code/filesys/openfile.cc: reading and writing a part of an open file. A buffer has a size, and
-- an access past it is `none`, as a failed ASSERT is. A data sector gives for each offset below SectorSize
-- a byte. Counts and positions are not negative; a count of 0 stands for the negative ones also.
pub mod Contents
pub mod Read
pub mod Write
pub mod Edges
pub mod Overwrite
pub mod Position
pub mod Examples
use nthu_operating_system_er.Base.{
  ℕ, zero, suc, ◌+◌, ◌-◌, ◌*◌, ◌/◌, ◌≤◌, Bool, true, false, ◌&&◌, ◌||◌, not, Option, none, some,
  ltb, leb, ◌==◌, if◌then◌else◌, ◌>>=◌, ◌>>◌, assert,
}
use nthu_operating_system_er.SynchDisk.{Disk, read_sector, write_sector}
use nthu_operating_system_er.FileHeader.{FileHeader, file_length, byte_to_sector, sector_size}

pub record Buffer : Type 0 where
  pub size : ℕ
  pub bytes : ℕ → ℕ

abbrev pub Bytes : Type 0
Bytes = ℕ → ℕ

-- bcopy(&src[a], &dst[b], count)
unfoldable pub bcopy : Buffer → ℕ → Buffer → ℕ → ℕ → Option Buffer
bcopy src a dst b count = do
  assert (leb (a + count) src.size)
  assert (leb (b + count) dst.size)
  some (record dst {
    bytes = λ k. if leb b k && ltb k (b + count) then src.bytes (a + (k - b)) else dst.bytes k;
  })

-- ReadSector(hdr->ByteToSector(i * SectorSize), &buf[(i - firstSector) * SectorSize]) for each sector
-- from i on
unfoldable pub read_sectors : ℕ → ℕ → ℕ → FileHeader → Disk Bytes → Buffer → Option Buffer
unfolding bcopy
read_sectors zero i first_sector hdr disk buf = some buf
read_sectors (suc rounds) i first_sector hdr disk buf = do
  sector ← byte_to_sector hdr (i * sector_size)
  contents ← read_sector disk sector
  buf' ←
      bcopy (record { size = sector_size; bytes = contents }) 0 buf
        ((i - first_sector) * sector_size) sector_size
  read_sectors rounds (suc i) first_sector hdr disk buf'

-- WriteSector(secNum, &buf[(i - firstSector) * SectorSize]) for each sector from i on
unfoldable pub write_sectors : ℕ → ℕ → ℕ → FileHeader → Disk Bytes → Buffer → Option (Disk Bytes)
write_sectors zero i first_sector hdr disk buf = some disk
write_sectors (suc rounds) i first_sector hdr disk buf = do
  sec_num ← byte_to_sector hdr (i * sector_size)
  assert (leb ((i - first_sector) * sector_size + sector_size) buf.size)
  disk' ← write_sector disk sec_num (λ k. buf.bytes ((i - first_sector) * sector_size + k))
  write_sectors rounds (suc i) first_sector hdr disk' buf

-- The check of a request, and the count that is left of it.
abbrev pub is_empty : FileHeader → ℕ → ℕ → Bool
is_empty hdr num_bytes position = num_bytes == 0 || leb (file_length hdr) position

abbrev pub clipped : FileHeader → ℕ → ℕ → ℕ
clipped hdr num_bytes position =
    if ltb (file_length hdr) (position + num_bytes) then file_length hdr - position else num_bytes

-- `fresh` is what new char[] holds.
module _ (fresh : Bytes) (hdr : FileHeader) where
  -- OpenFile::ReadAt into &into[at]
  unfoldable pub read_at : Disk Bytes → Buffer → ℕ → ℕ → ℕ → Option (ℕ × Buffer)
  unfolding read_sectors
  read_at disk into at num_bytes position =
      if is_empty hdr num_bytes position then some (0, into) else do
        let num_bytes' : ℕ = clipped hdr num_bytes position
        let first_sector : ℕ = position / sector_size
        let last_sector : ℕ = (position + num_bytes' - 1) / sector_size
        let num_sectors : ℕ = 1 + last_sector - first_sector
        buf ←
            read_sectors num_sectors first_sector first_sector hdr disk
              (record { size = num_sectors * sector_size; bytes = fresh })
        into' ← bcopy buf (position - first_sector * sector_size) into at num_bytes'
        some (num_bytes', into')

  -- The read of a first or last sector that is partially modified.
  unfoldable pub read_partial : Bool → Disk Bytes → Buffer → ℕ → ℕ → Option Buffer
  unfolding read_at
  read_partial false disk buf at sector = some buf
  read_partial true disk buf at sector = do
    (count, buf') ← read_at disk buf at sector_size (sector * sector_size)
    some buf'

  -- OpenFile::WriteAt
  unfoldable pub write_at : Disk Bytes → Buffer → ℕ → ℕ → Option (ℕ × Disk Bytes)
  unfolding read_partial write_sectors
  write_at disk from num_bytes position =
      if is_empty hdr num_bytes position then some (0, disk) else do
        let num_bytes' : ℕ = clipped hdr num_bytes position
        let first_sector : ℕ = position / sector_size
        let last_sector : ℕ = (position + num_bytes' - 1) / sector_size
        let num_sectors : ℕ = 1 + last_sector - first_sector
        let first_aligned : Bool = position == first_sector * sector_size
        let last_aligned : Bool = position + num_bytes' == (last_sector + 1) * sector_size
        buf ←
            read_partial (not first_aligned) disk
              (record { size = num_sectors * sector_size; bytes = λ k. 0 }) 0 first_sector
        buf' ←
            read_partial (not last_aligned && (not (first_sector == last_sector) || first_aligned))
              disk buf ((last_sector - first_sector) * sector_size) last_sector
        buf'' ← bcopy from 0 buf' (position - first_sector * sector_size) num_bytes'
        disk' ← write_sectors num_sectors first_sector first_sector hdr disk buf''
        some (num_bytes', disk')

-- class OpenFile: the header in memory, and seekPosition
pub record OpenFile : Type 0 where
  pub hdr : FileHeader
  pub seek_position : ℕ

abbrev pub seek : OpenFile → ℕ → OpenFile
seek file position = record file { seek_position = position }

abbrev pub file_size : OpenFile → ℕ
file_size file = file_length file.hdr

module _ (fresh : Bytes) (file : OpenFile) (disk : Disk Bytes) where
  unfoldable pub read : Buffer → ℕ → Option (ℕ × OpenFile × Buffer)
  unfolding read_at
  read into num_bytes = do
    (result, into') ← read_at fresh file.hdr disk into 0 num_bytes file.seek_position
    some (result, record file { seek_position = file.seek_position + result }, into')

  unfoldable pub write : Buffer → ℕ → Option (ℕ × OpenFile × Disk Bytes)
  unfolding write_at
  write from num_bytes = do
    (result, disk') ← write_at fresh file.hdr disk from num_bytes file.seek_position
    some (result, record file { seek_position = file.seek_position + result }, disk')
