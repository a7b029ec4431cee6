-- ===== src/OpenFile/Examples.antt =====
-- A file of three sectors, read and written across the ends of its sectors.
use nthu_operating_system_er.Base.{ℕ, ◌+◌, ◌*◌, ◌%◌, ◌<◌, ◌≡◌, refl, some, arith, count}
use nthu_operating_system_er.SynchDisk.{Disk}
use nthu_operating_system_er.FileHeader.{
  FileHeader, file_header, unused, leaf, file_length, additional,
}
use nthu_operating_system_er.FileHeader.Tree.{leaves, width, IsHeader}
use nthu_operating_system_er.OpenFile.{
  Buffer, Bytes, OpenFile, seek, read, write, read_at, write_at,
}
use nthu_operating_system_er.OpenFile.Contents.{IsFile}
use nthu_operating_system_er.OpenFile.Read.{in_file, HasRead, read_at-HasRead}
use nthu_operating_system_er.OpenFile.Overwrite.{HasWritten, write_at-HasWritten}
use nthu_operating_system_er.OpenFile.Position.{write-seek-read}

abbrev header : FileHeader
header = file_header 300 3 1 (leaf 0 9 (leaf 1 4 (leaf 2 6 (unused 3))))

header-IsFile : IsFile header
unfolding IsHeader leaves width count file_length additional
header-IsFile = record {
  shape = (refl, refl, omega arith, (refl, (refl, (refl, refl))));
  distinct = λ a. ground arith;
  inside = λ j h. ground arith;
  room = omega arith;
}

-- What an allocation holds before it is written.
abbrev noise : Bytes
noise k = 170

abbrev disk : Disk Bytes
disk sector k = (sector * 31 + k) % 256

abbrev buffer : Buffer
buffer = record { size = 260; bytes = λ k. k % 7 }

-- The request goes past the end of the file: 180 of its 250 bytes are in the file.
in_file-request : in_file header 250 120 ≡ 180
unfolding file_length
in_file-request = refl

read_at-HasRead_example :
    (into' : Buffer) × (read_at noise header disk buffer 5 250 120
      ≡ some (in_file header 250 120, into'))
    × HasRead header disk buffer 5 (in_file header 250 120) 120 into'
read_at-HasRead_example =
    read_at-HasRead noise header disk buffer 5 250 120 header-IsFile
      (omega (arith, in_file-request))

write_at-HasWritten_example :
    (disk' : Disk Bytes) × (write_at noise header disk buffer 250 120
      ≡ some (in_file header 250 120, disk'))
    × HasWritten header disk buffer (in_file header 250 120) 120 disk'
write_at-HasWritten_example =
    write_at-HasWritten noise header disk buffer 250 120 header-IsFile
      (omega (arith, in_file-request))

abbrev file : OpenFile
file = record { hdr = header; seek_position = 120 }

write-seek-read_example :
    (count : ℕ) × (file' : OpenFile) × (disk' : Disk Bytes) × (into' : Buffer) × (write noise file
        disk buffer 250
      ≡ some (count, file', disk'))
    × (read noise (seek file' 120) disk' buffer 250 ≡ some (count, file', into'))
    × (count ≡ in_file header 250 120)
    × (file'.seek_position ≡ 120 + count)
    × (file'.hdr ≡ header)
    × ((k : ℕ) → k < count → into'.bytes k ≡ buffer.bytes k)
write-seek-read_example =
    write-seek-read noise file disk buffer buffer 250 header-IsFile (omega arith) (omega arith)
