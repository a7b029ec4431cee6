-- ===== src/FileHeader/Examples.antt =====
-- Header trees at concrete inputs.
use nthu_operating_system_er.Base.{
  ◌+◌, ℕ, ◌-◌, ◌*◌, ◌/◌, ◌≤◌, ◌<◌, ◌≡◌, refl, true, false, List, ◌∷◌, some, arith, ltb,
  if◌then◌else◌, ℤ, pos, length, replicate, get_or-replicate, get_elem?, count, Distinct, dec_lt,
}
use nthu_operating_system_er.Bitmap.{Bitmap, bit_of, count_clear}
use nthu_operating_system_er.Bitmap.Bits.{test_bit}
use nthu_operating_system_er.Bitmap.Marks.{IsBitmap}
use nthu_operating_system_er.SynchDisk.{Disk, num_disk_sectors}
use nthu_operating_system_er.FileHeader.{
  FileHeader, file_header, unused, leaf, node, allocate, deallocate, byte_to_sector, sectors_for,
  sector_size, sector_size, additional, n_sectors,
}
use nthu_operating_system_er.FileHeader.Tree.{
  leaves, headers, width, IsHeader, byte_to_sector-leaves,
}
use nthu_operating_system_er.FileHeader.Rounds.{IsPowerBelow}
use nthu_operating_system_er.FileHeader.Built.{Built}
use nthu_operating_system_er.FileHeader.Allocation.{allocate-Built}
use nthu_operating_system_er.FileHeader.Release.{allocate-deallocate}
use nthu_operating_system_er.FileHeader.Stored.{write_back, fetch_from}
use nthu_operating_system_er.FileHeader.RoundTrip.{fetch_tree-write_back}

-- A power of N_SECTORS at most n.
abbrev low_power : ℕ → ℕ
low_power n = if ltb n 29 then 1 else 29

low_power-IsPowerBelow : IsPowerBelow low_power
low_power-IsPowerBelow n h = elim (dec_lt n 29) [
  | yes small ↦ (0, ground arith, ground arith)
  | no large ↦ (1, ground arith, ground arith)
]

abbrev word_zero : ℕ
word_zero = 0

abbrev free_map : Bitmap
free_map = record { num_bits = 160; num_words = 5; cur = 0; size = pos 160; words = replicate 5 0 }

free_map-IsBitmap : IsBitmap free_map
free_map-IsBitmap = record {
  sized = refl;
  room = omega arith;
  cursor = omega arith;
  small = λ i. omega (arith, get_or-replicate 5 i word_zero);
}

-- A file of 30 sectors, the last of them not full.
abbrev large_size : ℕ
large_size = 30 * sector_size - 5

sectors_for-large_size : sectors_for large_size ≡ 30
unfolding sectors_for
sectors_for-large_size = refl

many_clear : 2 * sectors_for large_size ≤ count_clear 160 0 (replicate 5 0)
unfolding sectors_for count_clear bit_of test_bit
many_clear = omega arith

allocate-Built_example :
    (h : FileHeader) × (b' : Bitmap) × (allocate low_power free_map large_size ≡ some (h, b'))
    × (large_size ≤ sectors_for large_size * sector_size)
    × (sectors_for large_size * sector_size < large_size + sector_size)
    × Built free_map (sectors_for large_size) 0 large_size h b'
allocate-Built_example =
    allocate-Built low_power low_power-IsPowerBelow free_map large_size 160 free_map-IsBitmap refl
      (omega (arith, sectors_for-large_size)) many_clear

allocate-deallocate_example :
    (h : FileHeader) × (b₁ : Bitmap) × (b₂ : Bitmap) × (allocate low_power free_map large_size
      ≡ some (h, b₁))
    × (deallocate h b₁ ≡ some b₂)
    × ((j : ℕ)
        → bit_of b₂.words j
          ≡ (if ltb 0 (count j (headers h)) then true else bit_of free_map.words j))
    × ((j : ℕ) → 0 < count j (headers h) → bit_of free_map.words j ≡ false)
    × (n_sectors < sectors_for large_size → (j : ℕ) × (0 < count j (headers h)))
allocate-deallocate_example =
    allocate-deallocate low_power low_power-IsPowerBelow free_map large_size 160 free_map-IsBitmap
      refl (omega (arith, sectors_for-large_size)) many_clear

-- A file of three sectors: a leaf, and a child with two leaves.
abbrev child : FileHeader
child = file_header 200 2 1 (leaf 1 7 (leaf 2 8 (unused 3)))

abbrev three : FileHeader
three = file_header 300 3 2 (leaf 0 5 (node 1 6 child (unused 3)))

three-IsHeader : IsHeader three 0
unfolding IsHeader leaves width
three-IsHeader = (
  refl,
  unfold additional in refl,
  omega arith,
  (refl, (refl, (refl, unfold additional in refl, omega arith, (refl, (refl, refl))), refl)),
)

in_third_sector : 260 / sector_size < length (leaves three)
unfolding leaves
in_third_sector = omega arith

byte_to_sector-leaves_example :
    byte_to_sector three 260 ≡ get_elem? (leaves three) (260 / sector_size)
byte_to_sector-leaves_example = byte_to_sector-leaves three 260 three-IsHeader in_third_sector

abbrev blank_disk : Disk (List ℤ)
blank_disk sector = replicate 32 (pos 0)

header_sectors_inside : (j : ℕ) → 0 < count j (4 ∷ headers three) → j < num_disk_sectors
unfolding headers count
header_sectors_inside j h = ground arith

header_sectors-Distinct : Distinct (4 ∷ headers three)
unfolding headers count
header_sectors-Distinct a = ground arith

few_headers : length (headers three) < num_disk_sectors
unfolding headers
few_headers = omega arith

fetch_tree-write_back_example :
    (disk' : Disk (List ℤ)) × (write_back 4 three blank_disk ≡ some disk')
    × (fetch_from disk' 4 ≡ some three)
    × ((t : ℕ) → count t (4 ∷ headers three) ≡ 0 → disk' t ≡ blank_disk t)
fetch_tree-write_back_example =
    fetch_tree-write_back 4 three blank_disk three-IsHeader header_sectors_inside
      header_sectors-Distinct few_headers
