-- ===== src/OpenFile/Contents.antt =====
-- The contents of a file: the bytes of its data sectors, in the order of the file.
use nthu_operating_system_er.Base.{
  ℕ, zero, suc, ◌*◌, ◌/◌, ◌%◌, ◌≤◌, ◌<◌, ◌≡◌, ◌≢◌, refl, sym, ◌∙◌, ap, List, [], ◌∷◌, some, arith,
  length, get_or, get_elem?, count, count-cons, count-cons_self, Distinct,
}
use nthu_operating_system_er.SynchDisk.{Disk, num_disk_sectors}
use nthu_operating_system_er.FileHeader.{FileHeader, file_length, byte_to_sector, sector_size}
use nthu_operating_system_er.FileHeader.Tree.{leaves, IsHeader, byte_to_sector-leaves}
use nthu_operating_system_er.OpenFile.{Bytes}

-- The disk sector with number i of the file.
abbrev pub nth_sector : FileHeader → ℕ → ℕ
nth_sector hdr i = get_or (leaves hdr) i 0

unfoldable pub byte_at : FileHeader → Disk Bytes → ℕ → ℕ
byte_at hdr disk offset = disk (nth_sector hdr (offset / sector_size)) (offset % sector_size)

-- The header of a file: a well-formed tree of distinct data sectors of the disk, with room for the bytes.
pub record IsFile (hdr : FileHeader) : Type 0 where
  pub shape : IsHeader hdr 0
  pub distinct : Distinct (leaves hdr)
  pub inside : (j : ℕ) → 0 < count j (leaves hdr) → j < num_disk_sectors
  pub room : file_length hdr ≤ length (leaves hdr) * sector_size

get_elem?-get_or : (xs : List ℕ) (i : ℕ) → i < length xs → get_elem? xs i ≡ some (get_or xs i 0)
get_elem?-get_or [] i h = absurd (omega arith)
get_elem?-get_or (x ∷ xs) zero h = refl
get_elem?-get_or (x ∷ xs) (suc i) h = get_elem?-get_or xs i (omega arith)

count-get_or : (xs : List ℕ) (i : ℕ) → i < length xs → 0 < count (get_or xs i 0) xs
count-get_or [] i h = absurd (omega arith)
count-get_or (x ∷ xs) zero h = omega (arith, count-cons_self x xs)
count-get_or (x ∷ xs) (suc i) h =
    omega (arith, count-get_or xs i (omega arith), count-cons (get_or xs i 0) x xs)

first_absent : (x : ℕ) (xs : List ℕ) (i : ℕ) → Distinct (x ∷ xs) → i < length xs → x ≢ get_or xs i 0
first_absent x xs i d h e =
    absurd
      (omega (arith, d x, count-cons_self x xs, count-get_or xs i h, ap (λ (y : ℕ). count y xs) e))

-- Distinct sectors stand at distinct places.
Distinct-get_or :
    (xs : List ℕ) (i j : ℕ)
    → Distinct xs
    → i < length xs
    → j < length xs
    → get_or xs i 0 ≡ get_or xs j 0
    → i ≡ j
Distinct-get_or [] i j d h k e = absurd (omega arith)
Distinct-get_or (x ∷ xs) zero zero d h k e = refl
Distinct-get_or (x ∷ xs) zero (suc j) d h k e = absurd (first_absent x xs j d (omega arith) e)
Distinct-get_or (x ∷ xs) (suc i) zero d h k e = absurd (first_absent x xs i d (omega arith) (sym e))
Distinct-get_or (x ∷ xs) (suc i) (suc j) d h k e = ap suc (
    Distinct-get_or xs i j (λ a. omega (arith, d a, count-cons a x xs)) (omega arith) (omega arith)
      e)

module _ (hdr : FileHeader) (v : IsFile hdr) where
  -- Sector i of the file is found, and is on the disk.
  pub sector_found :
      (i : ℕ)
      → i < length (leaves hdr)
      → byte_to_sector hdr (i * sector_size) ≡ some (nth_sector hdr i)
  sector_found i h =
      let e : i * sector_size / sector_size ≡ i = omega arith in
      byte_to_sector-leaves hdr (i * sector_size) v.shape (omega (arith, e))
      ∙ ap (get_elem? (leaves hdr)) e
      ∙ get_elem?-get_or (leaves hdr) i h

  pub sector_inside : (i : ℕ) → i < length (leaves hdr) → nth_sector hdr i < num_disk_sectors
  sector_inside i h = v.inside (nth_sector hdr i) (count-get_or (leaves hdr) i h)

  pub sector_apart :
      (i j : ℕ)
      → i < length (leaves hdr)
      → j < length (leaves hdr)
      → nth_sector hdr i ≡ nth_sector hdr j
      → i ≡ j
  sector_apart i j h k e = Distinct-get_or (leaves hdr) i j v.distinct h k e

  pub sector_counted : (i : ℕ) → i < length (leaves hdr) → 0 < count (nth_sector hdr i) (leaves hdr)
  sector_counted i h = count-get_or (leaves hdr) i h

pub byte_at-sector :
    (hdr : FileHeader) (disk : Disk Bytes) (offset i k : ℕ)
    → offset / sector_size ≡ i
    → offset % sector_size ≡ k
    → byte_at hdr disk offset ≡ disk (nth_sector hdr i) k
unfolding byte_at
byte_at-sector hdr disk offset i k e f = rw (e, f)

pub byte_at-same :
    (hdr : FileHeader) (disk disk' : Disk Bytes) (offset : ℕ)
    → disk' (nth_sector hdr (offset / sector_size)) ≡ disk (nth_sector hdr (offset / sector_size))
    → byte_at hdr disk' offset ≡ byte_at hdr disk offset
unfolding byte_at
byte_at-same hdr disk disk' offset e = ap (λ (c : Bytes). c (offset % sector_size)) e
