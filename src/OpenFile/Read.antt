-- ===== src/OpenFile/Read.antt =====
-- OpenFile::ReadAt, for the contents of the file.
use Prim.Native.Nat.{min}
use nthu_operating_system_er.Base.{
  ℕ, zero, suc, ◌+◌, ◌-◌, ◌*◌, ◌/◌, ◌≤◌, ◌<◌, ◌≡◌, refl, sym, ◌∙◌, ap, true, false, ◌&&◌, some,
  arith, length, ltb, leb, if◌then◌else◌, dec_lt, Bool-cases, ◌⊎◌, inl, inr,
}
use nthu_operating_system_er.SynchDisk.{Disk, read_sector-inside}
use nthu_operating_system_er.FileHeader.{FileHeader, file_length, sector_size}
use nthu_operating_system_er.FileHeader.Tree.{leaves}
use nthu_operating_system_er.OpenFile.{
  Buffer, Bytes, bcopy, read_sectors, is_empty, clipped, read_at,
}
use nthu_operating_system_er.OpenFile.Contents.{
  nth_sector, byte_at, IsFile, sector_found, sector_inside, byte_at-sector,
}

-- What a copy into &dst[b] leaves.
pub record Copied (src : Buffer) (a : ℕ) (dst : Buffer) (b count : ℕ) (dst' : Buffer) : Type 0 where
  pub same_size : dst'.size ≡ dst.size
  pub copied : (k : ℕ) → b ≤ k → k < b + count → dst'.bytes k ≡ src.bytes (a + (k - b))
  pub below : (k : ℕ) → k < b → dst'.bytes k ≡ dst.bytes k
  pub above : (k : ℕ) → b + count ≤ k → dst'.bytes k ≡ dst.bytes k

pub bcopy-Copied :
    (src : Buffer) (a : ℕ) (dst : Buffer) (b count : ℕ)
    → a + count ≤ src.size
    → b + count ≤ dst.size
    → (dst' : Buffer) × (bcopy src a dst b count ≡ some dst') × Copied src a dst b count dst'
unfolding bcopy
bcopy-Copied src a dst b count h₁ h₂ = (
  record dst {
    bytes = λ k. if leb b k && ltb k (b + count) then src.bytes (a + (k - b)) else dst.bytes k;
  },
  ground arith,
  record {
    same_size = refl;
    copied = λ k l₁ l₂. ground arith;
    below = λ k l. ground arith;
    above = λ k l. ground arith;
  },
)

module _ (hdr : FileHeader) (v : IsFile hdr) (disk : Disk Bytes) (first_sector : ℕ) where
  -- Sectors from i on, read into the buffer.
  record Loaded (rounds i : ℕ) (buf buf' : Buffer) : Type 0 where
    same_size : buf'.size ≡ buf.size
    loaded :
        (k : ℕ)
        → (i - first_sector) * sector_size ≤ k
        → k < (i - first_sector + rounds) * sector_size
        → buf'.bytes k ≡ byte_at hdr disk (first_sector * sector_size + k)
    below : (k : ℕ) → k < (i - first_sector) * sector_size → buf'.bytes k ≡ buf.bytes k

  read_sectors-Loaded :
      (rounds i : ℕ) (buf : Buffer)
      → first_sector ≤ i
      → i + rounds ≤ length (leaves hdr)
      → (i - first_sector + rounds) * sector_size ≤ buf.size
      → (buf' : Buffer) × (read_sectors rounds i first_sector hdr disk buf ≡ some buf')
        × Loaded rounds i buf buf'
  unfolding read_sectors
  read_sectors-Loaded zero i buf l₁ l₂ l₃ = (
    buf,
    refl,
    record { same_size = refl; loaded = λ k h₁ h₂. absurd (omega arith); below = λ k h. refl },
  )
  read_sectors-Loaded (suc rounds) i buf l₁ l₂ l₃ =
      let contents = disk (nth_sector hdr i) in
      let (buf₁, copied, c) =
        bcopy-Copied (record { size = sector_size; bytes = contents }) 0 buf
          ((i - first_sector) * sector_size) sector_size (omega arith) (omega arith) in
      let (buf₂, run, r) =
        read_sectors-Loaded rounds (suc i) buf₁ (omega arith) (omega arith)
          (omega (arith, c.same_size)) in
      (
        buf₂,
        rw (
          sector_found hdr v i (omega arith),
          read_sector-inside disk (nth_sector hdr i) (sector_inside hdr v i (omega arith)),
          copied,
          run,
        ),
        record {
          same_size = r.same_size ∙ c.same_size;
          loaded = λ k h₁ h₂. elim (dec_lt k ((suc i - first_sector) * sector_size)) [
            | yes here ↦
                r.below k here
                ∙ c.copied k h₁ (omega arith)
                ∙ ap contents (omega arith)
                ∙ sym (
                    byte_at-sector hdr disk (first_sector * sector_size + k) i
                      (k - (i - first_sector) * sector_size) (omega arith) (omega arith))
            | no later ↦ r.loaded k (omega arith) (omega arith)
          ];
          below = λ k h. r.below k (omega arith) ∙ c.below k h;
        },
      )

-- The bytes of a request that are in the file.
abbrev pub in_file : FileHeader → ℕ → ℕ → ℕ
in_file hdr num_bytes position = min num_bytes (file_length hdr - position)

-- The bytes of the file from `position` on are in the buffer from `at` on, and the other bytes of the
-- buffer are as before.
pub record HasRead (hdr : FileHeader) (disk : Disk Bytes) (into : Buffer) (at count position : ℕ)
    (into' : Buffer) : Type 0 where
  pub same_size : into'.size ≡ into.size
  pub contents :
      (k : ℕ) → at ≤ k → k < at + count → into'.bytes k ≡ byte_at hdr disk (position + (k - at))
  pub below : (k : ℕ) → k < at → into'.bytes k ≡ into.bytes k
  pub above : (k : ℕ) → at + count ≤ k → into'.bytes k ≡ into.bytes k

pub is_empty-in_file :
    (hdr : FileHeader) (num_bytes position : ℕ)
    → ((is_empty hdr num_bytes position ≡ true) × (in_file hdr num_bytes position ≡ 0))
      ⊎ ((is_empty hdr num_bytes position ≡ false)
          × (clipped hdr num_bytes position ≡ in_file hdr num_bytes position)
          × 0 < in_file hdr num_bytes position)
is_empty-in_file hdr num_bytes position = elim (Bool-cases (is_empty hdr num_bytes position)) [
  | inl e ↦ inl (e, ground arith)
  | inr e ↦ inr (e, ground arith, ground arith)
]

-- The sectors of a request that is not empty.
pub sectors_inside :
    (hdr : FileHeader) (n position : ℕ)
    → IsFile hdr
    → 0 < n
    → n ≤ file_length hdr - position
    → position / sector_size + (1 + (position + n - 1) / sector_size - position / sector_size)
      ≤ length (leaves hdr)
sectors_inside hdr n position v some_bytes inside = omega (arith, v.room)

module _ (fresh : Bytes) (hdr : FileHeader) (disk : Disk Bytes) (into : Buffer)
    (at num_bytes position : ℕ) where
  read_at_empty :
      is_empty hdr num_bytes position ≡ true
      → read_at fresh hdr disk into at num_bytes position ≡ some (0, into)
  unfolding read_at
  read_at_empty e = rw e

  read_at_run :
      (n num_sectors : ℕ) (buf into' : Buffer)
      → is_empty hdr num_bytes position ≡ false
      → clipped hdr num_bytes position ≡ n
      → 1 + (position + n - 1) / sector_size - position / sector_size ≡ num_sectors
      → read_sectors num_sectors
          (position / sector_size)
          (position / sector_size)
          hdr
          disk
          (record { size = num_sectors * sector_size; bytes = fresh })
        ≡ some buf
      → bcopy buf (position - position / sector_size * sector_size) into at n ≡ some into'
      → read_at fresh hdr disk into at num_bytes position ≡ some (n, into')
  unfolding read_at
  read_at_run n num_sectors buf into' busy e f run copied = rw (busy, e, f, run, copied)

-- On the header of a file, with room for the bytes in the buffer, `ReadAt` does not abort, and gives the
-- number of the request's bytes that are in the file; these bytes of the file's contents are then in
-- the buffer, and the rest of the buffer is as before.
pub read_at-HasRead :
    (fresh : Bytes) (hdr : FileHeader) (disk : Disk Bytes) (into : Buffer)
    (at num_bytes position : ℕ)
    → IsFile hdr
    → at + in_file hdr num_bytes position ≤ into.size
    → (into' : Buffer) × (read_at fresh hdr disk into at num_bytes position
        ≡ some (in_file hdr num_bytes position, into'))
      × HasRead hdr disk into at (in_file hdr num_bytes position) position into'
read_at-HasRead fresh hdr disk into at num_bytes position v room =
    elim (is_empty-in_file hdr num_bytes position) [
      | inl (empty, e) ↦ (
        into,
        read_at_empty fresh hdr disk into at num_bytes position empty
            ∙ ap (λ (n : ℕ). some (n, into)) (sym e),
        record {
          same_size = refl;
          contents = λ k h₁ h₂. absurd (omega arith);
          below = λ k h. refl;
          above = λ k h. refl;
        },
      )
      | inr (busy, e, some_bytes) ↦
          let n : ℕ = in_file hdr num_bytes position in
          let first_sector : ℕ = position / sector_size in
          let num_sectors : ℕ = 1 + (position + n - 1) / sector_size - first_sector in
          let (buf, run, loaded) =
            read_sectors-Loaded hdr v disk first_sector num_sectors first_sector
              (record { size = num_sectors * sector_size; bytes = fresh }) (omega arith)
              (sectors_inside hdr n position v some_bytes (omega arith)) (omega arith) in
          let (into', copied, c) =
            bcopy-Copied buf (position - first_sector * sector_size) into at n
              (omega (arith, loaded.same_size)) room in
          (
            into',
            read_at_run fresh hdr disk into at num_bytes position n num_sectors buf into' busy e
                refl run copied,
            record {
              same_size = c.same_size;
              contents = λ k h₁ h₂.
                  c.copied k h₁ h₂
                  ∙ loaded.loaded (position - first_sector * sector_size + (k - at)) (omega arith)
                      (omega arith)
                  ∙ ap (byte_at hdr disk) (omega arith);
              below = c.below;
              above = c.above;
            },
          )
    ]
