-- ===== src/SynchDisk.antt =====
-- MP4 code/filesys/synchdisk.cc over code/machine/disk.cc: what a synchronous request leaves on the
-- disk. The lock and the semaphore make the caller wait for the request's interrupt, so that one request
-- is over before the next one starts. A sector's contents are left open: 32 ints for a file header, 128
-- bytes for the data of a file. `none` is a failed ASSERT of the disk.
use nthu_operating_system_er.Base.{
  ℕ, ◌*◌, ◌<◌, ◌≡◌, ◌≢◌, Option, some, arith, ltb, lt→ltb, if◌then◌else◌, ◌==◌, ◌>>◌, assert,
}

-- NumSectors
abbrev pub num_disk_sectors : ℕ
num_disk_sectors = 1024 * 1024

abbrev pub Disk {ℓ} : Type ℓ → Type ℓ
Disk A = ℕ → A

module _ {ℓ} {A : Type ℓ} (disk : Disk A) (sector_number : ℕ) where
  unfoldable pub read_sector : Option A
  read_sector = do assert (ltb sector_number num_disk_sectors); some (disk sector_number)

  unfoldable pub write_sector : A → Option (Disk A)
  write_sector contents = do
    assert (ltb sector_number num_disk_sectors)
    some (λ sector. if sector == sector_number then contents else disk sector)

  pub read_sector-inside :
      sector_number < num_disk_sectors → read_sector ≡ some (disk sector_number)
  unfolding read_sector
  read_sector-inside h = rw (lt→ltb sector_number num_disk_sectors h)

  -- A write inside the disk replaces one sector.
  pub write_sector-inside :
      (contents : A)
      → sector_number < num_disk_sectors
      → (disk' : Disk A) × (write_sector contents ≡ some disk')
        × (disk' sector_number ≡ contents)
        × ((t : ℕ) → t ≢ sector_number → disk' t ≡ disk t)
  unfolding write_sector
  write_sector-inside contents h = (
    λ sector. if sector == sector_number then contents else disk sector,
    rw (lt→ltb sector_number num_disk_sectors h),
    ground arith,
    λ t apart. ground arith,
  )
