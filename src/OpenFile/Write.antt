-- ===== src/OpenFile/Write.antt =====
-- OpenFile::WriteAt, for the contents of the file.
use nthu_operating_system_er.Base.{
  ℕ, zero, suc, ◌+◌, ◌-◌, ◌*◌, ◌/◌, ◌%◌, ◌≤◌, ◌<◌, ◌≡◌, refl, ◌∙◌, ap, true, some, arith, length,
  leb, ℕ_discrete, ◌⊎◌, inl, inr, count,
}
use nthu_operating_system_er.SynchDisk.{Disk, write_sector-inside}
use nthu_operating_system_er.FileHeader.{FileHeader, sector_size}
use nthu_operating_system_er.FileHeader.Tree.{leaves}
use nthu_operating_system_er.OpenFile.{Buffer, Bytes, write_sectors}
use nthu_operating_system_er.OpenFile.Contents.{
  nth_sector, byte_at, IsFile, sector_found, sector_inside, sector_apart, sector_counted,
  byte_at-sector, byte_at-same,
}

module _ (hdr : FileHeader) (v : IsFile hdr) (buf : Buffer) (first_sector : ℕ) where
  leb_room :
      (i rounds : ℕ)
      → first_sector ≤ i
      → (i - first_sector + suc rounds) * sector_size ≤ buf.size
      → leb ((i - first_sector) * sector_size + sector_size) buf.size ≡ true
  leb_room i rounds h₁ h₂ = ground arith

  -- Sectors from i on, written from the buffer.
  pub record Flushed (rounds i : ℕ) (disk disk' : Disk Bytes) : Type 0 where
    pub written :
        (o : ℕ)
        → i ≤ o / sector_size
        → o / sector_size < i + rounds
        → byte_at hdr disk' o ≡ buf.bytes (o - first_sector * sector_size)
    pub kept :
        (o : ℕ)
        → o / sector_size < length (leaves hdr)
        → (o / sector_size < i ⊎ i + rounds ≤ o / sector_size)
        → byte_at hdr disk' o ≡ byte_at hdr disk o
    pub elsewhere : (s : ℕ) → count s (leaves hdr) ≡ 0 → disk' s ≡ disk s

  pub write_sectors-Flushed :
      (rounds i : ℕ) (disk : Disk Bytes)
      → first_sector ≤ i
      → i + rounds ≤ length (leaves hdr)
      → (i - first_sector + rounds) * sector_size ≤ buf.size
      → (disk' : Disk Bytes) × (write_sectors rounds i first_sector hdr disk buf ≡ some disk')
        × Flushed rounds i disk disk'
  unfolding write_sectors
  write_sectors-Flushed zero i disk l₁ l₂ l₃ = (
    disk,
    refl,
    record {
      written = λ o h₁ h₂. absurd (omega arith);
      kept = λ o h c. refl;
      elsewhere = λ s h. refl;
    },
  )
  write_sectors-Flushed (suc rounds) i disk l₁ l₂ l₃ =
      let inside : i < length (leaves hdr) = omega arith in
      let contents : Bytes = λ k. buf.bytes ((i - first_sector) * sector_size + k) in
      let (disk₁, wrote, new, old) =
        write_sector-inside disk (nth_sector hdr i) contents (sector_inside hdr v i inside) in
      let (disk₂, run, f) =
        write_sectors-Flushed rounds (suc i) disk₁ (omega arith) (omega arith) (omega arith) in
      let others =
        λ (o : ℕ) (h : o / sector_size < length (leaves hdr)) (ne : (o / sector_size ≡ i) → ⊥).
          byte_at-same hdr disk disk₁ o (
            old (nth_sector hdr (o / sector_size))
              (λ e. ne (sector_apart hdr v (o / sector_size) i h inside e))) in
      (
        disk₂,
        rw (sector_found hdr v i inside, leb_room i rounds l₁ l₃, wrote, run),
        record {
          written = λ o h₁ h₂. elim (ℕ_discrete (o / sector_size) i) [
            | yes here ↦
                f.kept o (omega arith) (inl (omega arith))
                ∙ byte_at-sector hdr disk₁ o i (o % sector_size) here refl
                ∙ ap (λ (c : Bytes). c (o % sector_size)) new
                ∙ ap (λ k. buf.bytes k) (omega arith)
            | no later ↦ f.written o (omega arith) (omega arith)
          ];
          kept = λ o h c.
              f.kept o h (elim c [ inl b ↦ inl (omega arith) | inr b ↦ inr (omega arith) ])
              ∙ others o h (λ e. elim c [ inl b ↦ omega arith | inr b ↦ omega arith ]);
          elsewhere = λ s h.
              f.elsewhere s h
              ∙ old s (λ e. absurd (
                  omega
                    (arith, sector_counted hdr v i inside, h, ap (λ x. count x (leaves hdr)) e)));
        },
      )
