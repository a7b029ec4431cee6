-- ===== src/OpenFile/Edges.antt =====
-- The reads of OpenFile::WriteAt of the sectors that it modifies in part.
use nthu_operating_system_er.Base.{
  ℕ, ◌+◌, ◌-◌, ◌*◌, ◌/◌, ◌≤◌, ◌<◌, ◌≡◌, ◌≢◌, refl, ◌∙◌, ap, Bool, true, false, ◌&&◌, ◌||◌, not,
  some, arith, ◌==◌, ℕ_discrete,
}
use nthu_operating_system_er.SynchDisk.{Disk}
use nthu_operating_system_er.FileHeader.{FileHeader, file_length, sector_size}
use nthu_operating_system_er.OpenFile.{Buffer, Bytes, read_partial}
use nthu_operating_system_er.OpenFile.Contents.{byte_at, IsFile}
use nthu_operating_system_er.OpenFile.Read.{read_at-HasRead}

module _ (fresh : Bytes) (hdr : FileHeader) (disk : Disk Bytes) where
  -- A sector of the file is in the buffer from `at` on, where the flag is set.
  pub record Filled (flag : Bool) (buf : Buffer) (at sector : ℕ) (buf' : Buffer) : Type 0 where
    pub same_size : buf'.size ≡ buf.size
    pub filled :
        flag ≡ true
        → (o : ℕ) → sector * sector_size ≤ o
        → o < (sector + 1) * sector_size
        → o < file_length hdr
        → buf'.bytes (at + (o - sector * sector_size)) ≡ byte_at hdr disk o
    pub left : flag ≡ false → (k : ℕ) → buf'.bytes k ≡ buf.bytes k
    pub below : (k : ℕ) → k < at → buf'.bytes k ≡ buf.bytes k

  pub read_partial-Filled :
      (flag : Bool) (buf : Buffer) (at sector : ℕ)
      → IsFile hdr
      → at + sector_size ≤ buf.size
      → (buf' : Buffer) × (read_partial fresh hdr flag disk buf at sector ≡ some buf')
        × Filled flag buf at sector buf'
  unfolding read_partial
  read_partial-Filled false buf at sector v room = (
    buf,
    refl,
    record {
      same_size = refl;
      filled = λ e. absurd (ground arith);
      left = λ e k. refl;
      below = λ k h. refl;
    },
  )
  read_partial-Filled true buf at sector v room =
      let (buf', run, r) =
        read_at-HasRead fresh hdr disk buf at sector_size (sector * sector_size) v (omega arith) in
      (
        buf',
        rw run,
        record {
          same_size = r.same_size;
          filled = λ e o h₁ h₂ h₃.
              r.contents (at + (o - sector * sector_size)) (omega arith) (omega arith)
              ∙ ap (byte_at hdr disk) (omega arith);
          left = λ e. absurd (ground arith);
          below = r.below;
        },
      )

  -- After the two reads, the bytes of the first and the last sector that are not to be written are in
  -- the buffer.
  module _ (position n first_sector last_sector : ℕ) (buf buf₁ buf₂ : Buffer) (some_bytes : 0 < n)
      (first : first_sector ≡ position / sector_size)
      (last : last_sector ≡ (position + n - 1) / sector_size)
      (f₁ : Filled (not (position == first_sector * sector_size)) buf 0 first_sector buf₁)
      (f₂ : Filled
        (not (position + n == (last_sector + 1) * sector_size)
          && (not (first_sector == last_sector) || position == first_sector * sector_size))
        buf₁
        ((last_sector - first_sector) * sector_size)
        last_sector
        buf₂)
      (o : ℕ) (inside : o < file_length hdr) where
    from_first :
        position ≢ first_sector * sector_size
        → first_sector * sector_size ≤ o
        → o < (first_sector + 1) * sector_size
        → buf₁.bytes (o - first_sector * sector_size) ≡ byte_at hdr disk o
    from_first apart h₁ h₂ = ap buf₁.bytes (omega arith) ∙ f₁.filled (ground arith) o h₁ h₂ inside

    pub edge_before :
        first_sector * sector_size ≤ o
        → o < position
        → buf₂.bytes (o - first_sector * sector_size) ≡ byte_at hdr disk o
    edge_before h₁ h₂ = elim (ℕ_discrete first_sector last_sector) [
      | yes one ↦
          f₂.left (ground arith) (o - first_sector * sector_size)
          ∙ from_first (λ e. absurd (omega arith)) h₁ (omega arith)
      | no more ↦
          f₂.below (o - first_sector * sector_size) (omega arith)
          ∙ from_first (λ e. absurd (omega arith)) h₁ (omega arith)
    ]

    pub edge_after :
        position + n ≤ o
        → o < (last_sector + 1) * sector_size
        → buf₂.bytes (o - first_sector * sector_size) ≡ byte_at hdr disk o
    edge_after h₁ h₂ =
        let unaligned : (position + n == (last_sector + 1) * sector_size) ≡ false = ground arith in
        elim (ℕ_discrete first_sector last_sector) [
          | no more ↦
              ap buf₂.bytes (omega arith) ∙ f₂.filled (ground arith) o (omega arith) h₂ inside
          | yes one ↦ elim (ℕ_discrete position (first_sector * sector_size)) [
            | yes aligned ↦
                ap buf₂.bytes (omega arith) ∙ f₂.filled (ground arith) o (omega arith) h₂ inside
            | no apart ↦
                f₂.left (ground arith) (o - first_sector * sector_size)
                ∙ from_first apart (omega arith) (omega arith)
          ]
        ]
