-- ===== src/OpenFile/Overwrite.antt =====
-- OpenFile::WriteAt, and what ReadAt gives after it.
use nthu_operating_system_er.Base.{
  ℕ, ◌+◌, ◌-◌, ◌*◌, ◌/◌, ◌≤◌, ◌<◌, ◌≡◌, refl, sym, ◌∙◌, ap, true, false, ◌&&◌, ◌||◌, not, some,
  arith, ltb, leb, ◌==◌, if◌then◌else◌, dec_lt, inl, inr, count,
}
use nthu_operating_system_er.SynchDisk.{Disk}
use nthu_operating_system_er.FileHeader.{FileHeader, file_length, sector_size}
use nthu_operating_system_er.FileHeader.Tree.{leaves}
use nthu_operating_system_er.OpenFile.{
  Buffer, Bytes, bcopy, write_sectors, is_empty, clipped, read_partial, write_at,
}
use nthu_operating_system_er.OpenFile.Contents.{byte_at, IsFile}
use nthu_operating_system_er.OpenFile.Read.{Copied, bcopy-Copied, in_file, is_empty-in_file}
use nthu_operating_system_er.OpenFile.Write.{Flushed, write_sectors-Flushed}
use nthu_operating_system_er.OpenFile.Edges.{Filled, read_partial-Filled, edge_before, edge_after}

-- The bytes of the file from `position` on are those of the buffer, the file's other bytes are as
-- before, and so are the sectors that are not the file's.
pub record HasWritten (hdr : FileHeader) (disk : Disk Bytes) (from : Buffer)
    (count_written position : ℕ) (disk' : Disk Bytes) : Type 0 where
  pub contents :
      (o : ℕ)
      → o < file_length hdr
      → byte_at hdr disk' o ≡ (
          if leb position o && ltb o (position + count_written)
          then from.bytes (o - position)
          else byte_at hdr disk o)
  pub elsewhere : (s : ℕ) → count s (leaves hdr) ≡ 0 → disk' s ≡ disk s

module _ (fresh : Bytes) (hdr : FileHeader) (disk : Disk Bytes) (from : Buffer)
    (num_bytes position : ℕ) where
  write_at_empty :
      is_empty hdr num_bytes position ≡ true
      → write_at fresh hdr disk from num_bytes position ≡ some (0, disk)
  unfolding write_at
  write_at_empty e = rw e

  module _ (n : ℕ) (busy : is_empty hdr num_bytes position ≡ false)
      (share : clipped hdr num_bytes position ≡ n) (first_sector last_sector num_sectors : ℕ)
      (first : position / sector_size ≡ first_sector)
      (last : (position + n - 1) / sector_size ≡ last_sector)
      (sectors : 1 + last_sector - first_sector ≡ num_sectors) where
    write_at_run :
        (buf buf' buf'' : Buffer) (disk' : Disk Bytes)
        → read_partial fresh hdr
            (not (position == first_sector * sector_size))
            disk
            (record { size = num_sectors * sector_size; bytes = λ k. 0 })
            0
            first_sector
          ≡ some buf
        → read_partial fresh hdr
            (not (position + n == (last_sector + 1) * sector_size)
              && (not (first_sector == last_sector) || position == first_sector * sector_size))
            disk
            buf
            ((last_sector - first_sector) * sector_size)
            last_sector
          ≡ some buf'
        → bcopy from 0 buf' (position - first_sector * sector_size) n ≡ some buf''
        → write_sectors num_sectors first_sector first_sector hdr disk buf'' ≡ some disk'
        → write_at fresh hdr disk from num_bytes position ≡ some (n, disk')
    unfolding write_at
    write_at_run buf buf' buf'' disk' run₁ run₂ copied run₃ =
        rw (busy, share, first, last, sectors, run₁, run₂, copied, run₃)

    -- The sectors that were written hold the buffer's bytes, and the file's own around them.
    Flushed-HasWritten :
        (buf buf' buf'' : Buffer) (disk' : Disk Bytes) (v : IsFile hdr)
        → 0 < n
        → position + n ≤ file_length hdr
        → Filled fresh hdr disk
            (not (position == first_sector * sector_size))
            (record { size = num_sectors * sector_size; bytes = λ k. 0 })
            0
            first_sector
            buf
        → Filled fresh hdr disk
            (not (position + n == (last_sector + 1) * sector_size)
              && (not (first_sector == last_sector) || position == first_sector * sector_size))
            buf
            ((last_sector - first_sector) * sector_size)
            last_sector
            buf'
        → Copied from 0 buf' (position - first_sector * sector_size) n buf''
        → Flushed hdr v buf'' first_sector num_sectors first_sector disk disk'
        → HasWritten hdr disk from n position disk'
    Flushed-HasWritten buf buf' buf'' disk' v some_bytes inside f₁ f₂ c f = record {
      contents = λ o h. elim (dec_lt o position) [
        | yes before ↦
            let same : byte_at hdr disk' o ≡ byte_at hdr disk o =
              elim (dec_lt o (first_sector * sector_size)) [
                | yes early ↦ f.kept o (omega (arith, v.room)) (inl (omega arith))
                | no edge ↦
                    f.written o (omega arith) (omega arith)
                    ∙ c.below (o - first_sector * sector_size) (omega arith)
                    ∙ edge_before fresh hdr disk position n first_sector last_sector
                        (record { size = num_sectors * sector_size; bytes = λ k. 0 }) buf buf'
                        some_bytes (sym first) (sym last) f₁ f₂ o h (omega arith) before
              ] in
            ground (arith, same)
        | no onwards ↦ elim (dec_lt o (position + n)) [
          | yes written ↦
              let new : byte_at hdr disk' o ≡ from.bytes (o - position) =
                f.written o (omega arith) (omega arith)
                ∙ c.copied (o - first_sector * sector_size) (omega arith) (omega arith)
                ∙ ap from.bytes (omega arith) in
              ground (arith, new)
          | no after ↦
              let same : byte_at hdr disk' o ≡ byte_at hdr disk o =
                elim (dec_lt o ((last_sector + 1) * sector_size)) [
                  | no late ↦ f.kept o (omega (arith, v.room)) (inr (omega arith))
                  | yes edge ↦
                      f.written o (omega arith) (omega arith)
                      ∙ c.above (o - first_sector * sector_size) (omega arith)
                      ∙ edge_after fresh hdr disk position n first_sector last_sector
                          (record { size = num_sectors * sector_size; bytes = λ k. 0 }) buf buf'
                          some_bytes (sym first) (sym last) f₁ f₂ o h (omega arith) edge
                ] in
              ground (arith, same)
        ]
      ];
      elsewhere = f.elsewhere;
    }

    -- The buffer of the sectors, with the bytes to write in it.
    record Prepared (buf buf' buf'' : Buffer) : Type 0 where
      run₁ :
          read_partial fresh hdr
            (not (position == first_sector * sector_size))
            disk
            (record { size = num_sectors * sector_size; bytes = λ k. 0 })
            0
            first_sector
          ≡ some buf
      filled₁ :
          Filled fresh hdr disk
            (not (position == first_sector * sector_size))
            (record { size = num_sectors * sector_size; bytes = λ k. 0 })
            0
            first_sector
            buf
      run₂ :
          read_partial fresh hdr
            (not (position + n == (last_sector + 1) * sector_size)
              && (not (first_sector == last_sector) || position == first_sector * sector_size))
            disk
            buf
            ((last_sector - first_sector) * sector_size)
            last_sector
          ≡ some buf'
      filled₂ :
          Filled fresh hdr disk
            (not (position + n == (last_sector + 1) * sector_size)
              && (not (first_sector == last_sector) || position == first_sector * sector_size))
            buf
            ((last_sector - first_sector) * sector_size)
            last_sector
            buf'
      run₃ : bcopy from 0 buf' (position - first_sector * sector_size) n ≡ some buf''
      copied : Copied from 0 buf' (position - first_sector * sector_size) n buf''
      size : buf''.size ≡ num_sectors * sector_size

    prepare :
        (v : IsFile hdr)
        → 0 < n
        → n ≤ from.size
        → (buf : Buffer) × (buf' : Buffer) × (buf'' : Buffer) × Prepared buf buf' buf''
    prepare v some_bytes room =
        let (buf, run₁, f₁) =
          read_partial-Filled fresh hdr disk (not (position == first_sector * sector_size))
            (record { size = num_sectors * sector_size; bytes = λ k. 0 }) 0 first_sector v
            (omega arith) in
        let (buf', run₂, f₂) =
          read_partial-Filled fresh hdr disk
            (not (position + n == (last_sector + 1) * sector_size)
              && (not (first_sector == last_sector) || position == first_sector * sector_size))
            buf ((last_sector - first_sector) * sector_size) last_sector v
            (omega (arith, f₁.same_size)) in
        let (buf'', run₃, c) =
          bcopy-Copied from 0 buf' (position - first_sector * sector_size) n (omega arith)
            (omega (arith, f₁.same_size, f₂.same_size)) in
        (
          buf,
          buf',
          buf'',
          record {
            run₁ = run₁;
            filled₁ = f₁;
            run₂ = run₂;
            filled₂ = f₂;
            run₃ = run₃;
            copied = c;
            size = omega (arith, f₁.same_size, f₂.same_size, c.same_size);
          },
        )

    write_busy :
        IsFile hdr
        → 0 < n
        → position + n ≤ file_length hdr
        → n ≤ from.size
        → (disk' : Disk Bytes) × (write_at fresh hdr disk from num_bytes position ≡ some (n, disk'))
          × HasWritten hdr disk from n position disk'
    write_busy v some_bytes inside room =
        let (buf, buf', buf'', r) = prepare v some_bytes room in
        let (disk', run, f) =
          write_sectors-Flushed hdr v buf'' first_sector num_sectors first_sector disk (omega arith)
            (omega (arith, v.room)) (omega (arith, r.size)) in
        (
          disk',
          write_at_run buf buf' buf'' disk' r.run₁ r.run₂ r.run₃ run,
          Flushed-HasWritten buf buf' buf'' disk' v some_bytes inside r.filled₁ r.filled₂ r.copied
              f,
        )

-- On the header of a file, with the bytes in the buffer, `WriteAt` does not abort, and gives the number
-- of the request's bytes that are in the file; these bytes of the file's contents are then the
-- buffer's, its other bytes are as before, and so are the sectors of the disk that are not the file's.
pub write_at-HasWritten :
    (fresh : Bytes) (hdr : FileHeader) (disk : Disk Bytes) (from : Buffer) (num_bytes position : ℕ)
    → IsFile hdr
    → in_file hdr num_bytes position ≤ from.size
    → (disk' : Disk Bytes) × (write_at fresh hdr disk from num_bytes position
        ≡ some (in_file hdr num_bytes position, disk'))
      × HasWritten hdr disk from (in_file hdr num_bytes position) position disk'
write_at-HasWritten fresh hdr disk from num_bytes position v room =
    elim (is_empty-in_file hdr num_bytes position) [
      | inl (empty, e) ↦ (
        disk,
        write_at_empty fresh hdr disk from num_bytes position empty
            ∙ ap (λ (n : ℕ). some (n, disk)) (sym e),
        record { contents = λ o h. ground (arith, e); elsewhere = λ s h. refl },
      )
      | inr (busy, e, some_bytes) ↦
          write_busy fresh hdr disk from num_bytes position (in_file hdr num_bytes position) busy e
            (position / sector_size) ((position + in_file hdr num_bytes position - 1) / sector_size)
            (1
              + (position + in_file hdr num_bytes position - 1) / sector_size
              - position / sector_size)
            refl refl refl v some_bytes (omega arith) room
    ]
