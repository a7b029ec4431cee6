-- ===== src/OpenFile/Position.antt =====
-- OpenFile::Seek, Read and Write: runs of calls at the current position.
use nthu_operating_system_er.Base.{
  ℕ, ◌+◌, ◌-◌, ◌≤◌, ◌<◌, ◌≡◌, refl, ◌∙◌, ap, ◌&&◌, some, arith, ltb, leb, if◌then◌else◌,
}
use nthu_operating_system_er.SynchDisk.{Disk}
use nthu_operating_system_er.OpenFile.{
  Buffer, Bytes, OpenFile, seek, read, write, read_at, write_at,
}
use nthu_operating_system_er.OpenFile.Contents.{byte_at, IsFile}
use nthu_operating_system_er.OpenFile.Read.{in_file, read_at-HasRead}
use nthu_operating_system_er.OpenFile.Overwrite.{write_at-HasWritten}

abbrev moved : OpenFile → ℕ → OpenFile
moved file count = record file { seek_position = file.seek_position + count }

module _ (fresh : Bytes) (file : OpenFile) (disk : Disk Bytes) where
  read_run :
      (into into' : Buffer) (num_bytes count : ℕ)
      → read_at fresh file.hdr disk into 0 num_bytes file.seek_position ≡ some (count, into')
      → read fresh file disk into num_bytes ≡ some (count, moved file count, into')
  unfolding read
  read_run into into' num_bytes count run = rw run

  write_run :
      (from : Buffer) (disk' : Disk Bytes) (num_bytes count : ℕ)
      → write_at fresh file.hdr disk from num_bytes file.seek_position ≡ some (count, disk')
      → write fresh file disk from num_bytes ≡ some (count, moved file count, disk')
  unfolding write
  write_run from disk' num_bytes count run = rw run

  -- On an open file with the bytes in one buffer and room for them in the other: `Write`, a `Seek` back
  -- and a `Read` of as many bytes do not abort, give the same count, that of the bytes inside the file,
  -- both leave the position so many bytes further and the header as it is, and the bytes read are the
  -- bytes written.
  pub write-seek-read :
      (from into : Buffer) (num_bytes : ℕ)
      → IsFile file.hdr
      → num_bytes ≤ from.size
      → num_bytes ≤ into.size
      → (count : ℕ) × (file' : OpenFile) × (disk' : Disk Bytes) × (into' : Buffer) × (write fresh
            file disk from num_bytes
          ≡ some (count, file', disk'))
        × (read fresh (seek file' file.seek_position) disk' into num_bytes
            ≡ some (count, file', into'))
        × (count ≡ in_file file.hdr num_bytes file.seek_position)
        × (file'.seek_position ≡ file.seek_position + count)
        × (file'.hdr ≡ file.hdr)
        × ((k : ℕ) → k < count → into'.bytes k ≡ from.bytes k)
  write-seek-read from into num_bytes v h₁ h₂ =
      let n : ℕ = in_file file.hdr num_bytes file.seek_position in
      let (disk', run₁, w) =
        write_at-HasWritten fresh file.hdr disk from num_bytes file.seek_position v (omega arith) in
      let (into', run₂, r) =
        read_at-HasRead fresh file.hdr disk' into 0 num_bytes file.seek_position v (omega arith) in
      (
        n,
        moved file n,
        disk',
        into',
        write_run from disk' num_bytes n run₁,
        read_run_on disk' into into' num_bytes n run₂,
        refl,
        refl,
        refl,
        λ k h.
            r.contents k (omega arith) (omega arith)
            ∙ w.contents (file.seek_position + (k - 0)) (omega arith)
            ∙ bytes_of from disk (file.seek_position + (k - 0)) k n (omega arith) h,
      )
    where
      read_run_on :
          (disk' : Disk Bytes) (into into' : Buffer) (num_bytes count : ℕ)
          → read_at fresh file.hdr disk' into 0 num_bytes file.seek_position ≡ some (count, into')
          → read fresh (seek (moved file count) file.seek_position) disk' into num_bytes
            ≡ some (count, moved file count, into')
      read_run_on disk' into into' num_bytes count run = unfold read in rw run

      bytes_of :
          (from : Buffer) (disk : Disk Bytes) (o k n : ℕ)
          → o ≡ file.seek_position + k
          → k < n
          → (if leb file.seek_position o && ltb o (file.seek_position + n)
              then from.bytes (o - file.seek_position)
              else byte_at file.hdr disk o)
            ≡ from.bytes k
      bytes_of from disk o k n e h =
          let back : o - file.seek_position ≡ k = omega arith in ground (arith, ap from.bytes back)

  -- On an open file, with room in the buffers, two calls of `Read` do not abort, give together the
  -- count of one `Read` of both requests, and the second's bytes follow the first's in the contents.
  pub read-read :
      (into₁ into₂ : Buffer) (num_bytes₁ num_bytes₂ : ℕ)
      → IsFile file.hdr
      → num_bytes₁ ≤ into₁.size
      → num_bytes₂ ≤ into₂.size
      → (count₁ : ℕ) × (count₂ : ℕ) × (file₁ : OpenFile) × (file₂ : OpenFile) × (into₁' : Buffer)
        × (into₂' : Buffer) × (read fresh file disk into₁ num_bytes₁ ≡ some (count₁, file₁, into₁'))
        × (read fresh file₁ disk into₂ num_bytes₂ ≡ some (count₂, file₂, into₂'))
        × (count₁ + count₂ ≡ in_file file.hdr (num_bytes₁ + num_bytes₂) file.seek_position)
        × ((k : ℕ) → k < count₁ → into₁'.bytes k ≡ byte_at file.hdr disk (file.seek_position + k))
        × ((k : ℕ)
            → k < count₂
            → into₂'.bytes k ≡ byte_at file.hdr disk (file.seek_position + count₁ + k))
  read-read into₁ into₂ num_bytes₁ num_bytes₂ v h₁ h₂ =
      let n₁ : ℕ = in_file file.hdr num_bytes₁ file.seek_position in
      let n₂ : ℕ = in_file file.hdr num_bytes₂ (file.seek_position + n₁) in
      let (into₁', run₁, r₁) =
        read_at-HasRead fresh file.hdr disk into₁ 0 num_bytes₁ file.seek_position v (omega arith) in
      let (into₂', run₂, r₂) =
        read_at-HasRead fresh file.hdr disk into₂ 0 num_bytes₂ (file.seek_position + n₁) v
          (omega arith) in
      (
        n₁,
        n₂,
        moved file n₁,
        moved (moved file n₁) n₂,
        into₁',
        into₂',
        read_run into₁ into₁' num_bytes₁ n₁ run₁,
        unfold read in rw run₂,
        omega arith,
        λ k h. r₁.contents k (omega arith) (omega arith) ∙ ap (byte_at file.hdr disk) (omega arith),
        λ k h. r₂.contents k (omega arith) (omega arith) ∙ ap (byte_at file.hdr disk) (omega arith),
      )
