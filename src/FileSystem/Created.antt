-- ===== src/FileSystem/Created.antt =====
-- FileSystem::CreateFileDir behind the traversal: what a new file or directory is made of.
use nthu_operating_system_er.Base.{
  ℕ, ◌+◌, ◌-◌, ◌*◌, ◌≤◌, ◌<◌, ◌^◌, ◌≡◌, sym, ◌∙◌, ap, Bool, true, false, List, [], ◌∷◌, some, inl,
  inr, arith, ltb, if◌then◌else◌, ◌==◌, ℤ, length, get_or, take-all, count, count-cons,
  count-cons_self, Distinct,
}
use nthu_operating_system_er.Bitmap
use nthu_operating_system_er.Bitmap.{Bitmap, bit_of, words_for, find_and_set, new_from, count_clear}
use nthu_operating_system_er.Bitmap.Fresh.{Holds, new_from-Holds}
use nthu_operating_system_er.Directory
use nthu_operating_system_er.Directory.{DirectoryEntry, Directory, add}
use nthu_operating_system_er.SynchDisk.{Disk, num_disk_sectors}
use nthu_operating_system_er.FileHeader.{FileHeader, allocate, sectors_for, file_length}
use nthu_operating_system_er.FileHeader.Tree.{leaves, headers, used}
use nthu_operating_system_er.FileHeader.Marking.{Marked, Marked-append, find_and_set-Marked}
use nthu_operating_system_er.FileHeader.Rounds.{IsPowerBelow}
use nthu_operating_system_er.FileHeader.Built.{Built}
use nthu_operating_system_er.FileHeader.Allocation.{allocate-Built}
use nthu_operating_system_er.FileHeader.Release.{count-used, length-used}
use nthu_operating_system_er.FileHeader.Stored.{write_back, fetch_from}
use nthu_operating_system_er.FileHeader.RoundTrip.{fetch_tree-write_back}
use nthu_operating_system_er.FileSystem.{
  FileSystem, TraversePath, num_dir_entries, directory_entry_size, put_table, flush, create_object,
}

abbrev pub object_size : Bool → ℕ → ℕ
object_size is_dir initial_size =
    if is_dir then num_dir_entries * directory_entry_size else initial_size

-- The tables after an object has been made at a sector: a new directory has an empty one.
abbrev pub made_tables : FileSystem → Bool → ℕ → ℕ → List DirectoryEntry
made_tables fs is_dir sector =
    if is_dir
    then put_table fs.tables sector (Directory.write_back (Directory.new num_dir_entries))
    else fs.tables

-- The free map's file has a word for each 32 sectors, and sector 0, which holds its header, is taken.
pub record HasMap (fs : FileSystem) : Type 0 where
  pub sized : length fs.free_map ≡ words_for num_disk_sectors
  pub small : (i : ℕ) → get_or fs.free_map i 0 < 2 ^ 32
  pub first_taken : bit_of fs.free_map 0 ≡ true

-- An object whose header is at `sector`.
pub record Created (fs : FileSystem) (tr : TraversePath) (is_dir : Bool) (size sector : ℕ)
    (hdr : FileHeader) (fs' : FileSystem) : Type 0 where
  pub fetched : fetch_from fs'.headers sector ≡ some hdr
  pub total_bytes : file_length hdr ≡ size
  pub all_leaves : length (leaves hdr) ≡ sectors_for size
  pub distinct : Distinct (sector ∷ used hdr)
  pub was_clear : (j : ℕ) → 0 < count j (sector ∷ used hdr) → bit_of fs.free_map j ≡ false
  pub map :
      (j : ℕ)
      → bit_of fs'.free_map j
        ≡ (if ltb 0 (count j (sector ∷ used hdr)) then true else bit_of fs.free_map j)
  pub other_headers : (t : ℕ) → count t (sector ∷ headers hdr) ≡ 0 → fs'.headers t ≡ fs.headers t
  pub entered : fs'.tables tr.dir_sector ≡ Directory.write_back (add tr.dir tr.name sector is_dir).1

module _ (p : ℕ → ℕ) (fs : FileSystem) (tr : TraversePath) (is_dir : Bool) (initial_size : ℕ) where
  -- The state that a call leaves.
  abbrev made : ℕ → Bitmap → Disk (List ℤ) → FileSystem
  made sector b₂ disk' = flush tr (add tr.dir tr.name sector is_dir).1 (record {
    free_map = Bitmap.write_back b₂;
    tables = made_tables fs is_dir sector;
    headers = disk';
  })

  create_object_run :
      (b b₁ b₂ : Bitmap) (sector : ℕ) (hdr : FileHeader) (disk' : Disk (List ℤ))
      → new_from fs.free_map num_disk_sectors ≡ some b
      → find_and_set b ≡ some (some sector, b₁)
      → (sector == 0) ≡ false
      → ltb 0 (object_size is_dir initial_size) ≡ true
      → allocate p b₁ (object_size is_dir initial_size) ≡ some (hdr, b₂)
      → write_back sector hdr fs.headers ≡ some disk'
      → create_object p fs tr is_dir initial_size ≡ some (made sector b₂ disk')
  unfolding create_object
  create_object_run b b₁ b₂ sector hdr disk' e₁ e₂ e₃ e₄ e₅ e₆ = rw (e₁, e₂, e₃, e₄, e₅, e₆)

  made-Created :
      (b b₂ : Bitmap) (sector : ℕ) (hdr : FileHeader) (disk' : Disk (List ℤ))
      → b.words ≡ fs.free_map
      → Marked (sector ∷ used hdr) b b₂
      → file_length hdr ≡ object_size is_dir initial_size
      → length (leaves hdr) ≡ sectors_for (object_size is_dir initial_size)
      → fetch_from disk' sector ≡ some hdr
      → ((t : ℕ) → count t (sector ∷ headers hdr) ≡ 0 → disk' t ≡ fs.headers t)
      → Created fs tr is_dir (object_size is_dir initial_size) sector hdr (made sector b₂ disk')
  unfolding Bitmap.write_back
  made-Created b b₂ sector hdr disk' same m total_bytes all_leaves fetched others = record {
    fetched = fetched;
    total_bytes = total_bytes;
    all_leaves = all_leaves;
    distinct = m.distinct;
    was_clear = λ j h. ap (λ ws. bit_of ws j) (sym same) ∙ m.free j h;
    map = λ j.
        ap (λ ws. bit_of ws j) (take-all b₂.num_words b₂.words (omega (arith, m.valid.sized)))
        ∙ m.bits j
        ∙ ap (λ ws. if ltb 0 (count j (sector ∷ used hdr)) then true else bit_of ws j) same;
    other_headers = others;
    entered = ground arith;
  }

  module _ (power : IsPowerBelow p) (v : HasMap fs)
      (some_bytes : 0 < object_size is_dir initial_size)
      (counted : 4 * sectors_for (object_size is_dir initial_size) + 2 < num_disk_sectors)
      (space : 2 * sectors_for (object_size is_dir initial_size) + 1
        ≤ count_clear num_disk_sectors 0 fs.free_map) where
    -- The header's own sector, and the header.
    record Sectors (b b₁ b₂ : Bitmap) (sector : ℕ) (hdr : FileHeader) : Type 0 where
      opened : new_from fs.free_map num_disk_sectors ≡ some b
      holds : Holds fs.free_map num_disk_sectors b
      found : find_and_set b ≡ some (some sector, b₁)
      first : Marked (sector ∷ []) b b₁
      allocated : allocate p b₁ (object_size is_dir initial_size) ≡ some (hdr, b₂)
      built :
          Built b₁
            (sectors_for (object_size is_dir initial_size))
            0
            (object_size is_dir initial_size)
            hdr
            b₂

    clear_in_map :
        (b : Bitmap)
        → Holds fs.free_map num_disk_sectors b
        → count_clear b.num_bits 0 b.words ≡ count_clear num_disk_sectors 0 fs.free_map
    clear_in_map b h = rw (h.bits, h.same_words)

    take-Sectors :
        (b : Bitmap) × (b₁ : Bitmap) × (b₂ : Bitmap) × (sector : ℕ) × (hdr : FileHeader) × Sectors b
          b₁ b₂ sector hdr
    take-Sectors =
        let (b, opened, holds) =
          new_from-Holds fs.free_map num_disk_sectors (omega arith) v.sized v.small in
        let (sector, b₁, found, m) =
          find_and_set-Marked b (num_disk_sectors - 1) holds.valid holds.counter
            (omega (arith, space, clear_in_map b holds)) in
        let (hdr, b₂, allocated, _, _, built) =
          allocate-Built p power b₁ (object_size is_dir initial_size) (num_disk_sectors - 2) m.valid
            (m.counter (num_disk_sectors - 2) holds.counter) (omega (arith, counted))
            (omega (arith, space, clear_in_map b holds, m.clears)) in
        (
          b,
          b₁,
          b₂,
          sector,
          hdr,
          record {
            opened = opened;
            holds = holds;
            found = found;
            first = m;
            allocated = allocated;
            built = built;
          },
        )

    module _ (b b₁ b₂ : Bitmap) (sector : ℕ) (hdr : FileHeader)
        (s : Sectors b b₁ b₂ sector hdr) where
      all_sectors : Marked (sector ∷ used hdr) b b₂
      all_sectors =
          Marked-append {b = b} {b₁ = b₁} {b₂ = b₂} (sector ∷ []) (used hdr) s.first s.built.marked

      header_among : (j : ℕ) → count j (sector ∷ headers hdr) ≤ count j (sector ∷ used hdr)
      header_among j = omega (
        arith,
        count-cons j sector (headers hdr),
        count-cons j sector (used hdr),
        count-used j hdr,
      )

      not_first : (sector == 0) ≡ false
      not_first = ground (
        arith,
        v.first_taken,
        all_sectors.free sector (omega (arith, count-cons_self sector (used hdr))),
        ap (λ ws. bit_of ws sector) s.holds.same_words,
        ap (bit_of fs.free_map),
      )

      few_headers : length (headers hdr) < num_disk_sectors
      few_headers = elim s.built.cost [
        | inl c ↦ omega (arith, counted, length-used hdr)
        | inr c ↦ omega (arith, counted, length-used hdr)
      ]

      stored :
          (disk' : Disk (List ℤ)) × (write_back sector hdr fs.headers ≡ some disk')
          × (fetch_from disk' sector ≡ some hdr)
          × ((t : ℕ) → count t (sector ∷ headers hdr) ≡ 0 → disk' t ≡ fs.headers t)
      stored =
          fetch_tree-write_back sector hdr fs.headers s.built.shape
            (λ j h.
              omega (arith, s.holds.bits, all_sectors.in_range j (omega (arith, header_among j))))
            (λ j. omega (arith, all_sectors.distinct j, header_among j)) few_headers

    -- A call that finds the space makes the object.
    pub create_object-Created :
        (sector : ℕ) × (hdr : FileHeader) × (fs' : FileSystem) × (create_object p fs tr is_dir
            initial_size
          ≡ some fs')
        × Created fs tr is_dir (object_size is_dir initial_size) sector hdr fs'
    create_object-Created =
        let (b, b₁, b₂, sector, hdr, s) = take-Sectors in
        let (disk', run, fetched, others) = stored b b₁ b₂ sector hdr s in
        (
          sector,
          hdr,
          made sector b₂ disk',
          create_object_run b b₁ b₂ sector hdr disk' s.opened s.found
              (not_first b b₁ b₂ sector hdr s) (ground (arith, some_bytes)) s.allocated run,
          made-Created b b₂ sector hdr disk' s.holds.same_words (all_sectors b b₁ b₂ sector hdr s)
              s.built.total_bytes s.built.all_leaves fetched others,
        )
