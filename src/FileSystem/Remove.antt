-- ===== src/FileSystem/Remove.antt =====
-- FileSystem::Remove and RemoveSingleObj.
use nthu_operating_system_er.Base.{
  ℕ, ◌<◌, ◌≡◌, refl, ◌∙◌, ap, Bool, true, false, ◌&&◌, List, [], ◌∷◌, ◌++◌, none, some, inl, inr,
  arith, ltb, if◌then◌else◌, take-all, count, Distinct,
}
use nthu_operating_system_er.Bitmap
use nthu_operating_system_er.Bitmap.{Bitmap, bit_of, new_from, clear}
use nthu_operating_system_er.Bitmap.Fresh.{Holds, new_from-Holds}
use nthu_operating_system_er.Directory
use nthu_operating_system_er.Directory.{
  DirectoryEntry, Directory, find, same_kind, file_name_max_len,
}
use nthu_operating_system_er.Directory.Entries.{same_name, strncmp_refl}
use nthu_operating_system_er.Directory.Names.{IsDirectory}
use nthu_operating_system_er.Directory.Map.{remove_lem}
use nthu_operating_system_er.SynchDisk.{num_disk_sectors}
use nthu_operating_system_er.FileHeader.{FileHeader}
use nthu_operating_system_er.FileHeader.Tree.{leaves}
use nthu_operating_system_er.FileHeader.Release.{
  Released, Held, Held-left, Held-right, Released-append, clear-Released, deallocate-Released,
}
use nthu_operating_system_er.FileHeader.Stored.{fetch_from}
use nthu_operating_system_er.FileSystem.{
  FileSystem, fetch_directory, traverse_path, flush, remove_single_obj, remove,
}
use nthu_operating_system_er.FileSystem.Created.{HasMap}
use nthu_operating_system_er.FileSystem.Create.{
  Resolves, resolved, traverse_path-Resolves, find_same, entered_table,
}

-- The sectors that a removal frees.
abbrev pub freed : FileHeader → ℕ → List ℕ
freed hdr sector = leaves hdr ++ (sector ∷ [])

-- The free map after a removal, and the directory.
pub record Removed (fs : FileSystem) (dir_sector : ℕ) (name : List ℕ) (sector : ℕ)
    (hdr : FileHeader) (fs' : FileSystem) : Type 0 where
  pub map :
      (j : ℕ)
      → bit_of fs'.free_map j
        ≡ (if ltb 0 (count j (freed hdr sector)) then false else bit_of fs.free_map j)
  pub gone : find (fetch_directory fs' dir_sector) name false ≡ none
  pub others :
      (other : List ℕ) (kind : Bool)
      → (same_kind false kind && same_name name other) ≡ false
      → find (fetch_directory fs' dir_sector) other kind
        ≡ find (fetch_directory fs dir_sector) other kind
  pub same_headers : fs'.headers ≡ fs.headers

remove_single_obj-Released :
    (fs : FileSystem) (sector : ℕ) (hdr : FileHeader) (b : Bitmap)
    → fetch_from fs.headers sector ≡ some hdr
    → Holds fs.free_map num_disk_sectors b
    → Held (freed hdr sector) b
    → (b' : Bitmap) × (remove_single_obj fs sector b ≡ some b') × Released (freed hdr sector) b b'
unfolding remove_single_obj
remove_single_obj-Released fs sector hdr b fetched holds held =
    let (b₁, run₁, released₁) =
      deallocate-Released hdr b holds.valid (Held-left (leaves hdr) (sector ∷ []) b held) in
    let (tested, b₂, run₂, released₂) =
      clear-Released b₁ sector released₁.valid
        (Held-right (leaves hdr) (sector ∷ []) b b₁ held released₁) in
    (
      b₂,
      rw (fetched, run₁, run₂),
      Released-append {b = b} {b₁ = b₁} {b₂ = b₂} (leaves hdr) (sector ∷ []) released₁ released₂,
    )

-- The state that a call leaves.
abbrev left : FileSystem → ℕ → List ℕ → Bitmap → FileSystem
left fs dir_sector name b' =
    flush (resolved fs dir_sector name false)
      (Directory.remove (fetch_directory fs dir_sector) name false).1
      (record fs { free_map = Bitmap.write_back b' })

remove_run :
    (fs : FileSystem) (path : List ℕ) (dir_sector : ℕ) (name : List ℕ) (sector : ℕ) (b b' : Bitmap)
    → traverse_path fs path false ≡ some (resolved fs dir_sector name false)
    → find (fetch_directory fs dir_sector) name false ≡ some sector
    → new_from fs.free_map num_disk_sectors ≡ some b
    → remove_single_obj fs sector b ≡ some b'
    → remove fs path ≡ some (true, left fs dir_sector name b')
unfolding remove
remove_run fs path dir_sector name sector b b' e₁ e₂ e₃ e₄ = rw (e₁, e₂, e₃, e₄)

left-Removed :
    (fs : FileSystem) (dir_sector : ℕ) (name : List ℕ) (sector : ℕ) (hdr : FileHeader)
    (b b' : Bitmap)
    → IsDirectory (fetch_directory fs dir_sector)
    → find (fetch_directory fs dir_sector) name false ≡ some sector
    → Holds fs.free_map num_disk_sectors b
    → Released (freed hdr sector) b b'
    → Removed fs dir_sector name sector hdr (left fs dir_sector name b')
unfolding Bitmap.write_back
left-Removed fs dir_sector name sector hdr b b' v found holds released =
    elim (remove_lem (fetch_directory fs dir_sector) name false v) [
      | inl (run, absent) ↦ absurd (cc (absent, found))
      | inr (d', s, run, was, changed, counts) ↦
          let table : (fetch_directory (left fs dir_sector name b') dir_sector).table ≡ d'.table =
            entered_table ((left fs dir_sector name b').tables dir_sector) d'
              (ground (arith, ap (λ r. Directory.write_back r.1) run)) in
          record {
            map = λ j.
                ap (λ ws. bit_of ws j)
                  (take-all b'.num_words b'.words (omega (arith, released.valid.sized)))
                ∙ released.bits j
                ∙ ap (λ ws. if ltb 0 (count j (freed hdr sector)) then false else bit_of ws j)
                    holds.same_words;
            gone =
                find_same (fetch_directory (left fs dir_sector name b') dir_sector) d' name false
                  table
                ∙ changed.finds name false
                ∙ ground (arith, strncmp_refl file_name_max_len name);
            others = λ other kind apart.
                find_same (fetch_directory (left fs dir_sector name b') dir_sector) d' other kind
                  table
                ∙ changed.finds other kind
                ∙ ground (arith, apart);
            same_headers = refl;
          }
    ]

-- For a path that leads to a file of the directory, whose header is fetched, with its data sectors and
-- its header's sector distinct and marked in the free map: `Remove` does not abort and returns TRUE; the
-- map has these sectors clear and the others as before, the directory does not find the file any more
-- and finds all others as before, and the headers are as before.
pub remove-Removed :
    (fs : FileSystem) (path : List ℕ) (dir_sector : ℕ) (name : List ℕ) (sector : ℕ)
    (hdr : FileHeader)
    → Resolves fs path dir_sector name
    → IsDirectory (fetch_directory fs dir_sector)
    → find (fetch_directory fs dir_sector) name false ≡ some sector
    → fetch_from fs.headers sector ≡ some hdr
    → HasMap fs
    → Distinct (freed hdr sector)
    → ((j : ℕ)
        → 0 < count j (freed hdr sector)
        → (bit_of fs.free_map j ≡ true) × (j < num_disk_sectors))
    → (fs' : FileSystem) × (remove fs path ≡ some (true, fs'))
      × Removed fs dir_sector name sector hdr fs'
remove-Removed fs path dir_sector name sector hdr r v found fetched map distinct marked =
    let (b, opened, holds) =
      new_from-Holds fs.free_map num_disk_sectors (omega arith) map.sized map.small in
    let (b', run, released) = remove_single_obj-Released fs sector hdr b fetched holds (record {
      distinct = distinct;
      marked = λ j h.
          let (set, inside) = marked j h in
          (ap (λ ws. bit_of ws j) holds.same_words ∙ set, omega (arith, inside, holds.bits));
    }) in
    (
      left fs dir_sector name b',
      remove_run fs path dir_sector name sector b b'
          (traverse_path-Resolves fs path dir_sector name false r) found opened run,
      left-Removed fs dir_sector name sector hdr b b' v found holds released,
    )
