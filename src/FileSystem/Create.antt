-- ===== src/FileSystem/Create.antt =====
-- FileSystem::CreateFileDir from the path on.
use nthu_operating_system_er.Base.{
  ℕ, ◌+◌, ◌*◌, ◌≤◌, ◌<◌, ◌≡◌, refl, sym, ◌∙◌, ap, Bool, true, false, List, [], ◌∷◌, none, some, inl,
  inr, arith, ltb, leb, if◌then◌else◌, length, Option-cases,
}
use nthu_operating_system_er.Bitmap.{count_clear}
use nthu_operating_system_er.Directory
use nthu_operating_system_er.Directory.{
  DirectoryEntry, Directory, find, add, same_kind, file_name_max_len,
}
use nthu_operating_system_er.Directory.Entries.{same_kind_refl, strncmp_refl}
use nthu_operating_system_er.Directory.Names.{IsDirectory}
use nthu_operating_system_er.Directory.Map.{add_lem}
use nthu_operating_system_er.SynchDisk.{num_disk_sectors}
use nthu_operating_system_er.FileHeader.{FileHeader, sectors_for}
use nthu_operating_system_er.FileHeader.Rounds.{IsPowerBelow}
use nthu_operating_system_er.FileSystem.{
  FileSystem, TraversePath, parse_path, walk, back, middle, directory_sector, num_dir_entries,
  fetch_directory, is_some, traverse_path, follow_path, end_of_path, create_object, create_file_dir,
}
use nthu_operating_system_er.FileSystem.Created.{
  HasMap, Created, object_size, create_object-Created,
}

used-le : (es : List DirectoryEntry) → Directory.used es ≤ length es
unfolding Directory.used
used-le [] = omega arith
used-le (e ∷ es) = ground (arith, used-le es)

add-table_size :
    (d : Directory) (name : List ℕ) (sector : ℕ) (kind : Bool)
    → (add d name sector kind).1.table_size ≡ d.table_size
unfolding add
add-table_size d name sector kind = elim (Option-cases (Directory.find_index d.table name kind)) [
  | inr (i, found) ↦ rw (found, add)
  | inl absent ↦ elim (Option-cases (Directory.free_index d.table)) [
    | inl full ↦ rw (absent, full, add)
    | inr (i, free) ↦ rw (absent, free, add)
  ]
]

-- The lookup after an Add of a name that is not there.
added_find :
    (d : Directory) (name : List ℕ) (sector : ℕ) (kind : Bool)
    → IsDirectory d
    → find d name kind ≡ none
    → find (add d name sector kind).1 name kind
      ≡ (if ltb d.count d.table_size then some sector else none)
added_find d name sector kind v absent = elim (add_lem d name sector kind v) [
  | inl (run, inl (other, found)) ↦ absurd (cc (absent, found))
  | inl (run, inr full) ↦ rw run (absent ∙ ground (arith, full))
  | inr (d', run, none_before, changed, counts) ↦
      let same_size : d'.table_size ≡ d.table_size =
        sym (ap (λ r. r.1.table_size) run) ∙ add-table_size d name sector kind in
      let room : d.count < d.table_size =
        omega (
          arith,
          counts,
          used-le d'.table,
          changed.valid.counted,
          changed.valid.sized,
          same_size,
        ) in
      rw run (
        changed.finds name kind
        ∙ ground (arith, room, same_kind_refl kind, strncmp_refl file_name_max_len name))
]

pub find_same :
    (d e : Directory) (name : List ℕ) (kind : Bool)
    → d.table ≡ e.table
    → find d name kind ≡ find e name kind
unfolding find
find_same d e name kind same = rw same

pub entered_table :
    (contents : List DirectoryEntry) (d : Directory)
    → contents ≡ Directory.write_back d
    → (Directory.fetch_from (Directory.new num_dir_entries) contents).table ≡ d.table
unfolding Directory.fetch_from Directory.write_back
entered_table contents d e = e

-- The path leads to a name in the directory whose header is at `dir_sector`.
pub record Resolves (fs : FileSystem) (path : List ℕ) (dir_sector : ℕ) (name : List ℕ)
    : Type 0 where
  pub root : List ℕ
  pub steps : List (List ℕ)
  pub parsed : parse_path path ≡ some (root ∷ steps)
  pub walked : walk fs true directory_sector (middle steps) ≡ (true, dir_sector)
  pub last : back root steps ≡ name
  pub short : length name ≤ file_name_max_len

abbrev pub resolved : FileSystem → ℕ → List ℕ → Bool → TraversePath
resolved fs dir_sector name is_dir = record {
  dir = fetch_directory fs dir_sector;
  dir_sector = dir_sector;
  name = name;
  success = true;
  exist = is_some (find (fetch_directory fs dir_sector) name is_dir);
}

pub traverse_path-Resolves :
    (fs : FileSystem) (path : List ℕ) (dir_sector : ℕ) (name : List ℕ) (is_dir : Bool)
    → Resolves fs path dir_sector name
    → traverse_path fs path is_dir ≡ some (resolved fs dir_sector name is_dir)
unfolding traverse_path follow_path end_of_path
traverse_path-Resolves fs path dir_sector name is_dir r =
    let room : leb (length name) file_name_max_len ≡ true = ground (arith, r.short) in
    rw (r.parsed, follow_path, r.walked, r.last, end_of_path, room)

create_file_dir_run :
    (p : ℕ → ℕ) (fs : FileSystem) (path : List ℕ) (is_dir : Bool) (initial_size : ℕ)
    (tr : TraversePath) (fs' : FileSystem)
    → traverse_path fs path is_dir ≡ some tr
    → tr.success ≡ true
    → tr.exist ≡ false
    → create_object p fs tr is_dir initial_size ≡ some fs'
    → create_file_dir p fs path is_dir initial_size ≡ some (true, fs')
unfolding create_file_dir
create_file_dir_run p fs path is_dir initial_size tr fs' e₁ e₂ e₃ e₄ = rw (e₁, e₂, e₃, e₄)

-- For a path that leads to a name of at most nine characters that is not in the directory, a positive
-- size, a free map with a clear bit for the header and two for each sector of the size, and a size far
-- below the disk: `CreateFileDir` does not abort and returns TRUE; the header at a sector that was free
-- has the size and its data sectors, all from sectors that were free, distinct and marked in the new
-- map, which is otherwise the old one, as are the other headers; and the directory finds the sector
-- under the name if it had a free entry, and does not find the name if it had none.
pub create_file_dir-Created :
    (p : ℕ → ℕ) (fs : FileSystem) (path : List ℕ) (dir_sector : ℕ) (name : List ℕ) (is_dir : Bool)
    (initial_size : ℕ)
    → IsPowerBelow p
    → Resolves fs path dir_sector name
    → IsDirectory (fetch_directory fs dir_sector)
    → find (fetch_directory fs dir_sector) name is_dir ≡ none
    → HasMap fs
    → 0 < object_size is_dir initial_size
    → 4 * sectors_for (object_size is_dir initial_size) + 2 < num_disk_sectors
    → 2 * sectors_for (object_size is_dir initial_size) + 1
      ≤ count_clear num_disk_sectors 0 fs.free_map
    → (sector : ℕ) × (hdr : FileHeader) × (fs' : FileSystem) × (create_file_dir p fs path is_dir
          initial_size
        ≡ some (true, fs'))
      × Created fs
          (resolved fs dir_sector name is_dir)
          is_dir
          (object_size is_dir initial_size)
          sector
          hdr
          fs'
      × (find (fetch_directory fs' dir_sector) name is_dir ≡ (
          if ltb (fetch_directory fs dir_sector).count (fetch_directory fs dir_sector).table_size
          then some sector
          else none))
create_file_dir-Created p fs path dir_sector name is_dir initial_size power r v absent map
      some_bytes counted space =
    let tr : TraversePath = resolved fs dir_sector name is_dir in
    let (sector, hdr, fs', run, created) =
      create_object-Created p fs tr is_dir initial_size power map some_bytes counted space in
    (
      sector,
      hdr,
      fs',
      create_file_dir_run p fs path is_dir initial_size tr fs'
          (traverse_path-Resolves fs path dir_sector name is_dir r) refl (ap is_some absent) run,
      created,
      find_same (fetch_directory fs' dir_sector)
            (add (fetch_directory fs dir_sector) name sector is_dir).1 name is_dir
            (entered_table (fs'.tables dir_sector)
              (add (fetch_directory fs dir_sector) name sector is_dir).1 created.entered)
          ∙ added_find (fetch_directory fs dir_sector) name sector is_dir v absent,
    )
