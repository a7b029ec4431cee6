-- ===== src/FileSystem.antt =====
-- MP4 code/filesys/filesys.cc and filesys.h: paths, and the creation and removal of files over the free
-- map, the directories and the headers. The contents of the two kinds of system files are kept
-- apart from the disk: the words of the free map's file, and for the sector of a directory's header the
-- table in its file. The flushes of TraversePath's destructor are written out where it runs. Names are
-- lists of characters. `none` is a failed ASSERT_MSG, an exception of std::string, or a write past
-- the end of the array `name`.
pub mod Paths
pub mod Created
pub mod Create
pub mod Remove
pub mod Examples
use nthu_operating_system_er.Base.{
  ℕ, zero, suc, ◌+◌, ◌*◌, Bool, true, false, ◌&&◌, not, List, [], ◌∷◌, Option, none, some, ℤ, ltb,
  leb, ◌==◌, if◌then◌else◌, ◌>>=◌, ◌>>◌, assert, length,
}
use nthu_operating_system_er.Bitmap
use nthu_operating_system_er.Bitmap.{Bitmap, find_and_set, new_from, clear}
use nthu_operating_system_er.Directory
use nthu_operating_system_er.Directory.{DirectoryEntry, Directory, file_name_max_len, find, add}
use nthu_operating_system_er.SynchDisk.{Disk, num_disk_sectors}
use nthu_operating_system_er.FileHeader.{FileHeader, allocate, deallocate}
use nthu_operating_system_er.FileHeader.Stored.{write_back, fetch_from}

-- '/'
abbrev pub delimiter : ℕ
delimiter = 47

-- The characters before the next delimiter, and those behind it, if there is one.
unfoldable pub split_once : List ℕ → List ℕ × Option (List ℕ)
split_once [] = ([], none)
split_once (c ∷ cs) =
    if c == delimiter then ([], some cs) else (c ∷ (split_once cs).0, (split_once cs).1)

-- The loop of ParsePath from behind a delimiter. A round takes a delimiter off the path.
unfoldable pub parse_steps : ℕ → List ℕ → List (List ℕ)
unfolding split_once
parse_steps zero cs = []
parse_steps (suc rounds) cs = elim ((split_once cs).1) [
  | none ↦ (split_once cs).0 ∷ []
  | some later ↦ (split_once cs).0 ∷ parse_steps rounds later
]

-- p == "/"
abbrev pub is_root : ℕ → List ℕ → Bool
is_root c [] = c == delimiter
is_root c (d ∷ cs) = false

-- FileSystem::TraversePath::ParsePath. The first character is taken for the delimiter; p.substr(1) of an
-- empty string throws.
unfoldable pub parse_path : List ℕ → Option (List (List ℕ))
unfolding parse_steps
parse_path [] = none
parse_path (c ∷ cs) =
    if is_root c cs
    then some ((delimiter ∷ []) ∷ [])
    else some ((delimiter ∷ []) ∷ parse_steps (suc (length cs)) cs)

abbrev pub back : List ℕ → List (List ℕ) → List ℕ
back x [] = x
back x (y ∷ ys) = back y ys

-- path_list[1] to path_list[size - 2], of the steps behind the root
abbrev pub middle : List (List ℕ) → List (List ℕ)
middle [] = []
middle (x ∷ []) = []
middle (x ∷ y ∷ ys) = x ∷ middle (y ∷ ys)

abbrev pub free_map_sector : ℕ
free_map_sector = 0

abbrev pub directory_sector : ℕ
directory_sector = 1

abbrev pub num_dir_entries : ℕ
num_dir_entries = 64

-- sizeof(DirectoryEntry): two bools, an int and ten characters, aligned to the int
abbrev pub directory_entry_size : ℕ
directory_entry_size = 20

pub record FileSystem : Type 0 where
  pub free_map : List ℕ
  pub tables : ℕ → List DirectoryEntry
  pub headers : Disk (List ℤ)

pub record TraversePath : Type 0 where
  pub dir : Directory
  pub dir_sector : ℕ
  pub name : List ℕ
  pub success : Bool
  pub exist : Bool

-- dir->FetchFrom of the file whose header is at a sector
abbrev pub fetch_directory : FileSystem → ℕ → Directory
fetch_directory fs sector = Directory.fetch_from (Directory.new num_dir_entries) (fs.tables sector)

-- The loop of TraversePath over the directories of the path: success, and the sector of the directory.
unfoldable pub walk : FileSystem → Bool → ℕ → List (List ℕ) → Bool × ℕ
walk fs success sector [] = (success, sector)
walk fs success sector (step ∷ steps) = elim (find (fetch_directory fs sector) step true) [
  | none ↦ walk fs false sector steps
  | some d_sec ↦ walk fs success d_sec steps
]

abbrev pub is_some : Option ℕ → Bool
is_some none = false
is_some (some n) = true

-- The status at the end of the loop. Where the path fails, `name` and `exist` are not set; they are
-- empty here.
unfoldable pub end_of_path : FileSystem → Bool → List ℕ → Bool × ℕ → Option TraversePath
end_of_path fs is_dir name (false, sector) = some (record {
  dir = fetch_directory fs sector;
  dir_sector = sector;
  name = [];
  success = false;
  exist = false;
})
end_of_path fs is_dir name (true, sector) = do
  assert (leb (length name) file_name_max_len)
  some (record {
    dir = fetch_directory fs sector;
    dir_sector = sector;
    name = name;
    success = true;
    exist = is_some (find (fetch_directory fs sector) name is_dir);
  })

unfoldable pub follow_path : FileSystem → Bool → List (List ℕ) → Option TraversePath
unfolding walk end_of_path
follow_path fs is_dir [] = none
follow_path fs is_dir (root ∷ steps) =
    end_of_path fs is_dir (back root steps) (walk fs true directory_sector (middle steps))

-- TraversePath::TraversePath
unfoldable pub traverse_path : FileSystem → List ℕ → Bool → Option TraversePath
unfolding parse_path follow_path
traverse_path fs path is_dir = parse_path path >>= follow_path fs is_dir

abbrev pub put_table : (ℕ → List DirectoryEntry) → ℕ → List DirectoryEntry → ℕ → List DirectoryEntry
put_table tables sector table s = if s == sector then table else tables s

-- TraversePath::~TraversePath, with the directory as it is then
abbrev pub flush : TraversePath → Directory → FileSystem → FileSystem
flush tr dir fs = record fs {
  tables = put_table fs.tables tr.dir_sector (Directory.write_back dir);
}

module _ (leading_power : ℕ → ℕ) (fs : FileSystem) where
  -- FileSystem::CreateFileDir behind the traversal, for an object that does not exist. The assertion on
  -- `sector` holds for -1 and fails for 0; with -1 the map is full and Allocate aborts.
  unfoldable pub create_object : TraversePath → Bool → ℕ → Option FileSystem
  create_object tr is_dir initial_size = do
    free_map ← new_from fs.free_map num_disk_sectors
    (found, free_map₁) ← find_and_set free_map
    sector ← found
    assert (not (sector == 0))
    let dir : Directory = (add tr.dir tr.name sector is_dir).1
    let size : ℕ = if is_dir then num_dir_entries * directory_entry_size else initial_size
    assert (ltb 0 size)
    (hdr, free_map₂) ← allocate leading_power free_map₁ size
    headers ← write_back sector hdr fs.headers
    let tables : ℕ → List DirectoryEntry =
        if is_dir
        then put_table fs.tables sector (Directory.write_back (Directory.new num_dir_entries))
        else fs.tables
    some (
        flush tr dir
          (record { free_map = Bitmap.write_back free_map₂; tables = tables; headers = headers }))

  -- FileSystem::CreateFileDir; Mkdir and Create are its calls.
  unfoldable pub create_file_dir : List ℕ → Bool → ℕ → Option (Bool × FileSystem)
  unfolding create_object traverse_path
  create_file_dir path is_dir initial_size = do
    tr ← traverse_path fs path is_dir
    assert tr.success
    if tr.exist
        then some (false, flush tr tr.dir fs)
        else (create_object tr is_dir initial_size >>= λ fs'. some (true, fs'))

-- FileSystem::RemoveSingleObj
unfoldable pub remove_single_obj : FileSystem → ℕ → Bitmap → Option Bitmap
remove_single_obj fs sector free_map = do
  file_hdr ← fetch_from fs.headers sector
  free_map₁ ← deallocate file_hdr free_map
  clear free_map₁ sector

-- FileSystem::Remove
unfoldable pub remove : FileSystem → List ℕ → Option (Bool × FileSystem)
unfolding remove_single_obj traverse_path
remove fs path = do
  tr ← traverse_path fs path false
  assert (tr.success && tr.exist)
  elim (find tr.dir tr.name false) [
    | none ↦ some (false, flush tr tr.dir fs)
    | some sector ↦ do
      free_map ← new_from fs.free_map num_disk_sectors
      free_map₁ ← remove_single_obj fs sector free_map
      some (
        true,
        flush tr (Directory.remove tr.dir tr.name false).1
            (record fs { free_map = Bitmap.write_back free_map₁ }),
      )
  ]
