-- ===== src/Directory.antt =====
-- MP4 code/filesys/directory.cc and directory.h: the table of entries of a directory. A name is the
-- list of its characters before the '\0'; the result -1 is `none`. The file that holds a directory
-- is the list of entries that is read or written.
pub mod Entries
pub mod Names
pub mod Map
pub mod Examples
use nthu_operating_system_er.Base.{
  ℕ, zero, suc, ◌+◌, ◌-◌, Bool, true, false, ◌&&◌, not, List, [], ◌∷◌, Option, none, some, ◌==◌,
  if◌then◌else◌, ◌>>=◌, get_elem?, set, take, replicate, length,
}

abbrev pub file_name_max_len : ℕ
file_name_max_len = 9

pub record DirectoryEntry : Type 0 where
  pub is_dir : Bool
  pub in_use : Bool
  pub sector : ℕ
  pub name : List ℕ

pub record Directory : Type 0 where
  pub table_size : ℕ
  pub table : List DirectoryEntry
  pub count : ℕ

-- What memset leaves of an entry.
abbrev pub zeroed_entry : DirectoryEntry
zeroed_entry = record { is_dir = false; in_use = false; sector = 0; name = [] }

unfoldable pub new : ℕ → Directory
new size = record { table_size = size; table = replicate size zeroed_entry; count = 0 }

-- !strncmp(a, b, n)
unfoldable pub strncmp_is_zero : ℕ → List ℕ → List ℕ → Bool
strncmp_is_zero zero a b = true
strncmp_is_zero (suc n) [] [] = true
strncmp_is_zero (suc n) (x ∷ xs) (y ∷ ys) = x == y && strncmp_is_zero n xs ys
strncmp_is_zero (suc n) _ _ = false

abbrev pub same_kind : Bool → Bool → Bool
same_kind true b = b
same_kind false b = not b

-- The test of FindIndex on one entry.
unfoldable pub matches : List ℕ → Bool → DirectoryEntry → Bool
unfolding strncmp_is_zero
matches name is_dir e =
    e.in_use && same_kind e.is_dir is_dir && strncmp_is_zero file_name_max_len e.name name

abbrev pub next_index : Option ℕ → Option ℕ
next_index none = none
next_index (some i) = some (suc i)

unfoldable pub find_index : List DirectoryEntry → List ℕ → Bool → Option ℕ
unfolding matches
find_index [] name is_dir = none
find_index (e ∷ es) name is_dir =
    if matches name is_dir e then some 0 else next_index (find_index es name is_dir)

unfoldable pub find : Directory → List ℕ → Bool → Option ℕ
unfolding find_index
find d name is_dir = do i ← find_index d.table name is_dir; e ← get_elem? d.table i; some e.sector

-- The loop of Add: the first entry that is not in use.
unfoldable pub free_index : List DirectoryEntry → Option ℕ
free_index [] = none
free_index (e ∷ es) = if e.in_use then next_index (free_index es) else some 0

abbrev pub filled_entry : List ℕ → ℕ → Bool → DirectoryEntry
filled_entry name new_sector is_dir = record {
  is_dir = is_dir;
  in_use = true;
  sector = new_sector;
  name = take file_name_max_len name;
}

unfoldable pub add : Directory → List ℕ → ℕ → Bool → Bool × Directory
unfolding find_index free_index
add d name new_sector is_dir = elim (find_index d.table name is_dir) [
  | some i ↦ (false, d)
  | none ↦ elim (free_index d.table) [
    | none ↦ (false, d)
    | some i ↦ (
      true,
      record d { table = set d.table i (filled_entry name new_sector is_dir); count = d.count + 1 },
    )
  ]
]

-- table[i].inUse = FALSE
unfoldable pub drop_entry : List DirectoryEntry → ℕ → List DirectoryEntry
drop_entry [] i = []
drop_entry (e ∷ es) zero = record e { in_use = false } ∷ es
drop_entry (e ∷ es) (suc i) = e ∷ drop_entry es i

unfoldable pub remove : Directory → List ℕ → Bool → Bool × Directory
unfolding find_index drop_entry
remove d name is_dir = elim (find_index d.table name is_dir) [
  | none ↦ (false, d)
  | some i ↦ (true, record d { table = drop_entry d.table i; count = d.count - 1 })
]

-- The count of FetchFrom.
unfoldable pub used : List DirectoryEntry → ℕ
used [] = 0
used (e ∷ es) = (if e.in_use then 1 else 0) + used es

-- FetchFrom a file that holds the table.
unfoldable pub fetch_from : Directory → List DirectoryEntry → Directory
unfolding used
fetch_from d contents = record d { table = contents; count = used contents }

unfoldable pub write_back : Directory → List DirectoryEntry
write_back d = d.table
