-- ===== src/FileSystem/Examples.antt =====
-- A formatted disk with an empty root directory, and a path on it.
use nthu_operating_system_er.Base.{
  ℕ, zero, suc, ◌≤◌, ◌<◌, ◌^◌, ◌≡◌, refl, sym, subst, ◌∙◌, ap, true, false, List, [], ◌∷◌, ◌++◌,
  none, some, inl, inr, ◌⊎◌, Distinct, arith, ltb, if◌then◌else◌, pos, length, length-replicate,
  get_or, get_or-replicate, replicate, count,
}
use nthu_operating_system_er.Bitmap.{bit_of, words_for, count_clear}
use nthu_operating_system_er.Bitmap.Bits.{test_bit}
use nthu_operating_system_er.Directory
use nthu_operating_system_er.Directory.{
  DirectoryEntry, Directory, find, find_index, free_index, add, strncmp_is_zero,
}
use nthu_operating_system_er.Directory.Names.{IsDirectory}
use nthu_operating_system_er.Directory.Map.{new-IsDirectory, add_lem}
use nthu_operating_system_er.SynchDisk.{read_sector, num_disk_sectors}
use nthu_operating_system_er.FileHeader.{
  FileHeader, file_header, unused, leaf, additional, sectors_for,
}
use nthu_operating_system_er.FileHeader.Rounds.{IsPowerBelow}
use nthu_operating_system_er.FileSystem.{
  FileSystem, delimiter, parse_path, walk, directory_sector, num_dir_entries, fetch_directory,
  create_file_dir, remove,
}
use nthu_operating_system_er.FileSystem.Paths.{path_of, Clean, parse_path-path_of}
use nthu_operating_system_er.FileSystem.Created.{HasMap, Created}
use nthu_operating_system_er.FileHeader.Tree.{leaves}
use nthu_operating_system_er.FileHeader.Stored.{
  cache_of, data_sectors, map_word, fetch_header, fetch_from,
}
use nthu_operating_system_er.FileSystem.Remove.{freed, Removed, remove-Removed}
use nthu_operating_system_er.FileSystem.Create.{Resolves, resolved, create_file_dir-Created}

-- "t0" and "f1"
abbrev t0 : List ℕ
t0 = 116 ∷ 48 ∷ []

abbrev f1 : List ℕ
f1 = 102 ∷ 49 ∷ []

two_steps-Clean : Clean (t0 ∷ f1 ∷ [])
unfolding Clean count
two_steps-Clean = (refl, (refl, record {}))

two_steps-length : 0 < length (t0 ++ path_of (f1 ∷ []))
unfolding path_of
two_steps-length = omega arith

parse_path-path_of_example :
    parse_path (path_of (t0 ∷ f1 ∷ [])) ≡ some ((delimiter ∷ []) ∷ t0 ∷ f1 ∷ [])
parse_path-path_of_example = parse_path-path_of t0 (f1 ∷ []) two_steps-Clean two_steps-length

abbrev low_power : ℕ → ℕ
low_power n = 1

low_power-IsPowerBelow : IsPowerBelow low_power
low_power-IsPowerBelow n h = (0, refl, h)

-- Sectors 0 and 1 are taken.
abbrev map_words : ℕ → List ℕ
map_words n = 3 ∷ replicate n 0

abbrev formatted : FileSystem
formatted = record {
  free_map = map_words 32767;
  tables = λ sector. (Directory.new num_dir_entries).table;
  headers = λ sector. replicate 32 (pos 0);
}

small_words : (n i : ℕ) → get_or (map_words n) i 0 < 2 ^ 32
small_words n zero = omega arith
small_words n (suc i) = let z : ℕ = 0 in omega (arith, get_or-replicate n i z)

length-map_words : (n : ℕ) → length (map_words n) ≡ suc n
length-map_words n = let z : ℕ = 0 in ap suc (length-replicate n z)

fewer_rounds : (a n i : ℕ) (words : List ℕ) → a ≤ n → count_clear a i words ≤ count_clear n i words
unfolding count_clear
fewer_rounds zero n i words h = omega arith
fewer_rounds (suc a) zero i words h = absurd (omega arith)
fewer_rounds (suc a) (suc n) i words h = omega (arith, fewer_rounds a n (suc i) words (omega arith))

six_clear : (n : ℕ) → count_clear 8 0 (map_words n) ≡ 6
unfolding count_clear bit_of test_bit
six_clear n = refl

space : (n bits : ℕ) → 8 ≤ bits → 6 ≤ count_clear bits 0 (map_words n)
space n bits h = omega (arith, fewer_rounds 8 bits 0 (map_words n) h, six_clear n)

formatted-HasMap : HasMap formatted
formatted-HasMap = record {
  sized = length-map_words 32767 ∙ unfold words_for in refl;
  small = small_words 32767;
  first_taken = unfold bit_of in unfold test_bit in refl;
}

one_step-length : 0 < length (f1 ++ path_of [])
unfolding path_of
one_step-length = omega arith

new_path_parsed : parse_path (path_of (f1 ∷ [])) ≡ some ((delimiter ∷ []) ∷ f1 ∷ [])
unfolding Clean count
new_path_parsed = parse_path-path_of f1 [] (refl, record {}) one_step-length

new_path-Resolves : Resolves formatted (path_of (f1 ∷ [])) directory_sector f1
unfolding walk
new_path-Resolves = record {
  root = delimiter ∷ [];
  steps = f1 ∷ [];
  parsed = new_path_parsed;
  walked = refl;
  last = refl;
  short = omega arith;
}

one_sector : sectors_for 100 ≡ 1
unfolding sectors_for
one_sector = refl

same_root : fetch_directory formatted directory_sector ≡ Directory.new num_dir_entries
unfolding Directory.fetch_from Directory.new Directory.used
same_root = refl

root-IsDirectory : IsDirectory (fetch_directory formatted directory_sector)
root-IsDirectory = subst IsDirectory (sym same_root) (new-IsDirectory num_dir_entries f1 false).0

root-absent : find (fetch_directory formatted directory_sector) f1 false ≡ none
root-absent = ap (λ d. find d f1 false) same_root ∙ (new-IsDirectory num_dir_entries f1 false).1

create_file_dir-Created_example :
    (sector : ℕ) × (hdr : FileHeader) × (fs' : FileSystem) × (create_file_dir low_power formatted
        (path_of (f1 ∷ []))
        false
        100
      ≡ some (true, fs'))
    × Created formatted (resolved formatted directory_sector f1 false) false 100 sector hdr fs'
    × (find (fetch_directory fs' directory_sector) f1 false ≡ (
        if ltb
          (fetch_directory formatted directory_sector).count
          (fetch_directory formatted directory_sector).table_size
        then some sector
        else none))
create_file_dir-Created_example =
    create_file_dir-Created low_power formatted (path_of (f1 ∷ [])) directory_sector f1 false 100
      low_power-IsPowerBelow new_path-Resolves root-IsDirectory root-absent formatted-HasMap
      (omega arith) (omega (arith, one_sector))
      (omega (arith, one_sector, space 32767 num_disk_sectors (omega arith)))

-- The disk with a file f1 of one sector: its header is at 4, its data at 5.
abbrev one_leaf : FileHeader
one_leaf = file_header 100 1 1 (leaf 0 5 (unused 1))

abbrev one_entry : Directory
one_entry = (add (Directory.new num_dir_entries) f1 4 false).1

abbrev with_file : FileSystem
with_file = record {
  free_map = 51 ∷ replicate 32767 0;
  tables = λ sector. one_entry.table;
  headers = λ sector. cache_of one_leaf;
}

one_entry_lem : IsDirectory one_entry × (find one_entry f1 false ≡ some 4)
one_entry_lem =
    elim (add_lem (Directory.new num_dir_entries) f1 4 false
      (new-IsDirectory num_dir_entries f1 false).0) [
        | inl (run, inl (s, found)) ↦
            absurd (cc (found, (new-IsDirectory num_dir_entries f1 false).1))
        | inl (run, inr full) ↦ absurd (unfold Directory.new in omega arith)
        | inr (d', run, absent, changed, counts) ↦
            let same : d' ≡ one_entry = sym (ap (λ r. r.1) run) in
            (
              subst IsDirectory same changed.valid,
              ap (λ d. find d f1 false) (sym same)
                  ∙ changed.finds f1 false
                  ∙ unfold strncmp_is_zero in refl,
            )
      ]

one_entry-fetched : fetch_directory with_file directory_sector ≡ one_entry
unfolding Directory.fetch_from Directory.new Directory.used add find_index free_index
one_entry-fetched = refl

one_leaf-fetched : fetch_from with_file.headers 4 ≡ some one_leaf
unfolding fetch_from fetch_header cache_of data_sectors map_word test_bit additional read_sector
one_leaf-fetched = refl

file_words : (n i : ℕ) → get_or (51 ∷ replicate n 0) i 0 < 2 ^ 32
file_words n zero = omega arith
file_words n (suc i) = let z : ℕ = 0 in omega (arith, get_or-replicate n i z)

with_file-HasMap : HasMap with_file
with_file-HasMap = record {
  sized = (let z : ℕ = 0 in ap suc (length-replicate 32767 z)) ∙ unfold words_for in refl;
  small = file_words 32767;
  first_taken = unfold bit_of in unfold test_bit in refl;
}

with_file-Resolves : Resolves with_file (path_of (f1 ∷ [])) directory_sector f1
with_file-Resolves = record {
  root = delimiter ∷ [];
  steps = f1 ∷ [];
  parsed = new_path_parsed;
  walked = unfold walk in refl;
  last = refl;
  short = omega arith;
}

freed-Distinct : Distinct (freed one_leaf 4)
unfolding leaves count
freed-Distinct a = ground arith

freed_marked :
    (j : ℕ)
    → 0 < count j (freed one_leaf 4)
    → (bit_of with_file.free_map j ≡ true) × (j < num_disk_sectors)
freed_marked j h = elim (which j h) [
  | inl e ↦
      (ap (bit_of with_file.free_map) e ∙ unfold bit_of in unfold test_bit in refl, omega arith)
  | inr e ↦
      (ap (bit_of with_file.free_map) e ∙ unfold bit_of in unfold test_bit in refl, omega arith)
]
  where
    which : (j : ℕ) → 0 < count j (freed one_leaf 4) → (j ≡ 4) ⊎ (j ≡ 5)
    which j h = unfold leaves in unfold count in ground arith

remove-Removed_example :
    (fs' : FileSystem) × (remove with_file (path_of (f1 ∷ [])) ≡ some (true, fs'))
    × Removed with_file directory_sector f1 4 one_leaf fs'
remove-Removed_example =
    remove-Removed with_file (path_of (f1 ∷ [])) directory_sector f1 4 one_leaf with_file-Resolves
      (subst IsDirectory (sym one_entry-fetched) one_entry_lem.0)
      (ap (λ d. find d f1 false) one_entry-fetched ∙ one_entry_lem.1) one_leaf-fetched
      with_file-HasMap freed-Distinct freed_marked
