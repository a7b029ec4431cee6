-- ===== src/Directory/Examples.antt =====
-- A directory with room for three entries, two of which are in use.
use nthu_operating_system_er.Base.{ℕ, ◌≡◌, refl, true, false, List, [], ◌∷◌, none, some}
use nthu_operating_system_er.Directory.{Directory, find, matches, strncmp_is_zero, used}
use nthu_operating_system_er.Directory.Entries.{lookup}
use nthu_operating_system_er.Directory.Names.{IsDirectory}

-- "ab"
abbrev ab : List ℕ
ab = 97 ∷ 98 ∷ []

-- A file and a directory of one name, and a free entry with an old name between them.
abbrev two_entries : Directory
two_entries = record {
  table_size = 3;
  table =
      record { is_dir = false; in_use = true; sector = 5; name = ab }
      ∷ record { is_dir = false; in_use = false; sector = 7; name = 99 ∷ [] }
      ∷ record { is_dir = true; in_use = true; sector = 9; name = ab }
      ∷ [];
  count = 2;
}

two_entries-IsDirectory : IsDirectory two_entries
unfolding lookup matches strncmp_is_zero used
two_entries-IsDirectory = record {
  unique = (λ u. refl, (λ u. absurd (cc u), (λ u. refl, tt)));
  counted = refl;
  sized = refl;
}

find_run : find two_entries ab true ≡ some 9
unfolding find matches strncmp_is_zero
find_run = refl

find_removed_run : find two_entries (99 ∷ []) false ≡ none
unfolding find matches strncmp_is_zero
find_removed_run = refl
