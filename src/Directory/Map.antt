-- ===== src/Directory/Map.antt =====
-- A directory is a finite map from names and kinds to sectors: Find reads it, Add and Remove are its
-- updates, and WriteBack and FetchFrom keep it.
use nthu_operating_system_er.Base.{
  ℕ, zero, suc, ◌+◌, ◌-◌, ◌≡◌, refl, sym, ◌∙◌, ap, Bool, true, false, ◌&&◌, List, [], ◌∷◌, Option,
  none, some, arith, if◌then◌else◌, length, set, Option-cases, inl, inr, ◌⊎◌, length-set, replicate,
  length-replicate,
}
use nthu_operating_system_er.Directory.{
  DirectoryEntry, Directory, new, zeroed_entry, same_kind, find_index, find, free_index,
  filled_entry, add, drop_entry, remove, used, fetch_from, write_back, matches,
}
use nthu_operating_system_er.Directory.Entries.{
  same_name, lookup, find-lookup, find_index-none, find_index-some,
}
use nthu_operating_system_er.Directory.Names.{
  Unique, IsDirectory, lookup-set, set-Unique, used-set, lookup-drop_entry, drop_entry-Unique,
  used-drop_entry,
}

free_index-none : (es : List DirectoryEntry) → free_index es ≡ none → used es ≡ length es
unfolding free_index used
free_index-none [] e = refl
free_index-none (x ∷ es) e = elim (Option-cases (free_index es)) [
  | inl full ↦ ground (arith, free_index-none es full)
  | inr (i, free) ↦ absurd (ground arith)
]

-- The map of a directory has changed at one name and kind, and nowhere else.
pub record Changed (d : Directory) (name : List ℕ) (kind : Bool) (value : Option ℕ) (d' : Directory)
    : Type 0 where
  pub finds :
      (other : List ℕ) (other_kind : Bool)
      → find d' other other_kind ≡ (
          if same_kind kind other_kind && same_name name other
          then value
          else find d other other_kind)
  pub valid : IsDirectory d'

-- On a valid directory `Add` returns FALSE and changes nothing if the name is there with that kind,
-- or if all entries are in use; otherwise it returns TRUE, and from then on Find gives the new sector
-- for the name (up to its ninth character) with that kind, and what it gave before for all others;
-- the count grows by one, and the directory stays valid.
pub add_lem :
    (d : Directory) (name : List ℕ) (new_sector : ℕ) (kind : Bool)
    → IsDirectory d
    → ((add d name new_sector kind ≡ (false, d))
        × (((sector : ℕ) × (find d name kind ≡ some sector)) ⊎ (d.count ≡ d.table_size)))
      ⊎ ((d' : Directory) × (add d name new_sector kind ≡ (true, d'))
          × (find d name kind ≡ none)
          × Changed d name kind (some new_sector) d'
          × (d'.count ≡ d.count + 1))
unfolding add
add_lem d name new_sector kind v = elim (Option-cases (find_index d.table name kind)) [
  | inr (i, found) ↦
      let (sector, here) = find_index-some d.table name kind i found in
      inl (rw (add, found), inl (sector, find-lookup d name kind ∙ here))
  | inl absent ↦
      let unknown = find_index-none d.table name kind absent in
      elim (Option-cases (free_index d.table)) [
        | inl full ↦ inl (
          rw (add, absent, full),
          inr (omega (arith, v.counted, v.sized, free_index-none d.table full)),
        )
        | inr (i, free) ↦
            let d' : Directory = record d {
              table = set d.table i (filled_entry name new_sector kind);
              count = d.count + 1;
            } in
            inr (
              d',
              rw (add, absent, free),
              find-lookup d name kind ∙ unknown,
              record {
                finds = λ other other_kind.
                    find-lookup d' other other_kind
                    ∙ lookup-set name new_sector kind d.table i other other_kind free unknown
                    ∙ ap
                        (λ r.
                          if same_kind kind other_kind && same_name name other
                          then some new_sector
                          else r)
                        (sym (find-lookup d other other_kind));
                valid = record {
                  unique = set-Unique name new_sector kind d.table i free unknown v.unique;
                  counted = omega (arith, v.counted, used-set name new_sector kind d.table i free);
                  sized = length-set d.table i (filled_entry name new_sector kind) ∙ v.sized;
                };
              },
              refl,
            )
      ]
]

-- On a valid directory `Remove` returns FALSE and changes nothing if the name is not there with that
-- kind; otherwise it returns TRUE, and from then on Find does not find the name with that kind, and
-- gives what it gave before for all others; the count falls by one, and the directory stays valid.
pub remove_lem :
    (d : Directory) (name : List ℕ) (kind : Bool)
    → IsDirectory d
    → ((remove d name kind ≡ (false, d)) × (find d name kind ≡ none))
      ⊎ ((d' : Directory) × (sector : ℕ) × (remove d name kind ≡ (true, d'))
          × (find d name kind ≡ some sector)
          × Changed d name kind none d'
          × (d.count ≡ d'.count + 1))
unfolding remove
remove_lem d name kind v = elim (Option-cases (find_index d.table name kind)) [
  | inl absent ↦
      inl (rw (remove, absent), find-lookup d name kind ∙ find_index-none d.table name kind absent)
  | inr (i, found) ↦
      let (sector, here) = find_index-some d.table name kind i found in
      let (fewer, same_length) = used-drop_entry name sector kind d.table i found in
      let d' : Directory = record d { table = drop_entry d.table i; count = d.count - 1 } in
      inr (
        d',
        sector,
        rw (remove, found),
        find-lookup d name kind ∙ here,
        record {
          finds = λ other other_kind.
              find-lookup d' other other_kind
              ∙ lookup-drop_entry name sector kind d.table i other other_kind v.unique found
              ∙ ap (λ r. if same_kind kind other_kind && same_name name other then none else r)
                  (sym (find-lookup d other other_kind));
          valid = record {
            unique = drop_entry-Unique name sector kind d.table i v.unique found;
            counted = omega (arith, v.counted, fewer);
            sized = same_length ∙ v.sized;
          };
        },
        omega (arith, v.counted, fewer),
      )
]

-- A valid directory that is written back and fetched into any directory of its size is the same.
pub fetch_from-write_back :
    (d fresh : Directory)
    → IsDirectory d
    → fresh.table_size ≡ d.table_size
    → ((fetch_from fresh (write_back d)).table ≡ d.table)
      × ((fetch_from fresh (write_back d)).count ≡ d.count)
      × IsDirectory (fetch_from fresh (write_back d))
unfolding fetch_from write_back
fetch_from-write_back d fresh v size =
    (refl, sym v.counted, record { unique = v.unique; counted = refl; sized = v.sized ∙ sym size })

zeroed-table :
    (n : ℕ) (name : List ℕ) (kind : Bool)
    → (lookup (replicate n zeroed_entry) name kind ≡ none)
      × Unique (replicate n zeroed_entry)
      × (used (replicate n zeroed_entry) ≡ 0)
unfolding lookup used matches
zeroed-table zero name kind = (refl, tt, refl)
zeroed-table (suc n) name kind =
    let (a, b, c) = zeroed-table n name kind in (a, (λ busy. absurd (cc busy), b), omega (arith, c))

-- A new directory is valid and finds no name.
pub new-IsDirectory :
    (size : ℕ) (name : List ℕ) (kind : Bool)
    → IsDirectory (new size) × (find (new size) name kind ≡ none)
unfolding new
new-IsDirectory size name kind =
    let (empty, unique, none_used) = zeroed-table size name kind in
    (
      record {
        unique = unique;
        counted = sym none_used;
        sized = length-replicate size zeroed_entry;
      },
      find-lookup (new size) name kind ∙ empty,
    )
