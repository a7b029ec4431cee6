-- ===== src/Directory/Entries.antt =====
-- The table as a partial map from names and kinds to sectors.
use nthu_operating_system_er.Base.{
  ℕ, zero, suc, ◌≡◌, refl, sym, ◌∙◌, Bool, true, false, ◌&&◌, List, [], ◌∷◌, Option, none, some,
  arith, if◌then◌else◌, ◌>>=◌, get_elem?, take, Bool-cases, Option-cases, inl, inr,
}
use nthu_operating_system_er.Directory.{
  DirectoryEntry, Directory, file_name_max_len, strncmp_is_zero, same_kind, matches, next_index,
  find_index, find, filled_entry,
}

-- Two names are one name to the directory: their first nine characters agree.
abbrev pub same_name : List ℕ → List ℕ → Bool
same_name = strncmp_is_zero file_name_max_len

strncmp-congruence :
    (n : ℕ) (a b c : List ℕ)
    → strncmp_is_zero n a b ≡ true
    → strncmp_is_zero n a c ≡ strncmp_is_zero n b c
unfolding strncmp_is_zero
strncmp-congruence zero a b c e = refl
strncmp-congruence (suc n) [] [] c e = refl
strncmp-congruence (suc n) (x ∷ xs) (y ∷ ys) [] e = refl
strncmp-congruence (suc n) (x ∷ xs) (y ∷ ys) (z ∷ zs) e =
    ground (arith, strncmp-congruence n xs ys zs)
strncmp-congruence (suc n) [] (y ∷ ys) c e = absurd (cc e)
strncmp-congruence (suc n) (x ∷ xs) [] c e = absurd (cc e)

pub strncmp_refl : (n : ℕ) (a : List ℕ) → strncmp_is_zero n a a ≡ true
unfolding strncmp_is_zero
strncmp_refl zero a = refl
strncmp_refl (suc n) [] = refl
strncmp_refl (suc n) (x ∷ xs) = ground (arith, strncmp_refl n xs)

strncmp-sym : (n : ℕ) (a b : List ℕ) → strncmp_is_zero n a b ≡ strncmp_is_zero n b a
unfolding strncmp_is_zero
strncmp-sym zero a b = refl
strncmp-sym (suc n) [] [] = refl
strncmp-sym (suc n) [] (y ∷ ys) = refl
strncmp-sym (suc n) (x ∷ xs) [] = refl
strncmp-sym (suc n) (x ∷ xs) (y ∷ ys) = ground (arith, strncmp-sym n xs ys)

pub strncmp-take : (n : ℕ) (a b : List ℕ) → strncmp_is_zero n (take n a) b ≡ strncmp_is_zero n a b
unfolding strncmp_is_zero
strncmp-take zero a b = refl
strncmp-take (suc n) [] b = refl
strncmp-take (suc n) (x ∷ xs) [] = refl
strncmp-take (suc n) (x ∷ xs) (y ∷ ys) = ground (arith, strncmp-take n xs ys)

-- What FindIndex and the read of the entry's sector come to.
unfoldable pub lookup : List DirectoryEntry → List ℕ → Bool → Option ℕ
lookup [] name is_dir = none
lookup (e ∷ es) name is_dir = if matches name is_dir e then some e.sector else lookup es name is_dir

find_index-lookup :
    (es : List DirectoryEntry) (name : List ℕ) (is_dir : Bool)
    → (find_index es name is_dir >>= λ i. get_elem? es i >>= λ e. some e.sector)
      ≡ lookup es name is_dir
unfolding find_index lookup
find_index-lookup [] name is_dir = refl
find_index-lookup (e ∷ es) name is_dir = elim (Bool-cases (matches name is_dir e)) [
  | inl m ↦ rw m
  | inr n ↦ rw n (shifted (find_index es name is_dir) ∙ find_index-lookup es name is_dir)
]
  where
    shifted :
        (r : Option ℕ)
        → (next_index r >>= λ i. get_elem? (e ∷ es) i >>= λ x. some x.sector)
          ≡ (r >>= λ i. get_elem? es i >>= λ x. some x.sector)
    shifted none = refl
    shifted (some i) = refl

pub find-lookup :
    (d : Directory) (name : List ℕ) (is_dir : Bool)
    → find d name is_dir ≡ lookup d.table name is_dir
unfolding find
find-lookup d name is_dir = find_index-lookup d.table name is_dir

pub find_index-none :
    (es : List DirectoryEntry) (name : List ℕ) (is_dir : Bool)
    → find_index es name is_dir ≡ none
    → lookup es name is_dir ≡ none
unfolding find_index lookup
find_index-none es name is_dir e = sym (find_index-lookup es name is_dir) ∙ rw e

pub find_index-some :
    (es : List DirectoryEntry) (name : List ℕ) (is_dir : Bool) (i : ℕ)
    → find_index es name is_dir ≡ some i
    → (sector : ℕ) × (lookup es name is_dir ≡ some sector)
unfolding find_index lookup
find_index-some [] name is_dir i e = absurd (cc e)
find_index-some (x ∷ es) name is_dir i e = elim (Bool-cases (matches name is_dir x)) [
  | inl m ↦ (x.sector, rw m)
  | inr n ↦ elim (Option-cases (find_index es name is_dir)) [
    | inl absent ↦ absurd (ground arith)
    | inr (k, found) ↦ let (sector, r) = find_index-some es name is_dir k found in (sector, rw n r)
  ]
]

-- One name and kind under another spelling is the same to every entry.
pub matches-congruence :
    (name other : List ℕ) (kind other_kind : Bool) (e : DirectoryEntry)
    → same_kind kind other_kind && same_name name other ≡ true
    → matches other other_kind e ≡ matches name kind e
unfolding matches
matches-congruence name other true true e h = ground (
  arith,
  strncmp-sym 9 e.name name,
  strncmp-sym 9 e.name other,
  strncmp-congruence 9 name other e.name,
)
matches-congruence name other false false e h = ground (
  arith,
  strncmp-sym 9 e.name name,
  strncmp-sym 9 e.name other,
  strncmp-congruence 9 name other e.name,
)
matches-congruence name other true false e h = absurd (ground arith)
matches-congruence name other false true e h = absurd (ground arith)

pub lookup-congruence :
    (name other : List ℕ) (kind other_kind : Bool) (es : List DirectoryEntry)
    → same_kind kind other_kind && same_name name other ≡ true
    → lookup es other other_kind ≡ lookup es name kind
unfolding lookup
lookup-congruence name other kind other_kind [] h = refl
lookup-congruence name other kind other_kind (e ∷ es) h = ground (
  arith,
  matches-congruence name other kind other_kind e h,
  lookup-congruence name other kind other_kind es h,
)

pub same_kind_refl : (kind : Bool) → same_kind kind kind ≡ true
same_kind_refl true = refl
same_kind_refl false = refl

-- An entry that is found under a name is in use and has that name and kind.
pub matches-same :
    (name : List ℕ) (kind : Bool) (e : DirectoryEntry)
    → matches name kind e ≡ true
    → (e.in_use ≡ true) × (same_kind e.is_dir kind && same_name e.name name ≡ true)
unfolding matches
matches-same name kind e h = (ground arith, ground arith)

pub matches-filled :
    (name other : List ℕ) (sector : ℕ) (kind other_kind : Bool)
    → matches other other_kind (filled_entry name sector kind)
      ≡ (same_kind kind other_kind && same_name name other)
unfolding matches
matches-filled name other sector kind other_kind = ground (arith, strncmp-take 9 name other)

-- The same test, with its sides swapped.
pub same-swap :
    (name other : List ℕ) (kind other_kind : Bool)
    → (same_kind kind other_kind && same_name name other)
      ≡ (same_kind other_kind kind && same_name other name)
same-swap name other true true = strncmp-sym 9 name other
same-swap name other false false = strncmp-sym 9 name other
same-swap name other true false = refl
same-swap name other false true = refl

pub matches-in_use :
    (name : List ℕ) (kind : Bool) (e : DirectoryEntry)
    → e.in_use ≡ true
    → matches name kind e ≡ (same_kind e.is_dir kind && same_name e.name name)
unfolding matches
matches-in_use name kind e h = rw h

-- The test is the same for two spellings of one name.
pub same_transport :
    (name alias other : List ℕ) (kind alias_kind other_kind : Bool)
    → same_kind kind alias_kind && same_name name alias ≡ true
    → (same_kind kind other_kind && same_name name other)
      ≡ (same_kind alias_kind other_kind && same_name alias other)
same_transport name alias other true true other_kind h =
    ground (arith, strncmp-congruence 9 name alias other)
same_transport name alias other false false other_kind h =
    ground (arith, strncmp-congruence 9 name alias other)
same_transport name alias other true false other_kind h = absurd (ground arith)
same_transport name alias other false true other_kind h = absurd (ground arith)

pub same_take : (name : List ℕ) → same_name name (take 9 name) ≡ true
same_take name = sym (strncmp-take 9 name (take 9 name)) ∙ strncmp_refl 9 (take 9 name)
