-- ===== src/Directory/Names.antt =====
-- What the writes of one entry by Add and Remove do to the map of names.
use nthu_operating_system_er.Base.{
  ℕ, zero, suc, ◌≡◌, refl, sym, ◌∙◌, ap, Bool, true, false, ◌&&◌, List, [], ◌∷◌, Option, none, some,
  arith, if◌then◌else◌, set, take, length, Bool-cases, inl, inr, subst,
}
use nthu_operating_system_er.Directory.{
  DirectoryEntry, Directory, same_kind, matches, next_index, find_index, free_index, filled_entry,
  drop_entry, used,
}
use nthu_operating_system_er.Directory.Entries.{
  same_name, lookup, matches-congruence, lookup-congruence, same_kind_refl, same_take,
  same_transport, matches-same, matches-filled, same-swap, matches-in_use,
}

-- No name of a kind is in use twice.
abbrev pub Unique : List DirectoryEntry → Type 0
Unique [] = Unit {0}
Unique (e ∷ es) = (e.in_use ≡ true → lookup es e.name e.is_dir ≡ none) × Unique es

pub record IsDirectory (d : Directory) : Type 0 where
  pub unique : Unique d.table
  pub counted : d.count ≡ used d.table
  pub sized : length d.table ≡ d.table_size

next_index-some :
    (r : Option ℕ) (i : ℕ) → next_index r ≡ some i → (j : ℕ) × (r ≡ some j) × (i ≡ suc j)
next_index-some none i e = absurd (cc e)
next_index-some (some j) i e = (j, refl, ground arith)

lookup-cons :
    (e : DirectoryEntry) (es : List DirectoryEntry) (name : List ℕ) (kind : Bool)
    → lookup (e ∷ es) name kind ≡ none
    → (matches name kind e ≡ false) × (lookup es name kind ≡ none)
unfolding lookup
lookup-cons e es name kind h = (ground arith, ground arith)

lookup-dropped :
    (e : DirectoryEntry) (es : List DirectoryEntry) (name : List ℕ) (kind : Bool)
    → lookup (record e { in_use = false } ∷ es) name kind ≡ lookup es name kind
unfolding lookup matches
lookup-dropped e es name kind = refl

module _ (name : List ℕ) (sector : ℕ) (kind : Bool) where
  pub lookup-set :
      (es : List DirectoryEntry) (i : ℕ) (other : List ℕ) (other_kind : Bool)
      → free_index es ≡ some i
      → lookup es name kind ≡ none
      → lookup (set es i (filled_entry name sector kind)) other other_kind ≡ (
          if same_kind kind other_kind && same_name name other
          then some sector
          else lookup es other other_kind)
  unfolding lookup free_index
  lookup-set [] i other other_kind f absent = absurd (cc f)
  lookup-set (e ∷ es) i other other_kind f absent = elim (Bool-cases e.in_use) [
    | inr free ↦
        let first : zero ≡ i = ground arith in
        let idle : matches other other_kind e ≡ false = unfold matches in ground arith in
        subst
          (λ (k : ℕ). lookup (set (e ∷ es) k (filled_entry name sector kind)) other other_kind ≡ (
            if same_kind kind other_kind && same_name name other
            then some sector
            else lookup (e ∷ es) other other_kind))
          first (rw (idle, matches-filled name other sector kind other_kind))
    | inl busy ↦
        let (j, g, e_i) = next_index-some (free_index es) i (rw busy at f) in
        let (miss, rest) = lookup-cons e es name kind absent in
        rw e_i (
          ground (
            arith,
            lookup-set es j other other_kind g rest,
            matches-congruence name other kind other_kind e,
          ))
  ]

  pub set-Unique :
      (es : List DirectoryEntry) (i : ℕ)
      → free_index es ≡ some i
      → lookup es name kind ≡ none
      → Unique es
      → Unique (set es i (filled_entry name sector kind))
  unfolding free_index
  set-Unique [] i f absent u = absurd (cc f)
  set-Unique (e ∷ es) i f absent u = elim (Bool-cases e.in_use) [
    | inr free ↦
        let first : zero ≡ i = ground arith in
        let (miss, rest) = lookup-cons e es name kind absent in
        subst (λ (k : ℕ). Unique (set (e ∷ es) k (filled_entry name sector kind))) first
          (
            λ busy.
                lookup-congruence name (take 9 name) kind kind es
                  (rw (same_kind_refl kind, same_take name))
                ∙ rest,
            u.1,
          )
    | inl busy ↦
        let (j, g, e_i) = next_index-some (free_index es) i (rw busy at f) in
        let (miss, rest) = lookup-cons e es name kind absent in
        rw e_i (
          λ b. ground (
            arith,
            u.0 b,
            lookup-set es j e.name e.is_dir g rest,
            matches-in_use name kind e b,
            same-swap name e.name kind e.is_dir,
          ),
          set-Unique es j g rest u.1,
        )
  ]

  pub used-set :
      (es : List DirectoryEntry) (i : ℕ)
      → free_index es ≡ some i
      → used (set es i (filled_entry name sector kind)) ≡ suc (used es)
  unfolding used free_index
  used-set [] i f = absurd (cc f)
  used-set (e ∷ es) i f = elim (Bool-cases e.in_use) [
    | inr free ↦ ground arith
    | inl busy ↦
        let (j, g, e_i) = next_index-some (free_index es) i (rw busy at f) in
        rw e_i (ground (arith, used-set es j g))
  ]

  dropped-head :
      (e : DirectoryEntry) (es : List DirectoryEntry) (other : List ℕ) (other_kind : Bool)
      → Unique (e ∷ es)
      → matches name kind e ≡ true
      → lookup es other other_kind ≡ (
          if same_kind kind other_kind && same_name name other
          then none
          else lookup (e ∷ es) other other_kind)
  unfolding lookup
  dropped-head e es other other_kind u found =
      let (busy, same) = matches-same name kind e found in
      elim (Bool-cases (same_kind kind other_kind && same_name name other)) [
        | inl equal ↦ rw equal (
            lookup-congruence name other kind other_kind es equal
            ∙ lookup-congruence e.name name e.is_dir kind es same
            ∙ u.0 busy)
        | inr differ ↦
            let miss : matches other other_kind e ≡ false =
              matches-in_use other other_kind e busy
              ∙ same_transport e.name name other e.is_dir kind other_kind same
              ∙ differ in
            rw (differ, miss)
      ]

  kept-head :
      (e : DirectoryEntry) (es : List DirectoryEntry) (other : List ℕ) (other_kind : Bool)
      → matches name kind e ≡ false
      → (if matches other other_kind e
          then some e.sector
          else if same_kind kind other_kind && same_name name other
          then none
          else lookup es other other_kind)
        ≡ (if same_kind kind other_kind && same_name name other
            then none
            else lookup (e ∷ es) other other_kind)
  unfolding lookup
  kept-head e es other other_kind miss =
      elim (Bool-cases (same_kind kind other_kind && same_name name other)) [
        | inl equal ↦ rw (equal, matches-congruence name other kind other_kind e equal, miss)
        | inr differ ↦ rw differ
      ]

  -- Dropping the entry of a name makes that name unknown, and no other.
  pub lookup-drop_entry :
      (es : List DirectoryEntry) (i : ℕ) (other : List ℕ) (other_kind : Bool)
      → Unique es
      → find_index es name kind ≡ some i
      → lookup (drop_entry es i) other other_kind ≡ (
          if same_kind kind other_kind && same_name name other
          then none
          else lookup es other other_kind)
  unfolding lookup find_index drop_entry
  lookup-drop_entry [] i other other_kind u f = absurd (cc f)
  lookup-drop_entry (e ∷ es) i other other_kind u f = elim (Bool-cases (matches name kind e)) [
    | inl found ↦
        let first : zero ≡ i = ground arith in
        let (busy, same) = matches-same name kind e found in
        subst
          (λ (k : ℕ). lookup (drop_entry (e ∷ es) k) other other_kind ≡ (
            if same_kind kind other_kind && same_name name other
            then none
            else lookup (e ∷ es) other other_kind))
          first (lookup-dropped e es other other_kind ∙ dropped-head e es other other_kind u found)
    | inr miss ↦
        let (j, g, e_i) = next_index-some (find_index es name kind) i (rw miss at f) in
        rw e_i (
          ap (λ (r : Option ℕ). if matches other other_kind e then some e.sector else r)
            (lookup-drop_entry es j other other_kind u.1 g)
          ∙ kept-head e es other other_kind miss)
  ]

  pub drop_entry-Unique :
      (es : List DirectoryEntry) (i : ℕ)
      → Unique es
      → find_index es name kind ≡ some i
      → Unique (drop_entry es i)
  unfolding find_index drop_entry
  drop_entry-Unique [] i u f = absurd (cc f)
  drop_entry-Unique (e ∷ es) i u f = elim (Bool-cases (matches name kind e)) [
    | inl found ↦
        let first : zero ≡ i = ground arith in
        subst (λ (k : ℕ). Unique (drop_entry (e ∷ es) k)) first (λ busy. absurd (cc busy), u.1)
    | inr miss ↦
        let (j, g, e_i) = next_index-some (find_index es name kind) i (rw miss at f) in
        rw e_i (
          λ b. ground (arith, u.0 b, lookup-drop_entry es j e.name e.is_dir u.1 g),
          drop_entry-Unique es j u.1 g,
        )
  ]

  pub used-drop_entry :
      (es : List DirectoryEntry) (i : ℕ)
      → find_index es name kind ≡ some i
      → (used es ≡ suc (used (drop_entry es i))) × (length (drop_entry es i) ≡ length es)
  unfolding used find_index drop_entry
  used-drop_entry [] i f = absurd (cc f)
  used-drop_entry (e ∷ es) i f = elim (Bool-cases (matches name kind e)) [
    | inl found ↦
        let first : zero ≡ i = ground arith in
        let (busy, same) = matches-same name kind e found in
        (rw (sym first, busy, drop_entry) (omega arith), rw (sym first, drop_entry) refl)
    | inr miss ↦
        let (j, g, e_i) = next_index-some (find_index es name kind) i (rw miss at f) in
        let (a, b) = used-drop_entry es j g in
        (rw e_i (ground (arith, a)), rw e_i (ground (arith, b)))
  ]
