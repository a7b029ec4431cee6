-- ===== src/FileHeader/Written.antt =====
-- What FileHeader::WriteBack leaves on the disk.
use nthu_operating_system_er.Base.{
  ℕ, ◌<◌, ◌≡◌, ◌≢◌, refl, sym, ◌∙◌, ap, List, ◌∷◌, ◌++◌, some, arith, ℤ, count, count-append,
  count-cons, count-cons_self, Distinct,
}
use nthu_operating_system_er.SynchDisk.{Disk, num_disk_sectors, write_sector-inside}
use nthu_operating_system_er.FileHeader.{FileHeader, file_header, Slots, unused, leaf, node}
use nthu_operating_system_er.FileHeader.Tree.{headers, slot_headers}
use nthu_operating_system_er.FileHeader.Stored.{cache_of, write_back, write_back_slots}

-- The sectors of the tree's headers hold them.
unfoldable mutual
  pub IsStored : Disk (List ℤ) → ℕ → FileHeader → Type 0
  IsStored disk sector (file_header num_bytes num_sectors additional_sector slots) =
      (sector < num_disk_sectors)
      × (disk sector ≡ cache_of (file_header num_bytes num_sectors additional_sector slots))
      × AreStored disk slots

  pub AreStored : Disk (List ℤ) → Slots → Type 0
  AreStored disk (unused start) = Unit {0}
  AreStored disk (leaf start sector rest) = AreStored disk rest
  AreStored disk (node start sector child rest) = IsStored disk sector child × AreStored disk rest

abbrev pub Inside : List ℕ → Type 0
Inside sectors = (j : ℕ) → 0 < count j sectors → j < num_disk_sectors

abbrev Agree : List ℕ → Disk (List ℤ) → Disk (List ℤ) → Type 0
Agree sectors disk disk' = (t : ℕ) → 0 < count t sectors → disk' t ≡ disk t

-- Writes of other sectors keep what is stored.
mutual
  unfolding IsStored headers

  IsStored-Agree :
      (disk disk' : Disk (List ℤ)) (sector : ℕ) (h : FileHeader)
      → Agree (sector ∷ headers h) disk disk'
      → IsStored disk sector h
      → IsStored disk' sector h
  IsStored-Agree disk disk' sector (file_header nb ns ad slots) same stored = (
    stored.0,
    same sector (omega (arith, count-cons_self sector (slot_headers slots))) ∙ stored.1,
    AreStored-Agree disk disk' slots
        (λ t k. same t (omega (arith, count-cons t sector (slot_headers slots)))) stored.2,
  )

  AreStored-Agree :
      (disk disk' : Disk (List ℤ)) (slots : Slots)
      → Agree (slot_headers slots) disk disk'
      → AreStored disk slots
      → AreStored disk' slots
  AreStored-Agree disk disk' (unused start) same stored = stored
  AreStored-Agree disk disk' (leaf start sector rest) same stored =
      AreStored-Agree disk disk' rest same stored
  AreStored-Agree disk disk' (node start sector child rest) same stored = (
    IsStored-Agree disk disk' sector child
        (λ t k. same t (
          omega (
            arith,
            count-append t (headers child) (slot_headers rest),
            count-cons t sector (headers child),
            count-cons t sector (headers child ++ slot_headers rest),
          )))
        stored.0,
    AreStored-Agree disk disk' rest
        (λ t k. same t (
          omega (
            arith,
            count-append t (headers child) (slot_headers rest),
            count-cons t sector (headers child ++ slot_headers rest),
          )))
        stored.1,
  )

-- What a write of these sectors leaves.
abbrev Untouched : List ℕ → Disk (List ℤ) → Disk (List ℤ) → Type 0
Untouched sectors disk disk' = (t : ℕ) → count t sectors ≡ 0 → disk' t ≡ disk t

count_ne : (t s : ℕ) (xs : List ℕ) → count t (s ∷ xs) ≡ 0 → (t ≢ s) × (count t xs ≡ 0)
count_ne t s xs h = (
  λ e. absurd (omega (arith, h, ap (λ (x : ℕ). count t (x ∷ xs)) (sym e), count-cons_self t xs)),
  omega (arith, count-cons t s xs),
)

mutual
  unfolding IsStored headers write_back

  pub write_back-IsStored :
      (sector : ℕ) (h : FileHeader) (disk : Disk (List ℤ))
      → Inside (sector ∷ headers h)
      → Distinct (sector ∷ headers h)
      → (disk' : Disk (List ℤ)) × (write_back sector h disk ≡ some disk')
        × IsStored disk' sector h
        × Untouched (sector ∷ headers h) disk disk'
  write_back-IsStored sector (file_header nb ns ad slots) disk inside distinct =
      let mine = count-cons_self sector (slot_headers slots) in
      let here : sector < num_disk_sectors = inside sector (omega (arith, mine)) in
      let (disk₁, run₁, written, same₁) =
        write_sector-inside disk sector (cache_of (file_header nb ns ad slots)) here in
      let (disk₂, run₂, stored, same₂) =
        write_back_slots-AreStored slots disk₁
          (λ j k. inside j (omega (arith, count-cons j sector (slot_headers slots))))
          (λ j. omega (arith, distinct j, count-cons j sector (slot_headers slots))) in
      (
        disk₂,
        rw (run₁, run₂),
        (here, same₂ sector (omega (arith, distinct sector, mine)) ∙ written, stored),
        λ t k.
            let (apart, absent) = count_ne t sector (slot_headers slots) k in
            same₂ t absent ∙ same₁ t apart,
      )

  write_back_slots-AreStored :
      (slots : Slots) (disk : Disk (List ℤ))
      → Inside (slot_headers slots)
      → Distinct (slot_headers slots)
      → (disk' : Disk (List ℤ)) × (write_back_slots slots disk ≡ some disk')
        × AreStored disk' slots
        × Untouched (slot_headers slots) disk disk'
  write_back_slots-AreStored (unused start) disk inside distinct = (disk, refl, tt, λ t k. refl)
  write_back_slots-AreStored (leaf start sector rest) disk inside distinct =
      write_back_slots-AreStored rest disk inside distinct
  write_back_slots-AreStored (node start sector child rest) disk inside distinct =
      let split = λ (t : ℕ). count-append t (sector ∷ headers child) (slot_headers rest) in
      let (disk₁, run₁, stored₁, same₁) =
        write_back-IsStored sector child disk (λ j k. inside j (omega (arith, split j)))
          (λ j. omega (arith, distinct j, split j)) in
      let (disk₂, run₂, stored₂, same₂) =
        write_back_slots-AreStored rest disk₁ (λ j k. inside j (omega (arith, split j)))
          (λ j. omega (arith, distinct j, split j)) in
      (
        disk₂,
        rw (run₁, run₂),
        (
          IsStored-Agree disk₁ disk₂ sector child
              (λ t k. same₂ t (omega (arith, distinct t, split t))) stored₁,
          stored₂,
        ),
        λ t k. same₂ t (omega (arith, split t)) ∙ same₁ t (omega (arith, split t)),
      )
