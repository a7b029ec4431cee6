-- ===== src/FileHeader/RoundTrip.antt =====
-- FileHeader::FetchFrom of what FileHeader::WriteBack has written.
use nthu_operating_system_er.Base.{
  ℕ, zero, suc, ◌+◌, ◌-◌, ◌*◌, ◌≤◌, ◌<◌, ◌≡◌, refl, subst, ◌∙◌, true, false, List, ◌∷◌, ◌++◌, some,
  arith, ℤ, length, length-append, length-replicate, replicate, take, take-all, count, Distinct,
}
use nthu_operating_system_er.Bitmap.Bits.{test_bit, test_bit-set_bit, test_bit-zero}
use nthu_operating_system_er.SynchDisk.{Disk, num_disk_sectors, read_sector-inside}
use nthu_operating_system_er.FileHeader.{
  FileHeader, file_header, Slots, unused, leaf, node, num_sectors_of, n_sectors,
}
use nthu_operating_system_er.FileHeader.Tree.{
  leaves, slot_leaves, headers, slot_headers, width, IsHeader, IsSlots, num_sectors_of-leaves,
}
use nthu_operating_system_er.FileHeader.Written.{IsStored, AreStored, write_back-IsStored}
use nthu_operating_system_er.FileHeader.Stored.{
  invalid_sector, map_word, data_sectors, cache_of, write_back, fetch_header, fetch_slots,
  fetch_from,
}

-- The fuel that a fetch of the tree takes.
unfoldable mutual
  depth : FileHeader → ℕ
  depth (file_header num_bytes num_sectors additional_sector slots) = suc (slot_depth slots)

  slot_depth : Slots → ℕ
  slot_depth (unused start) = 1
  slot_depth (leaf start sector rest) = suc (slot_depth rest)
  slot_depth (node start sector child rest) = suc (depth child + slot_depth rest)

mutual
  unfolding depth headers IsHeader width

  depth-headers :
      (h : FileHeader) (current : ℕ)
      → IsHeader h current
      → depth h ≤ (n_sectors + 2) * (1 + length (headers h))
  depth-headers (file_header nb ns ad slots) current v =
      omega (arith, slot_depth-slot_headers slots current v.3, v.2)

  slot_depth-slot_headers :
      (slots : Slots) (current : ℕ)
      → IsSlots slots current
      → slot_depth slots ≤ 1 + width slots + (n_sectors + 2) * length (slot_headers slots)
  slot_depth-slot_headers (unused start) current v = omega arith
  slot_depth-slot_headers (leaf start sector rest) current v =
      omega (arith, slot_depth-slot_headers rest (suc current) v.1)
  slot_depth-slot_headers (node start sector child rest) current v = omega (
    arith,
    depth-headers child current v.1,
    slot_depth-slot_headers rest (current + num_sectors_of child) v.2,
    length-append (headers child) (slot_headers rest),
  )

slot_depth-positive : (slots : Slots) → 1 ≤ slot_depth slots
unfolding depth
slot_depth-positive (unused start) = omega arith
slot_depth-positive (leaf start sector rest) = omega arith
slot_depth-positive (node start sector child rest) = omega arith

-- The word tells the nodes from the leaves, from slot i on.
unfoldable Tells : ℕ → ℕ → Slots → Type 0
Tells word i (unused start) = test_bit word i ≡ false
Tells word i (leaf start sector rest) = (test_bit word i ≡ false) × Tells word (suc i) rest
Tells word i (node start sector child rest) = (test_bit word i ≡ true) × Tells word (suc i) rest

map_word-below : (slots : Slots) (i j : ℕ) → j < i → test_bit (map_word i slots) j ≡ false
unfolding map_word
map_word-below (unused start) i j h = test_bit-zero j
map_word-below (leaf start sector rest) i j h = map_word-below rest (suc i) j (omega arith)
map_word-below (node start sector child rest) i j h = ground (
  arith,
  test_bit-set_bit (map_word (suc i) rest) i j,
  map_word-below rest (suc i) j (omega arith),
)

map_word-Tells_from :
    (slots : Slots) (word i : ℕ)
    → ((j : ℕ) → i ≤ j → test_bit word j ≡ test_bit (map_word i slots) j)
    → Tells word i slots
unfolding map_word Tells
map_word-Tells_from (unused start) word i same = same i (omega arith) ∙ test_bit-zero i
map_word-Tells_from (leaf start sector rest) word i same = (
  same i (omega arith) ∙ map_word-below rest (suc i) i (omega arith),
  map_word-Tells_from rest word (suc i) (λ j h. same j (omega arith)),
)
map_word-Tells_from (node start sector child rest) word i same = (
  ground (arith, same i (omega arith), test_bit-set_bit (map_word (suc i) rest) i i),
  map_word-Tells_from rest word (suc i)
      (λ j h. ground (arith, same j (omega arith), test_bit-set_bit (map_word (suc i) rest) i j)),
)

length-data_sectors : (slots : Slots) → length (data_sectors slots) ≡ width slots
unfolding data_sectors width
length-data_sectors (unused start) = refl
length-data_sectors (leaf start sector rest) = omega (arith, length-data_sectors rest)
length-data_sectors (node start sector child rest) = omega (arith, length-data_sectors rest)

whole_array :
    (slots : Slots)
    → width slots ≤ n_sectors
    → take n_sectors
        (data_sectors slots ++ replicate (n_sectors - length (data_sectors slots)) invalid_sector)
      ≡ data_sectors slots ++ replicate (n_sectors - length (data_sectors slots)) invalid_sector
whole_array slots h =
    take-all n_sectors
      (data_sectors slots ++ replicate (n_sectors - length (data_sectors slots)) invalid_sector)
      (omega (
        arith,
        length-append (data_sectors slots)
            (replicate (n_sectors - length (data_sectors slots)) invalid_sector),
        length-replicate (n_sectors - length (data_sectors slots)) invalid_sector,
        length-data_sectors slots,
      ))

mutual
  unfolding fetch_header IsStored IsHeader depth leaves width cache_of Tells data_sectors

  fetch_header-IsStored :
      (fuel : ℕ) (disk : Disk (List ℤ)) (sector current : ℕ) (h : FileHeader)
      → IsHeader h current
      → IsStored disk sector h
      → depth h ≤ fuel
      → fetch_header fuel disk sector current ≡ some h
  fetch_header-IsStored zero disk sector current (file_header nb ns ad slots) v stored enough =
      absurd (omega arith)
  fetch_header-IsStored (suc fuel) disk sector current (file_header nb ns ad slots) v stored
        enough =
      rw
        (
          read_sector-inside disk sector stored.0,
          stored.1,
          whole_array slots v.2,
          fetch_slots-AreStored fuel disk (map_word 0 slots) 0 current 0 slots
              (n_sectors - length (data_sectors slots)) (subst (IsSlots slots) (omega arith) v.3)
              stored.2 (map_word-Tells_from slots (map_word 0 slots) 0 (λ j k. refl)) (omega arith),
        )
        (ground (arith, v.0, v.1))

  fetch_slots-AreStored :
      (fuel : ℕ) (disk : Disk (List ℤ)) (word i current child_sector : ℕ) (slots : Slots) (free : ℕ)
      → IsSlots slots (current + child_sector)
      → AreStored disk slots
      → Tells word i slots
      → slot_depth slots ≤ fuel
      → fetch_slots fuel disk word
          (data_sectors slots ++ replicate free invalid_sector)
          i
          current
          child_sector
        ≡ some (slots, child_sector + length (slot_leaves slots))
  fetch_slots-AreStored zero disk word i current child_sector slots free v stored tells enough =
      absurd (omega (arith, slot_depth-positive slots))
  fetch_slots-AreStored (suc fuel) disk word i current child_sector (unused start) zero v stored
        tells enough =
      ground (arith, v)
  fetch_slots-AreStored (suc fuel) disk word i current child_sector (unused start) (suc free) v
        stored tells enough =
      ground (arith, v, tells)
  fetch_slots-AreStored (suc fuel) disk word i current child_sector (leaf start sector rest) free v
        stored tells enough =
      rw
        (
          tells.0,
          fetch_slots-AreStored fuel disk word (suc i) current (suc child_sector) rest free
              (subst (IsSlots rest) (omega arith) v.1) stored tells.1 (omega arith),
          v.0,
          fetch_slots,
          data_sectors,
        )
        (ground arith)
  fetch_slots-AreStored (suc fuel) disk word i current child_sector (node start sector child rest)
        free v stored tells enough =
      rw
        (
          tells.0,
          fetch_header-IsStored fuel disk sector (current + child_sector) child v.1 stored.0
              (omega arith),
          fetch_slots-AreStored fuel disk word (suc i) current (child_sector + num_sectors_of child)
              rest free (subst (IsSlots rest) (omega arith) v.2) stored.1 tells.1 (omega arith),
          v.0,
          fetch_slots,
          data_sectors,
        )
        (ground (
          arith,
          num_sectors_of-leaves child (current + child_sector) v.1,
          length-append (leaves child) (slot_leaves rest),
        ))

-- A well-formed header tree whose header sectors, its own included, are distinct, on the disk, and
-- fewer than the sectors of the disk by one at least: `WriteBack` does not abort, and `FetchFrom` then
-- ends and gives the same tree back; the other sectors are as before.
pub fetch_tree-write_back :
    (sector : ℕ) (h : FileHeader) (disk : Disk (List ℤ))
    → IsHeader h 0
    → ((j : ℕ) → 0 < count j (sector ∷ headers h) → j < num_disk_sectors)
    → Distinct (sector ∷ headers h)
    → length (headers h) < num_disk_sectors
    → (disk' : Disk (List ℤ)) × (write_back sector h disk ≡ some disk')
      × (fetch_from disk' sector ≡ some h)
      × ((t : ℕ) → count t (sector ∷ headers h) ≡ 0 → disk' t ≡ disk t)
unfolding fetch_from
fetch_tree-write_back sector h disk v inside distinct few =
    let (disk', run, stored, same) = write_back-IsStored sector h disk inside distinct in
    (
      disk',
      run,
      fetch_header-IsStored (num_disk_sectors * (n_sectors + 2)) disk' sector 0 h v stored
          (omega (arith, depth-headers h 0 v, few)),
      same,
    )
