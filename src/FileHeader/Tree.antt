-- ===== src/FileHeader/Tree.antt =====
-- The shape of a header tree, and FileHeader::ByteToSector on it.
use nthu_operating_system_er.Base.{
  ℕ, zero, suc, ◌+◌, ◌-◌, ◌/◌, ◌≤◌, ◌<◌, ◌≡◌, sym, ◌∙◌, true, false, ◌&&◌, List, [], ◌∷◌, ◌++◌,
  arith, ltb, leb, length, length-append, get_elem?, get_elem?-append_left, get_elem?-append_right,
  dec_lt,
}
use nthu_operating_system_er.FileHeader.{
  FileHeader, file_header, Slots, unused, leaf, node, num_sectors_of, additional, start_of,
  byte_to_sector, find_slot, sector_size, n_sectors,
}

-- The data sectors of a file, in the order of the file.
unfoldable mutual
  pub leaves : FileHeader → List ℕ
  leaves (file_header num_bytes num_sectors additional_sector slots) = slot_leaves slots

  pub slot_leaves : Slots → List ℕ
  slot_leaves (unused start) = []
  slot_leaves (leaf start sector rest) = sector ∷ slot_leaves rest
  slot_leaves (node start sector child rest) = leaves child ++ slot_leaves rest

-- The sectors of the headers below a header.
unfoldable mutual
  pub headers : FileHeader → List ℕ
  headers (file_header num_bytes num_sectors additional_sector slots) = slot_headers slots

  pub slot_headers : Slots → List ℕ
  slot_headers (unused start) = []
  slot_headers (leaf start sector rest) = slot_headers rest
  slot_headers (node start sector child rest) = sector ∷ (headers child ++ slot_headers rest)

-- All sectors of a file but that of its header, in the order in which they are allocated.
unfoldable mutual
  pub used : FileHeader → List ℕ
  used (file_header num_bytes num_sectors additional_sector slots) = slot_used slots

  pub slot_used : Slots → List ℕ
  slot_used (unused start) = []
  slot_used (leaf start sector rest) = sector ∷ slot_used rest
  slot_used (node start sector child rest) = sector ∷ (used child ++ slot_used rest)

unfoldable pub width : Slots → ℕ
width (unused start) = 0
width (leaf start sector rest) = suc (width rest)
width (node start sector child rest) = suc (width rest)

-- A header tree whose first data sector is number `current` of the file: the counts are right, the
-- slots fit into the arrays, and each slot starts where the one before it ends.
unfoldable mutual
  pub IsHeader : FileHeader → ℕ → Type 0
  IsHeader (file_header num_bytes num_sectors additional_sector slots) current =
      (num_sectors ≡ length (slot_leaves slots))
      × (additional_sector ≡ 1 + additional slots)
      × width slots ≤ n_sectors
      × IsSlots slots current

  pub IsSlots : Slots → ℕ → Type 0
  IsSlots (unused start) current = start ≡ current
  IsSlots (leaf start sector rest) current = (start ≡ current) × IsSlots rest (suc current)
  IsSlots (node start sector child rest) current =
      (start ≡ current) × IsHeader child current × IsSlots rest (current + num_sectors_of child)

pub start_of-IsSlots :
    (slots : Slots) (current : ℕ) → IsSlots slots current → start_of slots ≡ current
unfolding IsHeader
start_of-IsSlots (unused start) current v = v
start_of-IsSlots (leaf start sector rest) current v = v.0
start_of-IsSlots (node start sector child rest) current v = v.0

pub num_sectors_of-leaves :
    (h : FileHeader) (current : ℕ) → IsHeader h current → num_sectors_of h ≡ length (leaves h)
unfolding IsHeader leaves
num_sectors_of-leaves (file_header num_bytes num_sectors additional_sector slots) current v = v.0

in_slot_here :
    (offset_sector start next : ℕ)
    → start ≤ offset_sector
    → offset_sector < next
    → (leb start offset_sector && ltb offset_sector next) ≡ true
in_slot_here offset_sector start next a b = ground arith

in_slot_later :
    (offset_sector start next : ℕ)
    → next ≤ offset_sector
    → (leb start offset_sector && ltb offset_sector next) ≡ false
in_slot_later offset_sector start next h = ground arith

mutual
  unfolding byte_to_sector IsHeader leaves

  byte_to_sector-leaves_from :
      (h : FileHeader) (current offset k : ℕ)
      → IsHeader h current
      → offset / sector_size ≡ current + k
      → k < length (leaves h)
      → byte_to_sector h offset ≡ get_elem? (leaves h) k
  byte_to_sector-leaves_from (file_header nb ns ad slots) current offset k v e h =
      find_slot-slot_leaves slots current offset k v.3 e h

  find_slot-slot_leaves :
      (slots : Slots) (current offset k : ℕ)
      → IsSlots slots current
      → offset / sector_size ≡ current + k
      → k < length (slot_leaves slots)
      → find_slot slots offset ≡ get_elem? (slot_leaves slots) k
  find_slot-slot_leaves (unused start) current offset k v e h = absurd (omega arith)
  find_slot-slot_leaves (leaf start sector rest) current offset zero v e h = rw (
    in_slot_here (offset / sector_size) start (start_of rest) (omega (arith, v.0))
        (omega (arith, start_of-IsSlots rest (suc current) v.1)),
    find_slot,
  )
  find_slot-slot_leaves (leaf start sector rest) current offset (suc k) v e h =
      rw
        (
          in_slot_later (offset / sector_size) start (start_of rest)
              (omega (arith, start_of-IsSlots rest (suc current) v.1)),
          find_slot,
        )
        (find_slot-slot_leaves rest (suc current) offset k v.1 (omega arith) (omega arith))
  find_slot-slot_leaves (node start sector child rest) current offset k v e h =
      let count = num_sectors_of-leaves child current v.1 in
      let next = start_of-IsSlots rest (current + num_sectors_of child) v.2 in
      elim (dec_lt k (length (leaves child))) [
        | yes inside ↦
            rw
              (
                in_slot_here (offset / sector_size) start (start_of rest) (omega (arith, v.0))
                    (omega (arith, next, count)),
                find_slot,
              )
              (byte_to_sector-leaves_from child current offset k v.1 e inside
                ∙ sym (get_elem?-append_left (leaves child) (slot_leaves rest) k inside))
        | no behind ↦
            rw
              (
                in_slot_later (offset / sector_size) start (start_of rest)
                    (omega (arith, next, count)),
                find_slot,
              )
              (find_slot-slot_leaves rest (current + num_sectors_of child) offset
                  (k - length (leaves child)) v.2 (omega (arith, count))
                  (omega (arith, length-append (leaves child) (slot_leaves rest)))
                ∙ sym (
                    get_elem?-append_right (leaves child) (slot_leaves rest) k
                      (k - length (leaves child)) (omega arith)))
      ]

-- On a well-formed header tree `ByteToSector` of an offset in one of the file's sectors does not abort,
-- and gives the data sector at that place in the order of the file.
pub byte_to_sector-leaves :
    (h : FileHeader) (offset : ℕ)
    → IsHeader h 0
    → offset / sector_size < length (leaves h)
    → byte_to_sector h offset ≡ get_elem? (leaves h) (offset / sector_size)
byte_to_sector-leaves h offset v inside =
    byte_to_sector-leaves_from h 0 offset (offset / sector_size) v (omega arith) inside
