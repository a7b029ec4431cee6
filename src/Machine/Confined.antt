-- ===== src/Machine/Confined.antt =====
-- ReadMem gives a word; WriteMem changes the frames of writable pages only.
use nthu_operating_system_er.Base.{
  ℕ, ◌+◌, ◌/◌, ◌≤◌, ◌<◌, ◌≡◌, sym, ◌∙◌, ap, subst, true, false, ◌&&◌, some, arith, ltb, leb,
  Bool-cases, inl, inr, ◌⊎◌,
}
use nthu_operating_system_er.Mult.{word_size}
use nthu_operating_system_er.AddrSpace.{page_size}
use nthu_operating_system_er.Machine.{Machine}
use nthu_operating_system_er.Machine.Word.{sign_extend_byte}
use nthu_operating_system_er.Machine.Translate.{
  load, store, load_half, load_word, store_byte, store_half, store_word, read_mem, write_mem,
}
use nthu_operating_system_er.Machine.Post.{Post, returns, Post-bind}
use nthu_operating_system_er.Machine.Mapping.{OneTable, entries_of, SameMapping}
use nthu_operating_system_er.Machine.Access.{Touched, Granted, IsSize, Permits}
use nthu_operating_system_er.Machine.Transfer.{TrapFrom, translated-Granted}

abbrev pub Bytes : (ℕ → ℕ) → Type 0
Bytes memory = (a : ℕ) → memory a < 0x100

load-lt :
    (memory : ℕ → ℕ) (a size : ℕ)
    → Bytes memory
    → IsSize size
    → (v : ℕ) × (load memory a size ≡ some v) × v < word_size
unfolding load
load-lt memory a size h (inl e) = (sign_extend_byte (memory a), rw e, ground (arith, h a))
load-lt memory a size h (inr (inl e)) = (load_half memory a, rw e, omega (arith, h a, h (a + 1)))
load-lt memory a size h (inr (inr e)) =
    (load_word memory a, rw e, omega (arith, h a, h (a + 1), h (a + 2), h (a + 2 + 1)))

pub read_mem-Touched :
    (m : Machine) (addr size : ℕ)
    → OneTable m.tlb m.page_table
    → Bytes m.main_memory
    → IsSize size
    → addr < word_size
    → Post (λ t. t.0 < word_size × Touched m t.1) (TrapFrom m) ⊥ (read_mem addr size m)
unfolding read_mem
read_mem-Touched m addr size h bytes s small =
    Post-bind (translated-Granted m addr size false h s small) (λ t granted.
      let (phys_addr, m') = t in
      let (v, e, v_small) =
        load-lt m'.main_memory phys_addr size
          (λ a. subst (λ memory. memory a < 0x100) (sym (granted.after).memory) (bytes a)) s in
      rw e (returns (v_small, granted.after)))

-- A store changes so many bytes from its address on.
pub record Stored (a size : ℕ) (memory memory' : ℕ → ℕ) : Type 0 where
  pub outside : (b : ℕ) → (b < a) ⊎ (a + size ≤ b) → memory' b ≡ memory b
  pub bytes : Bytes memory → Bytes memory'

store-Stored :
    (memory : ℕ → ℕ) (a size v : ℕ)
    → IsSize size
    → (memory' : ℕ → ℕ) × (store a size v memory ≡ some memory') × Stored a size memory memory'
unfolding store
store-Stored memory a size v (inl e) = (
  store_byte a v memory,
  rw e,
  record { outside = λ b o. ground (arith, e); bytes = λ h b. ground (arith, h b) },
)
store-Stored memory a size v (inr (inl e)) = (
  store_half a v memory,
  rw e,
  record { outside = λ b o. ground (arith, e); bytes = λ h b. ground (arith, h b) },
)
store-Stored memory a size v (inr (inr e)) = (
  store_word a v memory,
  rw e,
  record { outside = λ b o. ground (arith, e); bytes = λ h b. ground (arith, h b) },
)

-- The memory is the same but for frames that the first machine may write to.
abbrev pub Confined : Machine → Machine → Type 0
Confined m m' = (a : ℕ) → (m'.main_memory a ≡ m.main_memory a) ⊎ Permits m (a / page_size) true

pub record Written (m m' : Machine) : Type 0 where
  pub registers : m'.registers ≡ m.registers
  pub one_table : OneTable m'.tlb m'.page_table
  pub mapping : SameMapping (entries_of m) (entries_of m')
  pub bytes : Bytes m'.main_memory
  pub confined : Confined m m'

Granted-Written :
    (m m' : Machine) (size phys_addr : ℕ) (memory : ℕ → ℕ)
    → Bytes m.main_memory
    → 0 < size
    → Granted m size true phys_addr m'
    → Stored phys_addr size m'.main_memory memory
    → Written m (record m' { main_memory = memory })
Granted-Written m m' size phys_addr memory h positive g s = record {
  registers = (g.after).registers;
  one_table = (g.after).one_table;
  mapping = (g.after).mapping;
  bytes = s.bytes (λ a. subst (λ f. f a < 0x100) (sym (g.after).memory) (h a));
  confined = λ a. elim (Bool-cases (leb phys_addr a && ltb a (phys_addr + size))) [
    | inl inside ↦ inr (subst (λ f. Permits m f true) (in_frame a inside) g.permits)
    | inr outside ↦ inl (s.outside a (apart a outside) ∙ ap (λ f. f a) (g.after).memory)
  ];
}
  where
    in_frame :
        (a : ℕ) → (leb phys_addr a && ltb a (phys_addr + size)) ≡ true → g.frame ≡ a / page_size
    in_frame a e =
        let starts = g.starts in
        let ends = g.ends in
        let low : phys_addr ≤ a = ground (arith, e) in
        let high : a < phys_addr + size = ground (arith, e) in omega arith

    apart :
        (a : ℕ)
        → (leb phys_addr a && ltb a (phys_addr + size)) ≡ false
        → (a < phys_addr) ⊎ (phys_addr + size ≤ a)
    apart a e = ground (arith, e)

pub write_mem-Written :
    (m : Machine) (addr size value : ℕ)
    → OneTable m.tlb m.page_table
    → Bytes m.main_memory
    → IsSize size
    → addr < word_size
    → Post (Written m) (TrapFrom m) ⊥ (write_mem addr size value m)
unfolding write_mem
write_mem-Written m addr size value h bytes s small =
    Post-bind (translated-Granted m addr size true h s small) (λ t granted.
      let (phys_addr, m') = t in
      let (memory, e, stored) = store-Stored m'.main_memory phys_addr size value s in
      rw e (returns (Granted-Written m m' size phys_addr memory bytes (positive s) granted stored)))
  where
    positive : IsSize size → 0 < size
    positive s = ground (arith, s)
