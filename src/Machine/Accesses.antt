-- ===== src/Machine/Accesses.antt =====
-- The loads and stores of the switch.
use nthu_operating_system_er.Base.{
  ℕ, ◌%◌, ◌<◌, ◌≡◌, refl, sym, ◌∙◌, ap, subst, Bool, not, arith, ◌==◌, inl, inr,
}
use nthu_operating_system_er.Mult.{word_size}
use nthu_operating_system_er.Machine.{
  Machine, raise_exception, address_error_exception, num_gp_regs,
}
use nthu_operating_system_er.Machine.Bounds.{or_word-lt}
use nthu_operating_system_er.Machine.Decode.{Instruction}
use nthu_operating_system_er.Machine.Translate.{read_mem, write_mem}
use nthu_operating_system_er.Machine.Execute.{
  Executed, finish, address, extend_byte, extend_half, load_later, load_byte, load_half_word,
  load_full_word, pending, load_merged, store_size, store_merged,
}
use nthu_operating_system_er.Machine.Post.{Post, returns, Post-if, Post-bind, Post-map}
use nthu_operating_system_er.Machine.Mapping.{SameMapping-trans}
use nthu_operating_system_er.Machine.Access.{
  IsSize, Touched, Touched-refl, Touched-trans, Permits-SameMapping,
}
use nthu_operating_system_er.Machine.Transfer.{TrapFrom, raise_exception-TrapFrom}
use nthu_operating_system_er.Machine.Confined.{Written, read_mem-Touched, write_mem-Written}
use nthu_operating_system_er.Machine.Progress.{IsMachine, Progress}

-- What holds of a machine holds with marks in its table.
module _ {m m' : Machine} (s : Touched m m') where
  pub IsMachine-Touched : IsMachine m → IsMachine m'
  IsMachine-Touched ok = record {
    words = λ i. subst (λ r. r i < word_size) (sym s.registers) (ok.words i);
    zero_reg = subst (λ r. r 0 ≡ 0) (sym s.registers) ok.zero_reg;
    load = subst (λ r. r 37 < num_gp_regs) (sym s.registers) ok.load;
    bytes = λ a. subst (λ f. f a < 0x100) (sym s.memory) (ok.bytes a);
    one_table = s.one_table;
  }

  pub Progress-Touched : (x : Executed) → Progress m' x → Progress m x
  Progress-Touched x p = record {
    words = p.words;
    special = λ j h. p.special j h ∙ ap (λ r. r j) s.registers;
    load = p.load;
    value = p.value;
    pc = p.pc;
    bytes = p.bytes;
    one_table = p.one_table;
    mapping = SameMapping-trans _ _ _ s.mapping p.mapping;
    confined = λ a. elim (p.confined a) [
      | inl e ↦ inl (e ∙ ap (λ f. f a) s.memory)
      | inr permits ↦ inr (Permits-SameMapping s.mapping permits)
    ];
  }

  pub TrapFrom-Touched : (which : _) (t : Machine) → TrapFrom m' which t → TrapFrom m which t
  TrapFrom-Touched which t p = record {
    bad_vaddr = p.bad_vaddr;
    small = p.small;
    at_trap = p.at_trap;
    same = Touched-trans s p.same;
    handed = p.handed;
    real = p.real;
  }

module _ (m : Machine) (ok : IsMachine m) {N : Type 0} where
  load_later-Progress :
      (m' : Machine) (reg v pc : ℕ)
      → Touched m m'
      → reg < num_gp_regs
      → v < word_size
      → pc < word_size
      → Post (Progress m) (TrapFrom m) N (load_later reg v pc m')
  unfolding load_later
  load_later-Progress m' reg v pc s h k small = returns (record {
    words = λ i. subst (λ r. r i < word_size) (sym s.registers) (ok.words i);
    special = λ j _. ap (λ r. r j) s.registers;
    load = h;
    value = k;
    pc = small;
    bytes = λ a. subst (λ f. f a < 0x100) (sym s.memory) (ok.bytes a);
    one_table = s.one_table;
    mapping = s.mapping;
    confined = λ a. inl (ap (λ f. f a) s.memory);
  })

  reads :
      (addr size : ℕ)
      → IsSize size
      → addr < word_size
      → Post (λ t. t.0 < word_size × Touched m t.1) (TrapFrom m) N (read_mem addr size m)
  reads addr size s small =
      Post-map (λ _ p. p) (λ _ _ e. e) (λ e. absurd e)
        (read_mem-Touched m addr size ok.one_table ok.bytes s small)

  writes :
      (addr size value : ℕ)
      → IsSize size
      → addr < word_size
      → Post (Written m) (TrapFrom m) N (write_mem addr size value m)
  writes addr size value s small =
      Post-map (λ _ p. p) (λ _ _ e. e) (λ e. absurd e)
        (write_mem-Written m addr size value ok.one_table ok.bytes s small)

  finish-Written :
      (m' : Machine) (pc : ℕ)
      → Written m m'
      → pc < word_size
      → Post (Progress m) (TrapFrom m) N (finish pc m')
  unfolding finish
  finish-Written m' pc w small = returns (record {
    words = λ i. subst (λ r. r i < word_size) (sym w.registers) (ok.words i);
    special = λ j _. ap (λ r. r j) w.registers;
    load = omega arith;
    value = omega arith;
    pc = small;
    bytes = w.bytes;
    one_table = w.one_table;
    mapping = w.mapping;
    confined = w.confined;
  })

  module _ (i : Instruction) (rt : i.rt < num_gp_regs) (pc : ℕ) (small : pc < word_size) where
    misses :
        (addr : ℕ)
        → addr < word_size
        → Post (Progress m) (TrapFrom m) N (raise_exception address_error_exception addr m)
    misses addr h =
        raise_exception-TrapFrom m m address_error_exception addr h (Touched-refl m ok.one_table)
          (λ e. cc e)

    pub load_byte-Progress :
        (signed : Bool) → Post (Progress m) (TrapFrom m) N (load_byte signed i pc m)
    unfolding load_byte
    load_byte-Progress signed = Post-bind (reads _ 1 (inl refl) (omega arith)) (λ t p.
        load_later-Progress t.1 i.rt (extend_byte signed t.0) pc p.1 rt (extended t.0 signed) small)
      where
        extended : (v : ℕ) (signed : Bool) → extend_byte signed v < word_size
        extended v signed = ground (arith, or_word-lt v 0xffff_ff00)

    pub load_half_word-Progress :
        (signed : Bool) → Post (Progress m) (TrapFrom m) N (load_half_word signed i pc m)
    unfolding load_half_word
    load_half_word-Progress signed =
        Post-if (address i m % 2 == 1) (λ _. misses _ (omega arith))
          (λ _. Post-bind (reads _ 2 (inr (inl refl)) (omega arith)) (λ t p.
            load_later-Progress t.1 i.rt (extend_half signed t.0) pc p.1 rt (extended t.0 signed)
              small))
      where
        extended : (v : ℕ) (signed : Bool) → extend_half signed v < word_size
        extended v signed = ground (arith, or_word-lt v 0xffff_0000)

    pub load_full_word-Progress : Post (Progress m) (TrapFrom m) N (load_full_word i pc m)
    unfolding load_full_word
    load_full_word-Progress =
        Post-if (not (address i m % 4 == 0)) (λ _. misses _ (omega arith))
          (λ _.
            Post-bind (reads _ 4 (inr (inr refl)) (omega arith))
              (λ t p. load_later-Progress t.1 i.rt t.0 pc p.1 rt p.0 small))

    pub load_merged-Progress :
        (merge : ℕ → ℕ → ℕ → ℕ)
        → ((byte old v : ℕ) → old < word_size → v < word_size → merge byte old v < word_size)
        → Post (Progress m) (TrapFrom m) N (load_merged merge i pc m)
    unfolding load_merged
    load_merged-Progress merge h = Post-bind (reads _ 4 (inr (inr refl)) (omega arith)) (λ t p.
        load_later-Progress t.1 i.rt _ pc p.1 rt
          (h (address i m % 4) (pending i.rt t.1) t.0 (held t.1 (IsMachine-Touched p.1 ok)) p.0)
          small)
      where
        held : (m' : Machine) → IsMachine m' → pending i.rt m' < word_size
        held m' ok' = ground (arith, ok'.words 38, ok'.words i.rt)

    pub store_size-Progress :
        (size : ℕ) → IsSize size → Post (Progress m) (TrapFrom m) N (store_size size i pc m)
    unfolding store_size
    store_size-Progress size s =
        Post-bind (writes _ size (m.registers i.rt) s (omega arith))
          (λ m' w. finish-Written m' pc w small)

pub store_merged-Progress :
    (m : Machine) (ok : IsMachine m) {N : Type 0} (i : Instruction) (pc : ℕ)
    → pc < word_size
    → (merge : ℕ → ℕ → ℕ → ℕ) → Post (Progress m) (TrapFrom m) N (store_merged merge i pc m)
unfolding store_merged
store_merged-Progress m ok i pc small merge =
    Post-bind (reads m ok _ 4 (inr (inr refl)) (omega arith)) (λ t p.
      let ok' = IsMachine-Touched p.1 ok in
      Post-map (Progress-Touched p.1) (TrapFrom-Touched p.1) (λ n. n)
        (Post-bind (writes t.1 ok' _ 4 _ (inr (inr refl)) (omega arith))
          (λ m'' w. finish-Written t.1 ok' m'' pc w small)))
