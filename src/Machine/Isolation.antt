-- ===== src/Machine/Isolation.antt =====
-- User programs on the machine, and the frame table that the address spaces share (MP2
-- code/userprog/addrspace.cc; its machine translates as that of MP4 does).
use mathlib.Core.List.{append_assoc}
use nthu_operating_system_er.Base.{
  ℕ, ◌+◌, ◌/◌, ◌≤◌, ◌<◌, ◌≡◌, sym, ◌∙◌, ap, subst, Bool, true, List, ◌∷◌, ◌++◌, none, some, arith,
  count, get_elem?, inl, inr, ◌⊎◌,
}
use nthu_operating_system_er.AddrSpace
use nthu_operating_system_er.AddrSpace.{PageTable, page_size}
use nthu_operating_system_er.AddrSpace.Frames.{frames}
use nthu_operating_system_er.AddrSpace.Paging.{System, Reach, Reach-IsPartition, lent, count-lent}
use nthu_operating_system_er.AddrSpace.Translation.{translate-Success, count-frames, once_at_most}
use nthu_operating_system_er.Machine.{Machine, ExceptionType, done, trapped}
use nthu_operating_system_er.Machine.Step.{run_user}
use nthu_operating_system_er.Machine.Mapping.{Table, entries}
use nthu_operating_system_er.Machine.Access.{Permits}
use nthu_operating_system_er.Machine.Progress.{IsMachine}
use nthu_operating_system_er.Machine.Runs.{run_user-confined}

-- The tables are of two processes of the system, in this order.
pub record LiveBoth (s : System) (table other : PageTable) : Type 0 where
  pub before : List PageTable
  pub middle : List PageTable
  pub after : List PageTable
  pub here : s.spaces ≡ before ++ table ∷ (middle ++ other ∷ after)

LiveBoth-count :
    {s : System} (table other : PageTable) (f : ℕ)
    → Reach s
    → LiveBoth s table other
    → count f (frames table) + count f (frames other) ≤ 1
LiveBoth-count {s} table other f r l = omega (
  arith,
  once_at_most s f (Reach-IsPartition r),
  ap (λ ts. count f (lent ts)) l.here,
  count-lent f l.before (l.middle ++ other ∷ l.after) table,
  ap (λ ts. count f (lent ts)) (sym (append_assoc l.before l.middle (other ∷ l.after))),
  count-lent f (l.before ++ l.middle) l.after other,
)

either_order :
    {s : System} (table other : PageTable) (f : ℕ)
    → Reach s
    → LiveBoth s table other ⊎ LiveBoth s other table
    → count f (frames table) + count f (frames other) ≤ 1
either_order table other f r (inl l) = LiveBoth-count table other f r l
either_order table other f r (inr l) = omega (arith, LiveBoth-count other table f r l)

table_entries :
    (tlb table : Table) (entries' : PageTable)
    → tlb ≡ none
    → table ≡ some entries'
    → entries tlb table ≡ entries'
table_entries tlb table entries' e f = ap (λ t. entries t table) e ∙ ap (entries none) f

Permits-count :
    (m : Machine) (table : PageTable) (f : ℕ)
    → m.tlb ≡ none
    → m.page_table ≡ some table
    → Permits m f true
    → 0 < count f (frames table)
Permits-count m table f e g p =
    subst (λ (x : ℕ). 0 < count x (frames table)) p.at_frame
      (count-frames table p.place (
        subst (λ (t : PageTable). get_elem? t p.place ≡ some p.entry)
          (table_entries m.tlb m.page_table table e g) p.stored))

-- In every reachable system of processes, while the machine runs the program of one, in order and with
-- its page table, any number of instructions without a trap or up to the first, each byte at which
-- AddrSpace::Translate of another live process arrives is as before.
pub run_user-isolation :
    {s : System} (n : ℕ) (m m' : Machine) (table other t : PageTable) (vaddr phys_addr : ℕ)
    (w : Bool)
    → Reach s
    → LiveBoth s table other ⊎ LiveBoth s other table
    → IsMachine m
    → m.tlb ≡ none
    → m.page_table ≡ some table
    → (run_user n m ≡ done m') ⊎ ((which : ExceptionType) × (run_user n m ≡ trapped which m'))
    → AddrSpace.translate other vaddr w ≡ some (AddrSpace.no_exception, phys_addr, t)
    → m'.main_memory phys_addr ≡ m.main_memory phys_addr
run_user-isolation n m m' table other t vaddr phys_addr w r live ok e g run h =
    run_user-confined n m m' ok run phys_addr (λ permits.
      let x = translate-Success other vaddr w h in
      let f = x.pte.physical_page in
      let same : phys_addr / page_size ≡ f = omega (arith, x.address) in
      let writable = Permits-count m table (phys_addr / page_size) e g permits in
      omega (
        arith,
        subst (λ (k : ℕ). 0 < count k (frames table)) same writable,
        count-frames other (vaddr / page_size) x.entry,
        either_order table other f r live,
      ))
