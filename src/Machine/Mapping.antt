-- ===== src/Machine/Mapping.antt =====
-- Tables of entries that differ in the use and dirty bits only.
use nthu_operating_system_er.Base.{
  ℕ, zero, suc, ◌≡◌, refl, ◌∙◌, subst, some_eq, Bool, List, [], ◌∷◌, Option, none, some, get_elem?,
  set,
}
use nthu_operating_system_er.AddrSpace.{TranslationEntry}
use nthu_operating_system_er.Machine.{Machine}
use nthu_operating_system_er.Machine.Translate.{touched}

abbrev pub Table : Type 0
Table = Option (List TranslationEntry)

-- The machine has a TLB or a page table, and not both.
abbrev pub OneTable : Table → Table → Type 0
OneTable none none = ⊥
OneTable none (some table) = Unit {0}
OneTable (some tlb) none = Unit {0}
OneTable (some tlb) (some table) = ⊥

-- The entries that Translate uses.
abbrev pub entries : Table → Table → List TranslationEntry
entries none none = []
entries none (some table) = table
entries (some tlb) _ = tlb

abbrev pub entries_of : Machine → List TranslationEntry
entries_of m = entries m.tlb m.page_table

-- Two entries differ in the use and dirty bits only.
pub record SameEntry (e e' : TranslationEntry) : Type 0 where
  pub virtual_page : e'.virtual_page ≡ e.virtual_page
  pub physical_page : e'.physical_page ≡ e.physical_page
  pub valid : e'.valid ≡ e.valid
  pub read_only : e'.read_only ≡ e.read_only

abbrev pub SameMapping : List TranslationEntry → List TranslationEntry → Type 0
SameMapping t t' =
    (j : ℕ) (e' : TranslationEntry)
    → get_elem? t' j ≡ some e'
    → (e : TranslationEntry) × (get_elem? t j ≡ some e) × SameEntry e e'

pub SameEntry-refl : (e : TranslationEntry) → SameEntry e e
SameEntry-refl e = record {
  virtual_page = refl;
  physical_page = refl;
  valid = refl;
  read_only = refl;
}

pub SameEntry-trans :
    {e e' e'' : TranslationEntry} → SameEntry e e' → SameEntry e' e'' → SameEntry e e''
SameEntry-trans s t = record {
  virtual_page = t.virtual_page ∙ s.virtual_page;
  physical_page = t.physical_page ∙ s.physical_page;
  valid = t.valid ∙ s.valid;
  read_only = t.read_only ∙ s.read_only;
}

pub same_entry : {e e' : TranslationEntry} → some e ≡ some e' → SameEntry e e'
same_entry {e} p = subst (λ (x : TranslationEntry). SameEntry e x) (some_eq p) (SameEntry-refl e)

pub SameMapping-refl : (t : List TranslationEntry) → SameMapping t t
SameMapping-refl t j e g = (e, g, SameEntry-refl e)

pub SameMapping-trans :
    (t t' t'' : List TranslationEntry) → SameMapping t t' → SameMapping t' t'' → SameMapping t t''
SameMapping-trans t t' t'' s s' j e g =
    let (e₁, g₁, same₁) = s' j e g in
    let (e₀, g₀, same₀) = s j e₁ g₁ in (e₀, g₀, SameEntry-trans same₀ same₁)

pub set-SameMapping :
    (t : List TranslationEntry) (k : ℕ) (e : TranslationEntry) (w : Bool)
    → get_elem? t k ≡ some e
    → SameMapping t (set t k (touched e w))
set-SameMapping [] k e w h j e' g = absurd (cc g)
set-SameMapping (x ∷ t) zero e w h zero e' g =
    let s : SameEntry (touched e w) e' = same_entry g in
    (
      e,
      h,
      record {
        virtual_page = s.virtual_page;
        physical_page = s.physical_page;
        valid = s.valid;
        read_only = s.read_only;
      },
    )
set-SameMapping (x ∷ t) zero e w h (suc j) e' g = SameMapping-refl t j e' g
set-SameMapping (x ∷ t) (suc k) e w h zero e' g = SameMapping-refl (x ∷ t) zero e' g
set-SameMapping (x ∷ t) (suc k) e w h (suc j) e' g = set-SameMapping t k e w h j e' g
