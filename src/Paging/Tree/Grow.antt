-- ===== src/Paging/Tree/Grow.antt =====
-- How the tree of a page table may change while no translation changes.
use sys_hyper.Base.{ℕ, ◌+◌, ◌≡◌, refl, ◌∙◌, sym, false, List, Option, some, length}
use sys_hyper.Memory.Frame.Bitmap.{BitAlloc}
use sys_hyper.Paging.Pte.{GenericPte}
use sys_hyper.Paging.Table.{PtState}
use sys_hyper.Paging.Tree.{resolve, IsTree}

abbrev pub Owner : Type 0
Owner = ℕ → Option (List ℕ)

module _ {State : Type 0} (B : BitAlloc State) (P : GenericPte) where
  -- From `s` to `s'` the tree has gained tables; what was in use, and every translation, is kept.
  pub record Grows (own : Owner) (s : PtState State) (own' : Owner) (s' : PtState State)
      : Type 0 where
    pub same_root : s'.pt.root ≡ s.pt.root
    pub same_level : s'.pt.level ≡ s.pt.level
    pub ext : (t : ℕ) (ls : List ℕ) → own t ≡ some ls → own' t ≡ some ls
    pub keep :
        (t : ℕ) (ls : List ℕ) (i : ℕ)
        → own t ≡ some ls
        → P.is_unused (s.memory.word t i) ≡ false
        → s'.memory.word t i ≡ s.memory.word t i
    pub same :
        (is : List ℕ) (t : ℕ) (ls : List ℕ)
        → own t ≡ some ls
        → length ls + length is ≡ s.pt.level
        → resolve P s'.memory.word t is ≡ resolve P s.memory.word t is
    pub tree : IsTree B P own' s'

  pub Grows-refl : (own : Owner) (s : PtState State) → IsTree B P own s → Grows own s own s
  Grows-refl own s v = record {
    same_root = refl;
    same_level = refl;
    ext = λ t ls h. h;
    keep = λ t ls i h u. refl;
    same = λ is t ls h l. refl;
    tree = v;
  }

  pub Grows-trans :
      {own own' own'' : Owner} {s s' s'' : PtState State}
      → Grows own s own' s'
      → Grows own' s' own'' s''
      → Grows own s own'' s''
  Grows-trans {own} {own'} {own''} {s} {s'} {s''} g h = record {
    same_root = h.same_root ∙ g.same_root;
    same_level = h.same_level ∙ g.same_level;
    ext = λ t ls o. h.ext t ls (g.ext t ls o);
    keep = λ t ls i o u. let e = g.keep t ls i o u in h.keep t ls i (g.ext t ls o) (rw e u) ∙ e;
    same = λ is t ls o l. h.same is t ls (g.ext t ls o) (l ∙ sym g.same_level) ∙ g.same is t ls o l;
    tree = h.tree;
  }
