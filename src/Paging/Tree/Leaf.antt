-- ===== src/Paging/Tree/Leaf.antt =====
-- A write of one entry at the end of a walk (`map_page` and `unmap_page` of
-- src/arch/aarch64/paging.rs): what it changes in the translations, and what it does not.
use sys_hyper.Base.{
  ℕ, ◌+◌, ◌<◌, ◌≤◌, ◌≡◌, refl, sym, ◌∙◌, ap, true, false, ◌==◌, ◌&&◌, ◌⊎◌, Bool-cases, ==_refl, inl,
  inr, List, [], ◌∷◌, ◌++◌, some, length, arith,
}
use sys_hyper.Memory.Frame.Bitmap.{BitAlloc}
use sys_hyper.Paging.Pte.{GenericPte}
use sys_hyper.Paging.Table.{PtState, Words, slot}
use sys_hyper.Paging.Map.{store}
use sys_hyper.Paging.Tree.{resolve, resolve_cong, resolve_through, IsTable, IsTree}
use sys_hyper.Paging.Tree.Grow.{Owner}
use sys_hyper.Paging.Tree.Descend.{Leads}

-- The walk along `is` from a table with the label `ls` uses the entry with the label `target`.
abbrev pub Passes : List ℕ → List ℕ → List ℕ → Type 0
Passes ls [] target = ⊥
Passes ls (i ∷ is) target = (i ∷ ls ≡ target) ⊎ Passes (i ∷ ls) is target

module _ {State : Type 0} (B : BitAlloc State) (P : GenericPte) (own : Owner) (s : PtState State)
    (v : IsTree B P own s) (t i : ℕ) (ls : List ℕ) (o : own t ≡ some ls) (e : ℕ) where
  abbrev pub written : Words
  written = store B P s.memory.word (slot t i) e

  abbrev pub after_write : PtState State
  after_write = record s { memory = record (s.memory) { word = written } }

  pub written_slot : written t i ≡ e
  written_slot = rw (==_refl t, ==_refl i) refl

  same_label :
      (x : ℕ) (lx : List ℕ) (j : ℕ) → own x ≡ some lx → (t == x && i == j) ≡ true → j ∷ lx ≡ i ∷ ls
  same_label x lx j h hit =
      let d : t ≡ x = ground arith in let d' : i ≡ j = ground arith in cc (o, h, ap own d, d')

  -- A walk that does not use the entry finds what it found before.
  pub written_miss :
      (js : List ℕ) (x : ℕ) (lx : List ℕ)
      → own x ≡ some lx
      → length lx + length js ≡ s.pt.level
      → ¬ Passes lx js (i ∷ ls)
      → resolve P written x js ≡ resolve P s.memory.word x js
  unfolding resolve
  written_miss [] x lx h l off = refl
  written_miss (j ∷ []) x lx h l off = elim (Bool-cases (t == x && i == j)) [
    | inl hit ↦ absurd (off (inl (same_label x lx j h hit)))
    | inr miss ↦ rw miss
  ]
  written_miss (j ∷ k ∷ js) x lx h l off = elim (Bool-cases (t == x && i == j)) [
    | inl hit ↦ absurd (off (inl (same_label x lx j h hit)))
    | inr miss ↦
        let e = s.memory.word x j in
        resolve_cong P s.memory.word written x j k js (rw miss refl) (λ present table.
          written_miss (k ∷ js) (P.addr e) (j ∷ lx) (v.child x lx j h (omega arith) present table)
            (omega arith) (λ q. off (inr q)))
  ]

  -- The tree stays a tree when the entry leads to no table.
  pub written-IsTree :
      (P.is_present e ≡ true → P.is_huge e ≡ false → s.pt.level ≤ length ls + 1)
      → IsTree B P own after_write
  written-IsTree end = record {
    levels = v.levels;
    root_own = v.root_own;
    child = λ x lx j h d present table. elim (Bool-cases (t == x && i == j)) [
      | inl hit ↦
          let q = same_label x lx j h hit in
          let n : length lx ≡ length ls = cc q in
          absurd (omega (arith, end (rw hit at present) (rw hit at table)))
      | inr miss ↦ rw miss (v.child x lx j h d (rw miss at present) (rw miss at table))
    ];
    taken = v.taken;
    aligned = v.aligned;
    ready = record { aligned = v.ready.aligned; below = v.ready.below };
  }

  -- The entry that is written leads to no table.
  abbrev pub Ends : Type 0
  Ends =
      (P.is_unused (s.memory.word t i) ≡ true)
      ⊎ (P.is_huge (s.memory.word t i) ≡ true)
      ⊎ (s.pt.level ≤ length ls + 1)

  written-IsTable :
      Ends
      → (x j p : ℕ) (lx : List ℕ) → own x ≡ some lx
      → length lx + 1 < s.pt.level
      → IsTable P (s.memory.word x j) p
      → IsTable P (written x j) p
  written-IsTable ends x j p lx h d q = elim (Bool-cases (t == x && i == j)) [
    | inr miss ↦ rw miss q
    | inl hit ↦
        let at : t ≡ x = ground arith in
        let at' : i ≡ j = ground arith in
        let e : s.memory.word t i ≡ s.memory.word x j = rw (at, at') refl in
        elim ends [
          | inl unused ↦ cc (unused, e, q.used)
          | inr rest ↦ elim rest [
            | inl huge ↦ cc (huge, e, q.table)
            | inr last ↦
                let n : length lx ≡ length ls = cc (same_label x lx j h hit) in absurd (omega arith)
          ]
        ]
  ]

  own_next :
      (x j p : ℕ) (lx : List ℕ)
      → own x ≡ some lx
      → length lx + 1 < s.pt.level
      → IsTable P (s.memory.word x j) p
      → own p ≡ some (j ∷ lx)
  own_next x j p lx h d q = ap own (sym q.target) ∙ v.child x lx j h d q.present q.table

  -- The write is behind the tables that lead to it.
  pub written_hit :
      Ends
      → (is : List ℕ) (x : ℕ) (lx rest : List ℕ) → own x ≡ some lx
      → length lx + length is < s.pt.level
      → Leads P s.memory.word x is t
      → resolve P written x (is ++ i ∷ rest) ≡ resolve P written t (i ∷ rest)
  written_hit u [] x lx rest h d l = ap (λ (y : ℕ). resolve P written y (i ∷ rest)) l
  written_hit u (j ∷ []) x lx rest h d (p, q, l) =
      resolve_through P written x j i p rest (written-IsTable u x j p lx h (omega arith) q)
      ∙ written_hit u [] p (j ∷ lx) rest (own_next x j p lx h (omega arith) q) (omega arith) l
  written_hit u (j ∷ k ∷ is) x lx rest h d (p, q, l) =
      resolve_through P written x j k p (is ++ i ∷ rest)
        (written-IsTable u x j p lx h (omega arith) q)
      ∙ written_hit u (k ∷ is) p (j ∷ lx) rest (own_next x j p lx h (omega arith) q) (omega arith) l
