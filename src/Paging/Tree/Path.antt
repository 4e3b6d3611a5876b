-- ===== src/Paging/Tree/Path.antt =====
-- Virtual addresses and the indices of their walk (src/arch/aarch64/paging.rs).
use sys_hyper.Base.{
  ℕ, ◌+◌, ◌≤◌, ◌/◌, ◌%◌, ◌^◌, ◌≡◌, refl, ◌⊎◌, inl, inr, ◌==◌, Bool-cases, if◌then◌else◌, List, [],
  ◌∷◌, ◌++◌, length, arith,
}
use sys_hyper.Paging.PageSize.{
  PageSize, bytes, p4_index, p3_index, p2_index, p1_index, p4_index-mod, p3_index-mod, p2_index-mod,
  p1_index-mod,
}
use sys_hyper.Paging.Table.{HvPageTable}
use sys_hyper.Paging.Tree.{path}
use sys_hyper.Paging.Tree.Descend.{steps, leaf, labels}
use sys_hyper.Paging.Tree.Leaf.{Passes}

-- The page of an address among those of one size; a table of three levels reads 39 bits of an
-- address, one of four levels 48.
abbrev pub page_of : HvPageTable → PageSize → ℕ → ℕ
page_of pt size vaddr =
    if pt.level == 4
    then vaddr / bytes size % (2 ^ 48 / bytes size)
    else vaddr / bytes size % (2 ^ 39 / bytes size)

abbrev pub rest : PageSize → ℕ → List ℕ
rest PageSize.size1_g vaddr = p2_index vaddr ∷ p1_index vaddr ∷ []
rest PageSize.size2_m vaddr = p1_index vaddr ∷ []
rest PageSize.size4_k vaddr = []

module _ (pt : HvPageTable) where
  pub path_split :
      (size : PageSize) (va : ℕ) → path pt va ≡ steps pt size va ++ leaf size va ∷ rest size va
  path_split PageSize.size1_g va = ground arith
  path_split PageSize.size2_m va = ground arith
  path_split PageSize.size4_k va = ground arith

  pub length-path : (va : ℕ) → (pt.level ≡ 3) ⊎ (pt.level ≡ 4) → length (path pt va) ≡ pt.level
  length-path va h = ground arith

  pub length-steps-lt :
      (size : PageSize) (va : ℕ)
      → (pt.level ≡ 3) ⊎ (pt.level ≡ 4)
      → length {A = ℕ} (steps pt size va) + 1 ≤ pt.level
  length-steps-lt size va h = ground arith

  module _ (va vaddr : ℕ) where
    pub same_page_leaf :
        (size : PageSize)
        → page_of pt size va ≡ page_of pt size vaddr
        → leaf size va ≡ leaf size vaddr
    same_page_leaf PageSize.size1_g h = elim (Bool-cases (pt.level == 4)) [
      | inl e ↦ let h' = rw e at h in omega (arith, p3_index-mod va, p3_index-mod vaddr)
      | inr e ↦ let h' = rw e at h in omega (arith, p3_index-mod va, p3_index-mod vaddr)
    ]
    same_page_leaf PageSize.size2_m h = elim (Bool-cases (pt.level == 4)) [
      | inl e ↦ let h' = rw e at h in omega (arith, p2_index-mod va, p2_index-mod vaddr)
      | inr e ↦ let h' = rw e at h in omega (arith, p2_index-mod va, p2_index-mod vaddr)
    ]
    same_page_leaf PageSize.size4_k h = elim (Bool-cases (pt.level == 4)) [
      | inl e ↦ let h' = rw e at h in omega (arith, p1_index-mod va, p1_index-mod vaddr)
      | inr e ↦ let h' = rw e at h in omega (arith, p1_index-mod va, p1_index-mod vaddr)
    ]

    pub same_page_steps :
        (size : PageSize)
        → page_of pt size va ≡ page_of pt size vaddr
        → steps pt size va ≡ steps pt size vaddr
    same_page_steps PageSize.size1_g h = elim (Bool-cases (pt.level == 4)) [
      | inl e ↦
          let h' = rw e at h in
          let e4 : p4_index va ≡ p4_index vaddr =
            omega (arith, h', p4_index-mod va, p4_index-mod vaddr) in
          rw (e, e4) refl
      | inr e ↦ let h' = rw e at h in rw (e) refl
    ]
    same_page_steps PageSize.size2_m h = elim (Bool-cases (pt.level == 4)) [
      | inl e ↦
          let h' = rw e at h in
          let e4 : p4_index va ≡ p4_index vaddr =
            omega (arith, h', p4_index-mod va, p4_index-mod vaddr) in
          let e3 : p3_index va ≡ p3_index vaddr =
            omega (arith, h', p3_index-mod va, p3_index-mod vaddr) in
          rw (e, e4, e3) refl
      | inr e ↦
          let h' = rw e at h in
          let e3 : p3_index va ≡ p3_index vaddr =
            omega (arith, h', p3_index-mod va, p3_index-mod vaddr) in
          rw (e, e3) refl
    ]
    same_page_steps PageSize.size4_k h = elim (Bool-cases (pt.level == 4)) [
      | inl e ↦
          let h' = rw e at h in
          let e4 : p4_index va ≡ p4_index vaddr =
            omega (arith, h', p4_index-mod va, p4_index-mod vaddr) in
          let e3 : p3_index va ≡ p3_index vaddr =
            omega (arith, h', p3_index-mod va, p3_index-mod vaddr) in
          let e2 : p2_index va ≡ p2_index vaddr =
            omega (arith, h', p2_index-mod va, p2_index-mod vaddr) in
          rw (e, e4, e3, e2) refl
      | inr e ↦
          let h' = rw e at h in
          let e3 : p3_index va ≡ p3_index vaddr =
            omega (arith, h', p3_index-mod va, p3_index-mod vaddr) in
          let e2 : p2_index va ≡ p2_index vaddr =
            omega (arith, h', p2_index-mod va, p2_index-mod vaddr) in
          rw (e, e3, e2) refl
    ]

    pub Passes-page :
        (size : PageSize)
        → Passes [] (path pt va) (leaf size vaddr ∷ labels (steps pt size vaddr) [])
        → page_of pt size va ≡ page_of pt size vaddr
    Passes-page PageSize.size1_g h = elim (Bool-cases (pt.level == 4)) [
      | inl e ↦
          let h' = rw e at h in
          rw e (
            ground
              (arith, p4_index-mod va, p4_index-mod vaddr, p3_index-mod va, p3_index-mod vaddr))
      | inr e ↦ let h' = rw e at h in rw e (ground (arith, p3_index-mod va, p3_index-mod vaddr))
    ]
    Passes-page PageSize.size2_m h = elim (Bool-cases (pt.level == 4)) [
      | inl e ↦
          let h' = rw e at h in
          rw e (
            ground (
              arith,
              p4_index-mod va,
              p4_index-mod vaddr,
              p3_index-mod va,
              p3_index-mod vaddr,
              p2_index-mod va,
              p2_index-mod vaddr,
            ))
      | inr e ↦
          let h' = rw e at h in
          rw e (
            ground
              (arith, p3_index-mod va, p3_index-mod vaddr, p2_index-mod va, p2_index-mod vaddr))
    ]
    Passes-page PageSize.size4_k h = elim (Bool-cases (pt.level == 4)) [
      | inl e ↦
          let h' = rw e at h in
          rw e (
            ground (
              arith,
              p4_index-mod va,
              p4_index-mod vaddr,
              p3_index-mod va,
              p3_index-mod vaddr,
              p2_index-mod va,
              p2_index-mod vaddr,
              p1_index-mod va,
              p1_index-mod vaddr,
            ))
      | inr e ↦
          let h' = rw e at h in
          rw e (
            ground (
              arith,
              p3_index-mod va,
              p3_index-mod vaddr,
              p2_index-mod va,
              p2_index-mod vaddr,
              p1_index-mod va,
              p1_index-mod vaddr,
            ))
    ]
