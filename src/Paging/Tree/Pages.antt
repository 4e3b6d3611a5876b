-- ===== src/Paging/Tree/Pages.antt =====
-- The pages that `map` of src/arch/aarch64/paging.rs chooses, and the addresses on them.
use sys_hyper.Base.{
  ℕ, ◌+◌, ◌%◌, ◌^◌, ◌≤◌, ◌<◌, ◌≡◌, ◌≢◌, refl, Bool, true, not, ◌&&◌, ◌==◌, ◌⊎◌, Bool-cases, inl,
  inr, if◌then◌else◌, leb, arith,
}
use sys_hyper.Memory.Flags.{contains, no_hugepages}
use sys_hyper.Paging.PageSize.{PageSize, bytes, is_aligned, page_offset-mod}
use sys_hyper.Paging.Table.{HvPageTable}
use sys_hyper.Paging.Map.{choose_size}
use sys_hyper.Paging.Tree.Path.{page_of}

-- The addresses that a table of this level translates.
abbrev pub limit : HvPageTable → ℕ
limit pt = if pt.level == 4 then 2 ^ 48 else 2 ^ 39

pub bytes-pages : (size : PageSize) → (bytes size % 0x1000 ≡ 0) × (0x1000 ≤ bytes size)
bytes-pages PageSize.size4_k = (refl, omega arith)
bytes-pages PageSize.size2_m = (refl, omega arith)
bytes-pages PageSize.size1_g = (refl, omega arith)

pub limit-le : (pt : HvPageTable) → limit pt ≤ 2 ^ 48
limit-le pt = ground arith

pub is_aligned-true : (size : PageSize) (v : ℕ) → v % bytes size ≡ 0 → is_aligned size v ≡ true
unfolding is_aligned
is_aligned-true size v h = rw (page_offset-mod size v) (ground arith)

-- The page size that is chosen divides both addresses and fits what is left.
pub record Suits (size : PageSize) (vaddr paddr n : ℕ) : Type 0 where
  pub virtual : vaddr % bytes size ≡ 0
  pub physical : paddr % bytes size ≡ 0
  pub room : bytes size ≤ n

pub choose_size-Suits :
    (vaddr paddr n flags : ℕ)
    → vaddr % 0x1000 ≡ 0
    → paddr % 0x1000 ≡ 0
    → 0x1000 ≤ n
    → Suits (choose_size vaddr paddr n flags) vaddr paddr n
unfolding choose_size is_aligned
choose_size-Suits vaddr paddr n flags hv hp le = elim (Bool-cases (fits PageSize.size1_g)) [
  | inl giga ↦ rw giga (suits PageSize.size1_g giga)
  | inr small ↦ elim (Bool-cases (fits PageSize.size2_m)) [
    | inl mega ↦ rw (small, mega) (suits PageSize.size2_m mega)
    | inr page ↦ rw (small, page) (record { virtual = hv; physical = hp; room = le })
  ]
]
  where
    fits : PageSize → Bool
    fits z =
        is_aligned z vaddr
        && is_aligned z paddr
        && leb (bytes z) n
        && not (contains flags no_hugepages)

    suits : (z : PageSize) → fits z ≡ true → Suits z vaddr paddr n
    suits z h = record {
      virtual = ground (arith, page_offset-mod z vaddr);
      physical = ground (arith, page_offset-mod z paddr);
      room = ground arith;
    }

-- Two addresses below the limit are on a page together when they are on the aligned page.
pub on_page :
    (pt : HvPageTable) (size : PageSize) (v va : ℕ)
    → v % bytes size ≡ 0
    → va < limit pt
    → v ≤ va
    → va < v + bytes size
    → page_of pt size va ≡ page_of pt size v
on_page pt PageSize.size4_k v va a lt le lt' = elim (Bool-cases (pt.level == 4)) [
  | inl four ↦ let lt4 = rw four at lt in rw four (omega arith)
  | inr three ↦ let lt3 = rw three at lt in rw three (omega arith)
]
on_page pt PageSize.size2_m v va a lt le lt' = elim (Bool-cases (pt.level == 4)) [
  | inl four ↦ let lt4 = rw four at lt in rw four (omega arith)
  | inr three ↦ let lt3 = rw three at lt in rw three (omega arith)
]
on_page pt PageSize.size1_g v va a lt le lt' = elim (Bool-cases (pt.level == 4)) [
  | inl four ↦ let lt4 = rw four at lt in rw four (omega arith)
  | inr three ↦ let lt3 = rw three at lt in rw three (omega arith)
]

pub off_page :
    (pt : HvPageTable) (size : PageSize) (v va : ℕ)
    → v % bytes size ≡ 0
    → v < limit pt
    → va < limit pt
    → (va < v) ⊎ (v + bytes size ≤ va)
    → page_of pt size va ≢ page_of pt size v
off_page pt PageSize.size4_k v va a lv la far e = elim (Bool-cases (pt.level == 4)) [
  | inl four ↦
      let e4 = rw four at e in let la4 = rw four at la in let lv4 = rw four at lv in omega arith
  | inr three ↦
      let e3 = rw three at e in let la3 = rw three at la in let lv3 = rw three at lv in omega arith
]
off_page pt PageSize.size2_m v va a lv la far e = elim (Bool-cases (pt.level == 4)) [
  | inl four ↦
      let e4 = rw four at e in let la4 = rw four at la in let lv4 = rw four at lv in omega arith
  | inr three ↦
      let e3 = rw three at e in let la3 = rw three at la in let lv3 = rw three at lv in omega arith
]
off_page pt PageSize.size1_g v va a lv la far e = elim (Bool-cases (pt.level == 4)) [
  | inl four ↦
      let e4 = rw four at e in let la4 = rw four at la in let lv4 = rw four at lv in omega arith
  | inr three ↦
      let e3 = rw three at e in let la3 = rw three at la in let lv3 = rw three at lv in omega arith
]
