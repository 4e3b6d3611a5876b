-- ===== src/Paging/Tree/Create.antt =====
-- A new table behind an unused entry (`next_table_mut_or_create` of src/arch/aarch64/paging.rs).
use sys_hyper.Base.{
  ℕ, ◌+◌, ◌<◌, ◌≡◌, ◌≢◌, refl, ◌∙◌, ap, true, false, ◌==◌, ◌&&◌, Bool-cases, ==→≡, ==_refl, inl,
  inr, if◌then◌else◌, List, [], ◌∷◌, ◌++◌, ◌⊎◌, some, length, arith,
}
use sys_hyper.Memory.Frame.{Frame, PhysMemory}
use sys_hyper.Memory.Frame.Bitmap.{BitAlloc}
use sys_hyper.Memory.Frame.Alloc.{IsFresh}
use sys_hyper.Paging.Pte.{GenericPte}
use sys_hyper.Paging.Table.{PtState, Words, slot}
use sys_hyper.Paging.Map.{store}
use sys_hyper.Paging.Tree.{resolve, resolve_cong, IsTable, IsTree}
use sys_hyper.Paging.Tree.Grow.{Owner, Grows}

module _ {State : Type 0} (B : BitAlloc State) (P : GenericPte) (own : Owner) (s : PtState State)
    (v : IsTree B P own s) (t i : ℕ) (ls : List ℕ) (o : own t ≡ some ls)
    (deep : length ls + 1 < s.pt.level) (unused : P.is_unused (s.memory.word t i) ≡ true)
    (f : Frame) (n : PhysMemory State) (fresh : IsFresh B s.memory f n) where
  abbrev pub p : ℕ
  p = f.start_paddr

  -- The memory with the entry set, and the owner of the new table.
  abbrev pub linked : Words
  linked = store B P n.word (slot t i) (P.set_table p (n.word t i))

  abbrev pub own_new : Owner
  own_new x = if x == p then some (i ∷ ls) else own x

  owned-ne : (x : ℕ) (lx : List ℕ) → own x ≡ some lx → x ≢ p
  owned-ne x lx h e = fresh.was_free (λ j q. v.taken x lx h j (e ∙ q))

  own_new-ext : (x : ℕ) (lx : List ℕ) → own x ≡ some lx → own_new x ≡ some lx
  own_new-ext x lx h = ground (arith, owned-ne x lx h)

  pub linked_slot : IsTable P (linked t i) p
  linked_slot =
      let laws = P.set_table_lem p (n.word t i) (fresh.frame_aligned, fresh.frame_below) in
      rw (==_refl t, ==_refl i)
        record { used = laws.0; present = laws.1; table = laws.2; target = laws.3 }

  linked_other :
      (x : ℕ) (lx : List ℕ) (j : ℕ)
      → own x ≡ some lx
      → (t == x && i == j) ≡ false
      → linked x j ≡ s.memory.word x j
  linked_other x lx j h ne = rw ne (fresh.kept x j (v.aligned x lx h) (owned-ne x lx h))

  linked_new : (j : ℕ) → linked p j ≡ 0
  linked_new j = ground (arith, owned-ne t ls o, fresh.zeroed j)

  same_place :
      (x : ℕ) (lx : List ℕ) (j : ℕ)
      → own x ≡ some lx
      → (t == x && i == j) ≡ true
      → (t ≡ x) × (i ≡ j) × (lx ≡ ls)
  same_place x lx j h hit = let e : t ≡ x = ground arith in (e, ground arith, cc (o, h, ap own e))

  -- Through the new table nothing is mapped, as nothing was before.
  linked_through :
      (k : ℕ) (is : List ℕ)
      → resolve P linked t (i ∷ k ∷ is) ≡ resolve P s.memory.word t (i ∷ k ∷ is)
  unfolding resolve
  linked_through k [] =
      let q = linked_slot in
      rw (unused, q.used, q.table, q.present, q.target, linked_new k, P.zero-unused)
  linked_through k (l ∷ is) =
      let q = linked_slot in
      rw (unused, q.used, q.table, q.present, q.target, linked_new k, P.zero-unused)

  linked_hit :
      (x j k : ℕ) (is : List ℕ)
      → t ≡ x
      → i ≡ j
      → resolve P linked x (j ∷ k ∷ is) ≡ resolve P s.memory.word x (j ∷ k ∷ is)
  linked_hit x j k is e d = rw (← e, ← d) (linked_through k is)

  linked_same :
      (is : List ℕ) (x : ℕ) (lx : List ℕ)
      → own x ≡ some lx
      → length lx + length is ≡ s.pt.level
      → resolve P linked x is ≡ resolve P s.memory.word x is
  unfolding resolve
  linked_same [] x lx h l = refl
  linked_same (j ∷ []) x lx h l = elim (Bool-cases (t == x && i == j)) [
    | inl hit ↦
        let e : length lx ≡ length ls = ap length ((same_place x lx j h hit).2) in
        absurd (omega arith)
    | inr miss ↦ rw (linked_other x lx j h miss)
  ]
  linked_same (j ∷ k ∷ is) x lx h l = elim (Bool-cases (t == x && i == j)) [
    | inl hit ↦ let q = same_place x lx j h hit in linked_hit x j k is q.0 q.1
    | inr miss ↦
        let e = s.memory.word x j in
        resolve_cong P s.memory.word linked x j k is (linked_other x lx j h miss) (λ present table.
          linked_same (k ∷ is) (P.addr e) (j ∷ lx) (v.child x lx j h (omega arith) present table)
            (omega arith))
  ]

  -- The state with the new table linked and recorded.
  abbrev pub after_create : PtState State
  after_create = record {
    pt = record (s.pt) { intrm_tables = s.pt.intrm_tables ++ f ∷ [] };
    memory = record n { word = linked };
  }

  linked_child :
      (x : ℕ) (lx : List ℕ) (j : ℕ)
      → own_new x ≡ some lx
      → length lx + 1 < s.pt.level
      → P.is_present (linked x j) ≡ true
      → P.is_huge (linked x j) ≡ false
      → own_new (P.addr (linked x j)) ≡ some (j ∷ lx)
  linked_child x lx j h d present table = elim (Bool-cases (x == p)) [
    | inl e ↦
        let zero : linked x j ≡ 0 = rw (==→≡ x p e) (linked_new j) in
        cc (present, ap P.is_present zero, P.unused_absent 0 P.zero-unused)
    | inr e ↦
        let owned : own x ≡ some lx = rw e at h in
        elim (Bool-cases (t == x && i == j)) [
          | inl hit ↦
              let q = same_place x lx j owned hit in
              let table_t = linked_slot in
              let e : P.addr (linked x j) ≡ p = rw (← q.0, ← q.1) table_t.target in
              rw (e, ==_refl p, ← q.1, q.2) refl
          | inr miss ↦
              let same = linked_other x lx j owned miss in
              rw same
                (own_new-ext _ _ (v.child x lx j owned d (rw same at present) (rw same at table)))
        ]
  ]

  owned_new :
      (x : ℕ) (lx : List ℕ) → own_new x ≡ some lx → ((x ≡ p) × (lx ≡ i ∷ ls)) ⊎ (own x ≡ some lx)
  owned_new x lx h = ground arith

  pub create-Grows : Grows B P own s own_new after_create
  create-Grows = record {
    same_root = refl;
    same_level = refl;
    ext = own_new-ext;
    keep = λ x lx j h u. linked_other x lx j h (ground arith);
    same = linked_same;
    tree = record {
      levels = v.levels;
      root_own = own_new-ext _ _ v.root_own;
      child = linked_child;
      taken = λ x lx h. elim (owned_new x lx h) [
        | inl e ↦ rw e.0 fresh.now_taken
        | inr e ↦ fresh.others x (v.taken x lx e)
      ];
      aligned = λ x lx h. elim (owned_new x lx h) [
        | inl e ↦ rw e.0 fresh.frame_aligned
        | inr e ↦ v.aligned x lx e
      ];
      ready = record { aligned = fresh.ready.aligned; below = fresh.ready.below };
    };
  }

  pub own_new_self : own_new p ≡ some (i ∷ ls)
  own_new_self = rw (==_refl p) refl
