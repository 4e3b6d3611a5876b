-- ===== src/Zone/ZoneList.antt =====
-- `Zone` and the list of zones `ZONE_LIST` of src/zone.rs. A zone is shared through its `Arc`: the
-- list holds the address of the shared zone, and the state counts the strong references. What each
-- lock guards is read and changed by one operation at a time.
use sys_hyper.Base.{
  ℕ, ◌+◌, ◌≡◌, ◌≢◌, refl, false, ◌==◌, if◌then◌else◌, Bool-cases, inl, inr, ◌⊎◌, ==→≢, Option, none,
  some, List, [], ◌∷◌, ◌++◌, replicate, arith,
}
use sys_hyper.Base.Run.{M, Run, ok, err, panic, hang, ◌>>=◌, ◌>>◌, pure, get, put, unwrap}
use sys_hyper.Irqchip.Gicd.{max_cpu_num}
use sys_hyper.Percpu.CpuSet
use sys_hyper.Zone.MmioRegions.{MmioConfig}

module _ (Handler Gpm : Type 0) where
  pub record Zone : Type 0 where
    pub id : ℕ
    pub mmio : List (MmioConfig Handler)
    pub cpu_set : CpuSet.CpuSet
    pub irq_bitmap : List ℕ
    pub gpm : Gpm

  pub record Zones : Type 0 where
    pub zone_list : List ℕ
    pub zone : ℕ → Zone
    pub strong_count : ℕ → ℕ

abbrev behind : ℕ → Option (ℕ × List ℕ) → Option (ℕ × List ℕ)
behind z none = none
behind z (some (x, zs)) = some (x, z ∷ zs)

abbrev pub count_set : ℕ → ℕ → (ℕ → ℕ) → ℕ → ℕ
count_set z n count y = if y == z then n else count y

abbrev first : List ℕ → Option ℕ
first [] = none
first (z ∷ zs) = some z

module _ {Handler Gpm : Type 0} where
  -- `Zone::new`; the memory set of `new_s2_memory_set` is an argument.
  unfoldable pub new_zone : Gpm → ℕ → Zone Handler Gpm
  unfolding CpuSet.new
  new_zone gpm zoneid = record {
    id = zoneid;
    mmio = [];
    cpu_set = CpuSet.new max_cpu_num 0;
    irq_bitmap = replicate 32 0;
    gpm = gpm;
  }

  -- The first zone of a list with an identity.
  unfoldable pub with_id : (ℕ → Zone Handler Gpm) → ℕ → List ℕ → Option ℕ
  with_id zone zone_id [] = none
  with_id zone zone_id (z ∷ zs) =
      let rest = with_id zone zone_id zs in if (zone z).id == zone_id then some z else rest

  -- That zone, and the list without it.
  unfoldable take_out : (ℕ → Zone Handler Gpm) → ℕ → List ℕ → Option (ℕ × List ℕ)
  take_out zone zone_id [] = none
  take_out zone zone_id (z ∷ zs) =
      let rest = take_out zone zone_id zs in
      if (zone z).id == zone_id then some (z, zs) else behind z rest

  module _ {E : Type 0} where
    abbrev cloned : Option ℕ → M E (Zones Handler Gpm) (Option ℕ)
    cloned none = pure none
    cloned (some z) = do
      s ← get
      put (record s { strong_count = count_set z (s.strong_count z + 1) s.strong_count })
      pure (some z)

    unfoldable pub find_zone : ℕ → M E (Zones Handler Gpm) (Option ℕ)
    unfolding with_id
    find_zone zone_id = do s ← get; cloned (with_id s.zone zone_id s.zone_list)

    unfoldable pub root_zone : M E (Zones Handler Gpm) ℕ
    root_zone = do s ← get; o ← cloned (first s.zone_list); unwrap o

    -- The caller's reference moves into the list.
    unfoldable pub add_zone : ℕ → M E (Zones Handler Gpm) (Unit {0})
    add_zone z = do s ← get; put (record s { zone_list = s.zone_list ++ (z ∷ []) })

    -- The removed reference is dropped at the end.
    abbrev pub drop_zone : Option (ℕ × List ℕ) → M E (Zones Handler Gpm) (Unit {0})
    drop_zone none s = panic
    drop_zone (some (z, zs)) s =
        if s.strong_count z == 1
        then ok tt (record s { zone_list = zs; strong_count = count_set z 0 s.strong_count })
        else panic

    unfoldable pub remove_zone : ℕ → M E (Zones Handler Gpm) (Unit {0})
    unfolding take_out
    remove_zone zone_id = do s ← get; drop_zone (take_out s.zone zone_id s.zone_list)

  -- No two zones of a list have the same identity.
  abbrev pub Distinct : (ℕ → Zone Handler Gpm) → List ℕ → Type 0
  Distinct zone [] = Unit
  Distinct zone (z ∷ zs) = (with_id zone (zone z).id zs ≡ none) × Distinct zone zs

  -- What taking a zone out of a list leaves.
  abbrev pub Leaves : (ℕ → Zone Handler Gpm) → ℕ → List ℕ → Option (ℕ × List ℕ) → Type 0
  Leaves zone zone_id zs none = with_id zone zone_id zs ≡ none
  Leaves zone zone_id zs (some (z, rest)) =
      (with_id zone zone_id zs ≡ some z)
      × Distinct zone rest
      × ((a : ℕ) → with_id zone a rest ≡ (if a == zone_id then none else with_id zone a zs))

  behind-Leaves :
      (zone : ℕ → Zone Handler Gpm) (zone_id z : ℕ) (zs : List ℕ)
      → with_id zone (zone z).id zs ≡ none
      → ((zone z).id == zone_id) ≡ false
      → (r : Option (ℕ × List ℕ)) → Leaves zone zone_id zs r
      → Leaves zone zone_id (z ∷ zs) (behind z r)
  unfolding with_id
  behind-Leaves zone zone_id z zs f later none h = rw later h
  behind-Leaves zone zone_id z zs f later (some (x, rest)) (e, d, h) = (
    rw later e,
    (rw (h (zone z).id, later) f, d),
    λ a. elim (Bool-cases ((zone z).id == a)) [
      | inl hit ↦ let m : (a == zone_id) ≡ false = ground arith in rw (hit, m) refl
      | inr miss ↦ rw miss (h a)
    ],
  )

  take_out-Leaves :
      (zone : ℕ → Zone Handler Gpm) (zone_id : ℕ) (zs : List ℕ)
      → Distinct zone zs
      → Leaves zone zone_id zs (take_out zone zone_id zs)
  unfolding take_out with_id
  take_out-Leaves zone zone_id [] d = refl
  take_out-Leaves zone zone_id (z ∷ zs) (f, d) = elim (Bool-cases ((zone z).id == zone_id)) [
    | inl here ↦
        let e : (zone z).id ≡ zone_id = ground arith in
        let f' = rw e at f in
        rw (here) (
          rw here refl,
          d,
          λ a. elim (Bool-cases (a == zone_id)) [
            | inl hit ↦ let g : a ≡ zone_id = ground arith in rw (hit, g) f'
            | inr miss ↦ let m : ((zone z).id == a) ≡ false = ground arith in rw (miss, m) refl
          ],
        )
    | inr later ↦
        rw later (behind-Leaves zone zone_id z zs f later _ (take_out-Leaves zone zone_id zs d))
  ]

  -- What a removal of a zone does.
  abbrev pub Removes :
      {E : Type 0} → ℕ → Zones Handler Gpm → Run E (Zones Handler Gpm) (Unit {0}) → Type 0
  Removes zone_id s (ok _ s') =
      (s'.zone ≡ s.zone)
      × Distinct s.zone s'.zone_list
      × ((a : ℕ)
          → with_id s.zone a s'.zone_list
            ≡ (if a == zone_id then none else with_id s.zone a s.zone_list))
  Removes zone_id s (err e s') = ⊥
  Removes zone_id s hang = ⊥
  Removes zone_id s panic =
      (with_id s.zone zone_id s.zone_list ≡ none)
      ⊎ ((z : ℕ) × (with_id s.zone zone_id s.zone_list ≡ some z) × (s.strong_count z ≢ 1))

  dropped :
      (E : Type 0) (zone_id : ℕ) (s : Zones Handler Gpm) (r : Option (ℕ × List ℕ))
      → Leaves s.zone zone_id s.zone_list r
      → Removes {E = E} zone_id s (drop_zone r s)
  dropped E zone_id s none h = inl h
  dropped E zone_id s (some (z, rest)) (e, d, h) = elim (Bool-cases (s.strong_count z == 1)) [
    | inl sole ↦ rw sole (refl, d, h)
    | inr shared ↦ rw shared (inr (z, e, ==→≢ (s.strong_count z) 1 shared))
  ]

  -- On a list of zones with different identities: after a removal no zone of the list has the
  -- identity `zone_id`, every other identity has the zone that it had, the identities are different
  -- and no zone has changed. It panics only if no zone has this identity, or if the zone that has
  -- it is referred to from outside the list.
  pub remove_zone-Removes :
      (E : Type 0) (zone_id : ℕ) (s : Zones Handler Gpm)
      → Distinct s.zone s.zone_list
      → Removes {E = E} zone_id s (remove_zone zone_id s)
  unfolding remove_zone
  remove_zone-Removes E zone_id s d =
      dropped E zone_id s _ (take_out-Leaves s.zone zone_id s.zone_list d)
