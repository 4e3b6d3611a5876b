-- ===== src/Hypercall/Shutdown.antt =====
-- `hv_zone_shutdown` of src/hypercall/mod.rs: the CPUs of the zone leave it, and it is removed.
use sys_hyper.Base.{
  ℕ, suc, ◌+◌, ◌-◌, ◌^◌, ◌<◌, ◌≡◌, ◌≢◌, refl, sym, ◌∙◌, true, false, ◌&&◌, ◌==◌, if◌then◌else◌,
  Bool-cases, inl, inr, Option, none, some, List, [], ◌∷◌, length, arith, lt→ltb, bit_or, ◌*◌, ◌%◌,
}
use sys_hyper.Base.Run.{Run, and_then, pure, ◌>>◌, ok, err, panic, hang}
use sys_hyper.Event.{send_event, EventManager, add_event}
use sys_hyper.Hypercall.{shut_cpus, on_bus, hv_zone_shutdown}
use sys_hyper.Irqchip.Gicd.{Gic}
use sys_hyper.Irqchip.Reset.{arch_irqchip_reset, reset_words-ok}
use sys_hyper.Machine.NewZone.{Host, Devices}
use sys_hyper.Zone.Create.{MmioHandler, GuestMemory}
use sys_hyper.Memory.Mmio.{Bus}
use sys_hyper.Machine.{
  Machine, Stop, first_zone, is_this_root_zone, on_zones, lifted, leave_zone, update,
}
use sys_hyper.Percpu.CpuSet.{IsCpuSet, Increasing, has, member, iter, iter-Lists}
use sys_hyper.Zone.ZoneList.{Distinct, Removes, Zones, with_id, remove_zone, remove_zone-Removes}
use sys_hyper.Percpu.PerCpu.{PerCpu, invalid_address}

-- A CPU that has left its zone.
abbrev pub cleared : PerCpu → PerCpu
cleared p = record p { zone = none; cpu_on_entry = invalid_address }

above : (k j : ℕ) (l : List ℕ) → Increasing k l → j < k → has l j ≡ false
above k j [] i h = refl
above k j (x ∷ xs) (le, i) h = let rest = above (suc x) j xs i (omega arith) in ground (arith, rest)

module _ {Handler Gpm Device : Type 0} where
  -- All CPUs of a list have left zone `z`, whose references are `n` now.
  abbrev LeftBy :
      ℕ
      → ℕ
      → List ℕ
      → Machine Handler Gpm Device
      → Run Stop (Machine Handler Gpm Device) (Unit {0})
      → Type 0
  LeftBy z n l s (ok u t) =
      ((j : ℕ) → t.cpus j ≡ (if has l j then cleared (s.cpus j) else s.cpus j))
      × (t.zones.zone ≡ s.zones.zone)
      × (t.zones.zone_list ≡ s.zones.zone_list)
      × (t.zones.strong_count z ≡ n)
      × (t.gic ≡ s.gic)
      × (t.core ≡ s.core)
  LeftBy z n l s (err e t) = ⊥
  LeftBy z n l s panic = ⊥
  LeftBy z n l s hang = ⊥

  -- The state when CPU `c` has left zone `z`.
  abbrev left_one : ℕ → ℕ → EventManager → Machine Handler Gpm Device → Machine Handler Gpm Device
  left_one c z m s = record s {
    zones = record s.zones {
      strong_count = λ y. if y == z then s.zones.strong_count z - 1 else s.zones.strong_count y;
    };
    cpus = update c (cleared (s.cpus c)) (update c (record (s.cpus c) { zone = none }) s.cpus);
    events = record {
      manager = some ((add_event c 1 m).0);
      sent = bit_or (7 * 2 ^ 24 % 2 ^ 64) (2 ^ c) ∷ s.events.sent;
    };
  }

  shut_cpus-step :
      (c : ℕ) (cs : List ℕ) (z : ℕ) (m : EventManager) (s : Machine Handler Gpm Device)
      → (s.cpus c).zone ≡ some z
      → s.events.manager ≡ some m
      → c < 64
      → shut_cpus (c ∷ cs) s ≡ shut_cpus cs (left_one c z m s)
  unfolding shut_cpus leave_zone send_event
  shut_cpus-step c cs z m s hz hm small =
      let r : (c == c) ≡ true = ground arith in rw (hz, hm, lt→ltb c 64 small, r) refl

  left_one-LeftBy :
      (c z n k : ℕ) (cs : List ℕ) (m : EventManager) (s : Machine Handler Gpm Device)
      → Increasing (suc c) cs
      → (r : Run Stop (Machine Handler Gpm Device) (Unit {0})) → LeftBy z n cs (left_one c z m s) r
      → LeftBy z n (c ∷ cs) s r
  left_one-LeftBy c z n k cs m s i (ok u t) (h, a, b, d, g, e) = (
    λ j. h j ∙ elim (Bool-cases (c == j)) [
      | inl hit ↦
          let miss = above (suc c) j cs i (ground arith) in
          let q : (j == c) ≡ true = ground arith in
          let p : j ≡ c = ground arith in rw (miss, q, hit) (rw p refl)
      | inr other ↦ let q : (j == c) ≡ false = ground arith in rw (q, other) refl
    ],
    a,
    b,
    d,
    g,
    e,
  )
  left_one-LeftBy c z n k cs m s i (err e t) h = h
  left_one-LeftBy c z n k cs m s i panic h = h
  left_one-LeftBy c z n k cs m s i hang h = h

  shut_cpus-LeftBy :
      (cs : List ℕ) (k z n : ℕ) (m : EventManager) (s : Machine Handler Gpm Device)
      → Increasing k cs
      → ((j : ℕ) → has cs j ≡ true → ((s.cpus j).zone ≡ some z) × (j < 64))
      → s.events.manager ≡ some m
      → s.zones.strong_count z ≡ length cs + n
      → LeftBy z n cs s (shut_cpus cs s)
  unfolding shut_cpus
  shut_cpus-LeftBy [] k z n m s i h e count =
      (λ j. refl, refl, refl, count ∙ omega arith, refl, refl)
  shut_cpus-LeftBy (c ∷ cs) k z n m s (le, i) h e count =
      let r : (c == c) ≡ true = ground arith in
      let own = h c (rw r refl) in
      let q : (z == z) ≡ true = ground arith in
      rw (shut_cpus-step c cs z m s own.0 e own.1) (
        left_one-LeftBy c z n k cs m s i _ (
          shut_cpus-LeftBy cs (suc c) z n ((add_event c 1 m).0) (left_one c z m s) i
            (others c z m cs s i h) refl (rw q (omega arith))))
    where
      others :
          (c z : ℕ) (m : EventManager) (cs : List ℕ) (s : Machine Handler Gpm Device)
          → Increasing (suc c) cs
          → ((j : ℕ) → has (c ∷ cs) j ≡ true → ((s.cpus j).zone ≡ some z) × (j < 64))
          → (j : ℕ) → has cs j ≡ true
          → (((left_one c z m s).cpus j).zone ≡ some z) × (j < 64)
      others c z m cs s i h j m' = elim (Bool-cases (c == j)) [
        | inl hit ↦
            let miss = above (suc c) j cs i (ground arith) in let clash = rw miss at m' in cc clash
        | inr other ↦
            let q : (j == c) ≡ false = ground arith in
            let there : has (c ∷ cs) j ≡ true = rw other m' in rw q (h j there)
      ]

module _ {State Device : Type 0} where
  -- The root zone asks for a zone of the list that is not its own: only its CPUs and the list refer
  -- to the zone, their numbers are below 64, and the queues of events and the interrupt controller
  -- are set up.
  pub record CanShut (me zone_id : ℕ) (z : ℕ) (cpus : List ℕ) (m : EventManager) (gic : Gic)
      (s : Host State Device) : Type 0 where
    pub root : ℕ
    pub mine : (s.cpus me).zone ≡ some root
    pub first : first_zone s.zones.zone_list ≡ some root
    pub not_root : zone_id ≢ 0
    pub found : with_id s.zones.zone zone_id s.zones.zone_list ≡ some z
    pub distinct : Distinct s.zones.zone s.zones.zone_list
    pub small : IsCpuSet (s.zones.zone z).cpu_set
    pub listed : iter (s.zones.zone z).cpu_set ≡ some cpus
    pub members : (j : ℕ) → member (s.zones.zone z).cpu_set j ≡ true → (s.cpus j).zone ≡ some z
    pub counted : s.zones.strong_count z ≡ length cpus + 1
    pub queues : s.events.manager ≡ some m
    pub controller : s.gic ≡ some gic

  -- What a shutdown does.
  abbrev pub Shuts : ℕ → ℕ → Host State Device → Run Stop (Host State Device) ℕ → Type 0
  Shuts zone_id z s (ok v t) =
      (v ≡ 0)
      × ((j : ℕ)
          → t.cpus j ≡ (if member (s.zones.zone z).cpu_set j then cleared (s.cpus j) else s.cpus j))
      × ((a : ℕ)
          → with_id s.zones.zone a t.zones.zone_list
            ≡ (if a == zone_id then none else with_id s.zones.zone a s.zones.zone_list))
      × (t.zones.zone ≡ s.zones.zone)
      × (t.core ≡ s.core)
  Shuts zone_id z s (err e t) = ⊥
  Shuts zone_id z s panic = ⊥
  Shuts zone_id z s hang = ⊥

  -- The end of a shutdown, when the CPUs have left.
  removed :
      (zone_id z : ℕ) (s t : Host State Device)
      → ((j : ℕ)
          → t.cpus j ≡ (if member (s.zones.zone z).cpu_set j then cleared (s.cpus j) else s.cpus j))
      → t.core ≡ s.core
      → t.zones.zone ≡ s.zones.zone
      → t.zones.zone_list ≡ s.zones.zone_list
      → with_id s.zones.zone zone_id s.zones.zone_list ≡ some z
      → t.zones.strong_count z ≡ 1
      → (d : Devices State Device) → (r : Run Stop (Zones MmioHandler GuestMemory) (Unit {0}))
      → Removes zone_id t.zones r
      → Shuts zone_id z s
          (and_then (lifted (λ y. record t { device = d; zones = y }) r) (λ _. pure 0))
  removed zone_id z s t h core zone list found sole d (ok u y) (a, b, c) =
      (refl, h, λ i. rw (zone, list) at (c i), a ∙ zone, core)
  removed zone_id z s t h core zone list found sole d (err e y) g = absurd g
  removed zone_id z s t h core zone list found sole d hang g = absurd g
  removed zone_id z s t h core zone list found sole d panic (inl missing) =
      let missing' = rw (zone, list, found) at missing in cc missing'
  removed zone_id z s t h core zone list found sole d panic (inr (w, there, shared)) =
      let there' = rw (zone, list, found) at there in
      let same : z ≡ w = cc there' in absurd (shared (rw (sym same) sole))

  left :
      (D : Bus Device) (zone_id z : ℕ) (gic : Gic) (o : Option Gic) (cpus masks : List ℕ)
      (s : Host State Device)
      → o ≡ some gic
      → ((j : ℕ) → has cpus j ≡ (member (s.zones.zone z).cpu_set j && true))
      → Distinct s.zones.zone s.zones.zone_list
      → with_id s.zones.zone zone_id s.zones.zone_list ≡ some z
      → (r : Run Stop (Host State Device) (Unit {0})) → LeftBy z 1 cpus s r
      → Shuts zone_id z s (
          and_then r (λ _.
            on_bus D (arch_irqchip_reset D o masks) >> (on_zones (remove_zone zone_id) >> pure 0)))
  unfolding arch_irqchip_reset
  left D zone_id z gic o cpus masks s og members distinct found (ok u t)
        (h, zone, list, sole, g, core) =
      let (d', e) = reset_words-ok {E = Stop} D gic.gicd_base 0 masks t.device.bus in
      let distinct' : Distinct t.zones.zone t.zones.zone_list = rw (zone, list) distinct in
      rw (og, e)
        (removed zone_id z s t
          (λ j.
            let q = members j in
            h j ∙ elim (Bool-cases (member (s.zones.zone z).cpu_set j)) [
              | inl m ↦ let q' = rw m at q in rw (q', m) refl
              | inr m ↦ let q' = rw m at q in rw (q', m) refl
            ])
          core zone list found sole (record t.device { bus = d' }) (remove_zone zone_id t.zones)
          (remove_zone-Removes Stop zone_id t.zones distinct'))
  left D zone_id z gic o cpus masks s og members distinct found (err e t) g = absurd g
  left D zone_id z gic o cpus masks s og members distinct found hang g = absurd g
  left D zone_id z gic o cpus masks s og members distinct found panic g = absurd g

  module _ (D : Bus Device) (me zone_id z : ℕ) (cpus : List ℕ) (m : EventManager) (gic : Gic)
      (s : Host State Device) (v : CanShut me zone_id z cpus m gic s) where
    -- When the root zone asks for a zone of the list that is not its own, the zone's CPUs are below 64
    -- and refer to it, nothing but these CPUs and the list does, the identities of the list are
    -- different, and the event queues and the interrupt controller are set up: the shutdown returns
    -- 0. The zone's CPUs, and no others, have left it and have no entry point; no zone of the list has
    -- its identity, every other identity has the zone that it had; and no CPU's registers have changed.
    pub hv_zone_shutdown-Shuts : Shuts zone_id z s (hv_zone_shutdown D me zone_id s)
    unfolding hv_zone_shutdown is_this_root_zone
    hv_zone_shutdown-Shuts =
        let r : (v.root == v.root) ≡ true = ground arith in
        let nz : (zone_id == 0) ≡ false = ground (arith, v.not_root) in
        let lists = rw v.listed at (iter-Lists (s.zones.zone z).cpu_set v.small) in
        rw (v.mine, v.first, r, nz, v.found, v.listed)
          (left D zone_id z gic s.gic cpus (s.zones.zone z).irq_bitmap s v.controller lists.1
            v.distinct v.found (shut_cpus cpus s)
            (shut_cpus-LeftBy cpus 0 z 1 m s lists.0
              (λ j there.
                let q = lists.1 j in
                let q' = rw there at q in
                let inside : member (s.zones.zone z).cpu_set j ≡ true = ground arith in
                (v.members j inside, ground (arith, v.small.max_small)))
              v.queues v.counted))
