-- ===== src/Hypercall/Results.antt =====
-- `hv_virtio_inject_irq` of src/hypercall/mod.rs takes all results and ends.
use sys_hyper.Base.{
  Option-cases, get_elem?, ltb, ℕ, zero, suc, ◌+◌, ◌-◌, ◌%◌, ◌<◌, ◌≡◌, ◌≢◌, refl, Bool, true, false,
  ◌==◌, Bool-cases, inl, inr, none, some, List, bit_and, arith,
}
use sys_hyper.Base.Bits.Mask.{bit_and-low_mask}
use sys_hyper.Base.Run.{Run, and_then, ok, err, panic, hang, pure}
use sys_hyper.Error.{HvErrorNum}
use sys_hyper.Event.{send_event}
use sys_hyper.Hypercall.{
  irqs_or_none, deliver_result, advance, note_irq, take_result, take_results, hv_virtio_inject_irq,
}
use sys_hyper.Machine.{Machine, MachineM, Stop, is_this_root_zone, first_zone, on_events}
use sys_hyper.Percpu.CpuSet.{first_cpu}
use sys_hyper.Virtio.Irqs.{add_irq}
use sys_hyper.Zone.ZoneList.{with_id}
use sys_hyper.Virtio.Bridge.{VirtioBridgeRegion, region, is_res_list_empty}

abbrev advanced : VirtioBridgeRegion → VirtioBridgeRegion
advanced b = record b {
  shared = record b.shared { res_front = bit_and (b.shared.res_front + 1) (32 - 1) };
}

-- One step of the front round the ring brings it nearer to the rear.
nearer :
    (front rear fuel next : ℕ)
    → next ≡ (front + 1) % 32
    → rear < 32
    → front < 32
    → rear ≢ front
    → (rear + 32 - front) % 32 < suc fuel
    → (rear + 32 - next) % 32 < fuel
nearer front rear fuel next e small low ne h = omega arith

empty-eq :
    (b : VirtioBridgeRegion) (v : Bool)
    → is_res_list_empty b ≡ some v
    → (b.shared.res_rear == b.shared.res_front) ≡ v
unfolding is_res_list_empty region
empty-eq b v h = elim (Bool-cases b.is_enable) [
  | inl on ↦ let h' = rw on at h in cc h'
  | inr off ↦ let h' = rw off at h in cc h'
]

module _ {Handler Gpm Device : Type 0} where
  -- An operation that gives a result or panics, and leaves the bridge as `b` says.
  abbrev Leaves :
      {A : Type 0} → VirtioBridgeRegion → Run Stop (Machine Handler Gpm Device) A → Type 0
  Leaves b (ok a s) = s.bridge ≡ b
  Leaves b (err e s) = ⊥
  Leaves b panic = Unit
  Leaves b hang = ⊥

  send-Leaves :
      (cpu ipi event : ℕ) (s : Machine Handler Gpm Device)
      → Leaves s.bridge (on_events (send_event cpu ipi event) s)
  unfolding send_event
  send-Leaves cpu ipi event s = elim (Option-cases s.events.manager) [
    | inl e ↦ rw e tt
    | inr (m, e) ↦ elim (Bool-cases (ltb cpu 64)) [
      | inl small ↦ rw (e, small) refl
      | inr large ↦ rw (e, large) tt
    ]
  ]

  note_irq-Leaves :
      (cpu : ℕ) (p : List ℕ × Bool) (s : Machine Handler Gpm Device)
      → Leaves s.bridge (note_irq cpu p s)
  note_irq-Leaves cpu (irq_list, true) s = send-Leaves cpu _ _ _
  note_irq-Leaves cpu (irq_list, false) s = refl

  finish-Leaves :
      {A : Type 0} (b : VirtioBridgeRegion) (r : Run Stop (Machine Handler Gpm Device) A)
      (k : A → MachineM Handler Gpm Device (Unit {0})) (b' : VirtioBridgeRegion)
      → Leaves b r
      → ((a : A) (t : Machine Handler Gpm Device) → t.bridge ≡ b → Leaves b' (k a t))
      → Leaves b' (and_then r k)
  finish-Leaves b (ok a t) k b' h f = f a t h
  finish-Leaves b (err e t) k b' h f = absurd h
  finish-Leaves b panic k b' h f = h
  finish-Leaves b hang k b' h f = absurd h

  -- The result is delivered to the first CPU of the target zone, and the front moves on.
  for_target :
      (irq_id target : ℕ) (s : Machine Handler Gpm Device)
      → Leaves (advanced s.bridge) (deliver_result irq_id target s)
  for_target irq_id target s = elim (Option-cases (first_cpu (s.zones.zone target).cpu_set)) [
    | inl e ↦ rw e tt
    | inr (none, e) ↦ rw e tt
    | inr (some cpu, e) ↦ elim (Option-cases (add_irq irq_id (irqs_or_none (s.virtio_irqs cpu)))) [
      | inl f ↦ rw (e, f) tt
      | inr (p, f) ↦
          rw (e, f)
            (finish-Leaves s.bridge (note_irq cpu p s) (λ _. advance) (advanced s.bridge)
              (note_irq-Leaves cpu p s) (λ u t h. rw h refl))
    ]
  ]

  take_result-Leaves : (s : Machine Handler Gpm Device) → Leaves (advanced s.bridge) (take_result s)
  unfolding take_result
  take_result-Leaves s = elim (Option-cases (region s.bridge)) [
    | inl e ↦ rw e tt
    | inr (shared, e) ↦ elim (Option-cases (get_elem? shared.res_list shared.res_front)) [
      | inl f ↦ rw (e, f) tt
      | inr (res, f) ↦
          elim (Option-cases (with_id s.zones.zone res.target_zone s.zones.zone_list)) [
            | inl g ↦ rw (e, f, g) tt
            | inr (target, g) ↦ rw (e, f, g) (for_target res.irq_id target s)
          ]
    ]
  ]

  -- All results are taken: the front meets the rear, which has not moved.
  abbrev Drains : ℕ → Run Stop (Machine Handler Gpm Device) (Unit {0}) → Type 0
  Drains rear (ok u s) = (s.bridge.shared.res_front ≡ rear) × (s.bridge.shared.res_rear ≡ rear)
  Drains rear (err e s) = ⊥
  Drains rear panic = Unit
  Drains rear hang = ⊥

  after_one :
      (rear : ℕ) (b : VirtioBridgeRegion) (r : Run Stop (Machine Handler Gpm Device) (Unit {0}))
      (k : MachineM Handler Gpm Device (Unit {0}))
      → Leaves b r
      → ((t : Machine Handler Gpm Device) → t.bridge ≡ b → Drains rear (k t))
      → Drains rear (and_then r (λ _. k))
  after_one rear b (ok u t) k h f = f t h
  after_one rear b (err e t) k h f = absurd h
  after_one rear b panic k h f = h
  after_one rear b hang k h f = absurd h

  take_results-Drains :
      (fuel rear : ℕ) (s : Machine Handler Gpm Device)
      → s.bridge.shared.res_rear ≡ rear
      → rear < 32
      → s.bridge.shared.res_front < 32
      → (rear + 32 - s.bridge.shared.res_front) % 32 < fuel
      → Drains rear (take_results fuel s)
  unfolding take_results
  take_results-Drains zero rear s e small front h = elim h [ ]
  take_results-Drains (suc fuel) rear s e small front h =
      elim (Option-cases (is_res_list_empty s.bridge)) [
        | inl off ↦ rw off tt
        | inr (true, done) ↦ let q = empty-eq s.bridge true done in rw done (ground arith, e)
        | inr (false, more) ↦
            let q = empty-eq s.bridge false more in
            let apart : rear ≢ s.bridge.shared.res_front = λ p. ground arith in
            rw more (
              after_one rear (advanced s.bridge) (take_result s) (take_results fuel)
                (take_result-Leaves s)
                (λ t g.
                  let low : bit_and (s.bridge.shared.res_front + 1) (32 - 1)
                      ≡ (s.bridge.shared.res_front + 1) % 32 =
                    bit_and-low_mask 5 (s.bridge.shared.res_front + 1) in
                  take_results-Drains fuel rear t (rw g e) small (rw g (omega (arith, low)))
                    (rw g (nearer s.bridge.shared.res_front rear fuel _ low small front apart h))))
      ]

  abbrev pub Ends : Machine Handler Gpm Device → Run Stop (Machine Handler Gpm Device) ℕ → Type 0
  Ends s (ok v t) =
      (v ≡ 0)
      × (t.bridge.shared.res_front ≡ s.bridge.shared.res_rear)
      × (t.bridge.shared.res_rear ≡ s.bridge.shared.res_rear)
  Ends s (err Stop.runs t) = ⊥
  Ends s (err Stop.idles t) = ⊥
  Ends s (err (Stop.hv_err e) t) = (e ≡ HvErrorNum.eperm) × (t ≡ s)
  Ends s panic = Unit
  Ends s hang = ⊥

  drained :
      (s : Machine Handler Gpm Device) (r : Run Stop (Machine Handler Gpm Device) (Unit {0}))
      → Drains s.bridge.shared.res_rear r
      → Ends s (and_then r (λ _. pure 0))
  drained s (ok u t) h = (refl, h.0, h.1)
  drained s (err e t) h = absurd h
  drained s panic h = h
  drained s hang h = absurd h

  -- When the front and the rear of the list of results are below 32, the loop of
  -- `hv_virtio_inject_irq` ends: the call takes all results, up to the rear, which it leaves, and
  -- returns 0; it panics; or it changes nothing and returns EPERM.
  pub hv_virtio_inject_irq-Ends :
      (me : ℕ) (s : Machine Handler Gpm Device)
      → s.bridge.shared.res_rear < 32
      → s.bridge.shared.res_front < 32
      → Ends s (hv_virtio_inject_irq me s)
  unfolding hv_virtio_inject_irq is_this_root_zone
  hv_virtio_inject_irq-Ends me s small front = elim (Option-cases (s.cpus me).zone) [
    | inl e ↦ rw e tt
    | inr (z, e) ↦ elim (Option-cases (first_zone s.zones.zone_list)) [
      | inl f ↦ rw (e, f) tt
      | inr (root, f) ↦ elim (Bool-cases (z == root)) [
        | inr foreign ↦ rw (e, f, foreign) (refl, refl)
        | inl mine ↦
            rw (e, f, mine)
              (drained s (take_results 33 s)
                (take_results-Drains 33 s.bridge.shared.res_rear s refl small front (omega arith)))
      ]
    ]
  ]
