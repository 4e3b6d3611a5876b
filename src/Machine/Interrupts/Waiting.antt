-- ===== src/Machine/Interrupts/Waiting.antt =====
-- What `handle_virtio_irq` of src/device/virtio_trampoline.rs does on the CPU `me`: the interrupts that
-- wait for the CPU go to its list registers.
use sys_hyper.Base.{
  ℕ, ◌≤◌, ◌≡◌, refl, sym, ap, ◌∙◌, true, false, ◌==◌, inl, inr, ◌⊎◌, some, List, [], ◌∷◌, length,
  take, arith, le→leb,
}
use sys_hyper.Base.Run.{Run, ok, err, panic, hang, and_then}
use sys_hyper.Irqchip.ListRegisters.{VirtualInterface, inject_irq}
use sys_hyper.Irqchip.ListRegisters.Inject.{Injects, inject_irq-Injects}
use sys_hyper.Machine.{Machine, Stop, update, lifted}
use sys_hyper.Machine.Interrupts.{inject_all, handle_virtio_irq}
use sys_hyper.Machine.Update.{update_same, update_here, update_twice}
use sys_hyper.Virtio.Irqs.{waiting, take_waiting}

module _ (elrsr : (ℕ → ℕ) → ℕ) where
  -- The interrupts are injected one after the other, which leads from one interface to the other.
  abbrev pub Placed : List ℕ → VirtualInterface → VirtualInterface → Type 0
  Placed [] v w = w ≡ v
  Placed (x ∷ xs) v w =
      (k : VirtualInterface) × Injects elrsr Stop x false v (ok tt k) × Placed xs k w

  -- One of the interrupts finds all list registers in use for others, after those before it.
  abbrev pub Full : List ℕ → VirtualInterface → Type 0
  Full [] v = ⊥
  Full (x ∷ xs) v =
      Injects elrsr Stop x false v panic
      ⊎ ((k : VirtualInterface) × Injects elrsr Stop x false v (ok tt k) × Full xs k)

-- The interrupts of the CPU `me`, in the machine.
module _ {Handler Gpm Device : Type 0} (elrsr : (ℕ → ℕ) → ℕ) (me : ℕ) where
  abbrev pub interface_of : Machine Handler Gpm Device → VirtualInterface
  interface_of s = (s.core me).interface

  abbrev pub with_interface :
      VirtualInterface → Machine Handler Gpm Device → Machine Handler Gpm Device
  with_interface v s = record s { core = update me (record (s.core me) { interface = v }) s.core }

  abbrev InjectsAll :
      List ℕ
      → Machine Handler Gpm Device
      → Run Stop (Machine Handler Gpm Device) (Unit {0})
      → Type 0
  InjectsAll irqs s (ok x u) =
      (v : VirtualInterface) × Placed elrsr irqs (interface_of s) v × (u ≡ with_interface v s)
  InjectsAll irqs s (err e u) = ⊥
  InjectsAll irqs s panic = Full elrsr irqs (interface_of s)
  InjectsAll irqs s hang = ⊥

  module _ (k : VirtualInterface) (s : Machine Handler Gpm Device) where
    interface-same : interface_of (with_interface k s) ≡ k
    interface-same = ap (λ c. c.interface) (update_here me s.core _)

    interface-twice :
        (v : VirtualInterface) → with_interface v (with_interface k s) ≡ with_interface v s
    interface-twice v =
        let here : (me == me) ≡ true = ground arith in
        rw here (ap (λ c. record s { core = c }) (update_twice me s.core _ _))

    after_one :
        (x : ℕ) (xs : List ℕ)
        → Injects elrsr Stop x false (interface_of s) (ok tt k)
        → (r : Run Stop (Machine Handler Gpm Device) (Unit {0}))
        → InjectsAll xs (with_interface k s) r
        → InjectsAll (x ∷ xs) s r
    after_one x xs i (ok y u) (v, p, e) = (v, (k, i, rw interface-same at p), e ∙ interface-twice v)
    after_one x xs i (err e u) h = h
    after_one x xs i panic h = inr (k, i, rw interface-same at h)
    after_one x xs i hang h = h

  inject_all-InjectsAll :
      (irqs : List ℕ) (s : Machine Handler Gpm Device)
      → InjectsAll irqs s (inject_all elrsr me irqs s)
  unfolding inject_all
  inject_all-InjectsAll [] s =
      (interface_of s, refl, sym (ap (λ c. record s { core = c }) (update_same me s.core)))
  inject_all-InjectsAll (x ∷ xs) s =
      go (inject_irq elrsr x false (interface_of s))
        (inject_irq-Injects elrsr Stop x false (interface_of s))
        (λ k. inject_all-InjectsAll xs (with_interface k s))
    where
      go :
          (r : Run Stop VirtualInterface (Unit {0}))
          → Injects elrsr Stop x false (interface_of s) r
          → ((k : VirtualInterface)
              → InjectsAll xs (with_interface k s) (inject_all elrsr me xs (with_interface k s)))
          → InjectsAll
              (x ∷ xs)
              s
              (and_then (lifted (λ t. with_interface t s) r) (λ _. inject_all elrsr me xs))
      go (ok y k) i rest =
          after_one k s x xs i (inject_all elrsr me xs (with_interface k s)) (rest k)
      go (err e k) i rest = i
      go panic i rest = inl i
      go hang i rest = i

  -- What becomes of the first `len` interrupts of the array.
  abbrev pub Delivers :
      ℕ
      → List ℕ
      → Machine Handler Gpm Device
      → Run Stop (Machine Handler Gpm Device) (Unit {0})
      → Type 0
  Delivers len xs s (ok x u) =
      (v : VirtualInterface) × Placed elrsr (take len xs) (interface_of s) v
      × (u ≡ record s {
        core = update me (record (s.core me) { interface = v }) s.core;
        virtio_irqs = update me (some (0 ∷ xs)) s.virtio_irqs;
      })
  Delivers len xs s (err e u) = ⊥
  Delivers len xs s panic = Full elrsr (take len xs) (interface_of s)
  Delivers len xs s hang = ⊥

  -- When the array of the CPU holds `len` interrupts: they are injected in the order of the array, each
  -- as `inject_irq` injects into the list registers that the one before it has left, the array holds
  -- none afterwards, and nothing else changes; or one of them finds all list registers in use, none for
  -- it, and the hypervisor panics.
  pub handle_virtio_irq-Delivers :
      (len : ℕ) (xs : List ℕ) (s : Machine Handler Gpm Device)
      → s.virtio_irqs me ≡ some (len ∷ xs)
      → len ≤ length xs
      → Delivers len xs s (handle_virtio_irq elrsr me s)
  unfolding handle_virtio_irq take_waiting waiting
  handle_virtio_irq-Delivers len xs s e le =
      rw (e, le→leb len (length xs) le)
        (go (inject_all elrsr me (take len xs) s) (inject_all-InjectsAll (take len xs) s))
    where
      go :
          (r : Run Stop (Machine Handler Gpm Device) (Unit {0}))
          → InjectsAll (take len xs) s r
          → Delivers len xs s (
              and_then r
                (λ _ t. ok tt (record t { virtio_irqs = update me (some (0 ∷ xs)) t.virtio_irqs })))
      go (ok x u) (v, p, q) = (
        v,
        p,
        ap
            (λ (t : Machine Handler Gpm Device). record t {
              virtio_irqs = update me (some (0 ∷ xs)) t.virtio_irqs;
            })
            q,
      )
      go (err x u) h = h
      go panic h = h
      go hang h = h
