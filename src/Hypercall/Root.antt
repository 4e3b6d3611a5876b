-- ===== src/Hypercall/Root.antt =====
-- The calls of src/hypercall/mod.rs are for the root zone only.
use sys_hyper.Base.{
  ℕ, ◌-◌, ◌^◌, ◌≡◌, ◌≢◌, refl, true, false, ◌==◌, ltb, if◌then◌else◌, Bool-cases, inl, inr, some,
  arith,
}
use sys_hyper.Base.Run.{ok, err}
use sys_hyper.Config.{HvZoneConfig}
use sys_hyper.Error.{HvErrorNum, code}
use sys_hyper.Hypercall.{
  eperm_unless, hypercall, hv_virtio_init, hv_virtio_inject_irq, hv_zone_start, hv_zone_shutdown,
}
use sys_hyper.Machine.{Machine, MachineM, Stop, update, is_this_root_zone, first_zone}
use sys_hyper.Machine.NewZone.{Host}
use sys_hyper.Memory.Frame.Bitmap.{BitAlloc}
use sys_hyper.Memory.Mmio.{Bus}
use sys_hyper.Paging.Pte.{GenericPte}
use sys_hyper.Trap.Exit.{handle_hvc}

module _ {Handler Gpm Device : Type 0} where
  -- CPU `me` belongs to a zone, and another zone is the first of the list, the root zone.
  pub record IsForeign (me : ℕ) (s : Machine Handler Gpm Device) : Type 0 where
    pub zone : ℕ
    pub root : ℕ
    pub mine : (s.cpus me).zone ≡ some zone
    pub first : first_zone s.zones.zone_list ≡ some root
    pub foreign : zone ≢ root

  refused :
      (me : ℕ) (m : MachineM Handler Gpm Device ℕ) (s : Machine Handler Gpm Device)
      → IsForeign me s
      → eperm_unless me m s ≡ err (Stop.hv_err HvErrorNum.eperm) s
  unfolding is_this_root_zone
  refused me m s v =
      let other : (v.zone == v.root) ≡ false = ground (arith, v.foreign) in
      rw (v.mine, v.first, other) refl

  -- The guest of `me` finds `value` in register 0.
  abbrev pub answer : ℕ → ℕ → Machine Handler Gpm Device → Machine Handler Gpm Device
  answer me value s = record s {
    core =
        update me
          (record (s.core me) {
            regs = record (s.core me).regs { usr = update 0 value (s.core me).regs.usr };
          })
          s.core;
  }

module _ {State Device : Type 0} (D : Bus Device) (B : BitAlloc State) (P : GenericPte)
    (config_at : ℕ → HvZoneConfig) (level invalid address : ℕ) where
  hypercall-refused :
      (me number arg0 : ℕ) (s : Host State Device)
      → IsForeign me s
      → hypercall D B P config_at level invalid address me number arg0 s
        ≡ (if ltb number 4 then err (Stop.hv_err HvErrorNum.eperm) s else ok 0 s)
  unfolding hypercall hv_virtio_init hv_virtio_inject_irq hv_zone_start hv_zone_shutdown
  hypercall-refused me number arg0 s v = elim (Bool-cases (number == 0)) [
    | inl c0 ↦ let l : ltb number 4 ≡ true = ground arith in rw (c0, l) (refused me _ s v)
    | inr n0 ↦ elim (Bool-cases (number == 1)) [
      | inl c1 ↦ let l : ltb number 4 ≡ true = ground arith in rw (n0, c1, l) (refused me _ s v)
      | inr n1 ↦ elim (Bool-cases (number == 2)) [
        | inl c2 ↦
            let l : ltb number 4 ≡ true = ground arith in rw (n0, n1, c2, l) (refused me _ s v)
        | inr n2 ↦ elim (Bool-cases (number == 3)) [
          | inl c3 ↦
              let l : ltb number 4 ≡ true = ground arith in
              rw (n0, n1, n2, c3, l) (refused me _ s v)
          | inr n3 ↦ let l : ltb number 4 ≡ false = ground arith in rw (n0, n1, n2, n3, l) refl
        ]
      ]
    ]
  ]

  -- A hypercall from a CPU of another zone than the root zone changes nothing but register 0 of its
  -- guest, which gets -1, the error EPERM, for each of the four calls, and 0 for any other number.
  pub handle_hvc-refused :
      (me : ℕ) (s : Host State Device)
      → IsForeign me s
      → handle_hvc (hypercall D B P config_at level invalid address) me s
        ≡ ok tt (answer me (if ltb ((s.core me).regs.usr 0) 4 then 2 ^ 64 - 1 else 0) s)
  unfolding handle_hvc code
  handle_hvc-refused me s v =
      let r = hypercall-refused me ((s.core me).regs.usr 0) ((s.core me).regs.usr 1) s v in
      elim (Bool-cases (ltb ((s.core me).regs.usr 0) 4)) [
        | inl known ↦ let r' = rw known at r in rw (r', known) refl
        | inr other ↦ let r' = rw other at r in rw (r', other) refl
      ]
