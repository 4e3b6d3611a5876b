-- ===== src/Trap/Completion.antt =====
-- The end of `handle_dabt` of src/arch/aarch64/trap.rs, after the access: what the guest gets in its
-- register, and the return past the instruction that trapped.
use sys_hyper.Base.{
  ℕ, ◌+◌, ◌-◌, ◌*◌, ◌/◌, ◌^◌, ◌<◌, ◌≤◌, ◌≡◌, ◌≢◌, refl, sym, ap, fun_ext, true, false, ◌==◌, leb,
  ltb, if◌then◌else◌, Bool-cases, inl, inr, ◌⊎◌, arith,
}
use sys_hyper.Base.Bits.Mask.{bit_and-low_mask}
use sys_hyper.Base.Run.{M, Run, ok, err, panic, hang, and_then, ◌>>◌}
use sys_hyper.Error.{HvErrorNum}
use sys_hyper.Machine.Update.{update_same, update_twice}
use sys_hyper.Machine.{Machine, Stop, update}
use sys_hyper.Memory.Mmio.{MmioAccess}
use sys_hyper.Trap.DataAbort.{
  sign_extend, expect, srt_of, size_of, is_write_of, is_signed, write_back,
}
use sys_hyper.Trap.Syndrome.{Syndrome, arch_skip_instruction}

-- The bytes of the instruction that trapped, of which IL tells the length.
abbrev pub skipped : Syndrome → ℕ
skipped syndrome = if syndrome.il == 0 then 2 else if syndrome.il == 1 then 4 else 0

-- The guest's registers after the access: a write, and a read into the zero register, change none;
-- another read puts the value of the device, sign-extended if the load is signed, in the one it names.
abbrev pub registers_after : Syndrome → ℕ → (ℕ → ℕ) → ℕ → ℕ
registers_after syndrome value usr k =
    if is_write_of syndrome
    then usr k
    else if srt_of syndrome == 31
    then usr k
    else if k == srt_of syndrome
    then (if is_signed syndrome then sign_extend (32 - 8 * size_of syndrome) value else value)
    else usr k

-- A signed load of more than 4 bytes: `32 - 8 * size` is below 0.
abbrev pub IsTooWide : Syndrome → Type 0
IsTooWide syndrome =
    (is_write_of syndrome ≡ false)
    × (srt_of syndrome ≢ 31)
    × (is_signed syndrome ≡ true)
    × (4 < size_of syndrome)

module _ {Handler Gpm Device : Type 0} where
  -- CPU `me` has this guest's registers.
  abbrev with_usr : ℕ → (ℕ → ℕ) → Machine Handler Gpm Device → Machine Handler Gpm Device
  with_usr me usr t = record t {
    core = update me (record (t.core me) { regs = record (t.core me).regs { usr = usr } }) t.core;
  }

  with_usr-same : (me : ℕ) (t : Machine Handler Gpm Device) → with_usr me (t.core me).regs.usr t ≡ t
  with_usr-same me t = ap (λ c. record t { core = c }) (update_same me t.core)

  -- The machine after an access that gave `value`: the guest's registers, and the address at which it
  -- goes on.
  abbrev pub machine_after :
      Syndrome → ℕ → ℕ → Machine Handler Gpm Device → Machine Handler Gpm Device
  machine_after syndrome me value t = record t {
    core =
        update me
          (record (t.core me) {
            elr = (t.core me).elr + skipped syndrome;
            regs = record (t.core me).regs {
              usr = registers_after syndrome value (t.core me).regs.usr;
            };
          })
          t.core;
  }

  abbrev pub Panics : Syndrome → ℕ → Machine Handler Gpm Device → Type 0
  Panics syndrome me t = IsTooWide syndrome ⊎ (2 ^ 64 ≤ (t.core me).elr + skipped syndrome)

  -- How the handler of the trap ends when the access has ended so.
  abbrev pub Completes :
      Syndrome
      → ℕ
      → Run HvErrorNum (Machine Handler Gpm Device) MmioAccess
      → Run Stop (Machine Handler Gpm Device) (Unit {0})
      → Type 0
  Completes syndrome me (ok mmio t) r =
      (Panics syndrome me t × (r ≡ panic))
      ⊎ ((Panics syndrome me t → ⊥) × (r ≡ ok tt (machine_after syndrome me mmio.value t)))
  Completes syndrome me (err e t) r = r ≡ panic
  Completes syndrome me panic r = r ≡ panic
  Completes syndrome me hang r = r ≡ hang

  skips :
      (syndrome : Syndrome) (me : ℕ) (usr : ℕ → ℕ) (t : Machine Handler Gpm Device)
      → arch_skip_instruction syndrome me (with_usr me usr t) ≡ (
          if ltb ((t.core me).elr + skipped syndrome) (2 ^ 64)
          then ok tt (record t {
            core =
                update me
                  (record (t.core me) {
                    elr = (t.core me).elr + skipped syndrome;
                    regs = record (t.core me).regs { usr = usr };
                  })
                  t.core;
          })
          else panic)
  unfolding arch_skip_instruction
  skips syndrome me usr t =
      let here : (me == me) ≡ true = ground arith in
      elim (Bool-cases (ltb ((t.core me).elr + skipped syndrome) (2 ^ 64))) [
        | inl fits ↦
            rw (here, fits) (ap (λ c. ok tt (record t { core = c })) (update_twice me t.core _ _))
        | inr over ↦ rw (here, over) refl
      ]

  module _ (call : Handler → MmioAccess → ℕ → M HvErrorNum (Machine Handler Gpm Device) MmioAccess)
      (syndrome : Syndrome) (me : ℕ) (mmio : MmioAccess) (t : Machine Handler Gpm Device) where
    abbrev Writes : Run Stop (Machine Handler Gpm Device) (Unit {0}) → Type 0
    Writes r =
        (IsTooWide syndrome × (r ≡ panic))
        ⊎ ((IsTooWide syndrome → ⊥)
            × (r
                ≡ ok tt (with_usr me (registers_after syndrome mmio.value (t.core me).regs.usr) t)))

    kept_on_write :
        (usr : ℕ → ℕ) → is_write_of syndrome ≡ true → registers_after syndrome mmio.value usr ≡ usr
    kept_on_write usr w = fun_ext (λ k. rw w refl)

    kept_on_zero :
        (usr : ℕ → ℕ)
        → is_write_of syndrome ≡ false
        → (srt_of syndrome == 31) ≡ true
        → registers_after syndrome mmio.value usr ≡ usr
    kept_on_zero usr w z = fun_ext (λ k. rw (w, z) refl)

    put_signed :
        (usr : ℕ → ℕ)
        → is_write_of syndrome ≡ false
        → (srt_of syndrome == 31) ≡ false
        → is_signed syndrome ≡ true
        → registers_after syndrome mmio.value usr
          ≡ update (srt_of syndrome) (sign_extend (32 - 8 * size_of syndrome) mmio.value) usr
    put_signed usr w n z = fun_ext (λ k. rw (w, n, z) refl)

    put_plain :
        (usr : ℕ → ℕ)
        → is_write_of syndrome ≡ false
        → (srt_of syndrome == 31) ≡ false
        → is_signed syndrome ≡ false
        → registers_after syndrome mmio.value usr ≡ update (srt_of syndrome) mmio.value usr
    put_plain usr w n z = fun_ext (λ k. rw (w, n, z) refl)

    narrow : is_write_of syndrome ≡ true → IsTooWide syndrome → ⊥
    narrow w h = let x = h.0 in cc (w, x)

    unsigned : is_signed syndrome ≡ false → IsTooWide syndrome → ⊥
    unsigned w h = let x = h.2 in cc (w, x)

    -- The value read, of a load into a register other than the zero register.
    loaded :
        is_write_of syndrome ≡ false
        → (srt_of syndrome == 31) ≡ false
        → Writes (write_back call syndrome me mmio t)
    unfolding write_back
    loaded read named =
        let low = bit_and-low_mask 5 (syndrome.iss / 2 ^ 16) in
        let fits : ltb (srt_of syndrome) 31 ≡ true = ground arith in
        let other : srt_of syndrome ≢ 31 = λ q. ground arith in
        elim (Bool-cases (is_signed syndrome)) [
          | inr plain ↦ inr (
            unsigned plain,
            rw (put_plain (t.core me).regs.usr read named plain, read, named, plain, fits) refl,
          )
          | inl signed ↦ elim (Bool-cases (leb (8 * size_of syndrome) 32)) [
            | inl small ↦ inr (
              λ h. absurd (let x = h.3 in ground (arith, x, small)),
              rw
                  (
                    put_signed (t.core me).regs.usr read named signed,
                    read,
                    named,
                    signed,
                    small,
                    fits,
                  )
                  refl,
            )
            | inr wide ↦
                let w : 4 < size_of syndrome = ground arith in
                inl ((read, other, signed, w), rw (read, named, signed, wide) refl)
          ]
        ]

    write_back-Writes : Writes (write_back call syndrome me mmio t)
    unfolding write_back
    write_back-Writes = elim (Bool-cases (is_write_of syndrome)) [
      | inl write ↦ inr (
        narrow write,
        rw (kept_on_write (t.core me).regs.usr write, write)
            (ap (λ x. ok tt x) (sym (with_usr-same me t))),
      )
      | inr read ↦ elim (Bool-cases (srt_of syndrome == 31)) [
        | inr named ↦ loaded read named
        | inl zero_register ↦ inr (
          λ h. let x = h.1 in absurd (ground (arith, x, zero_register)),
          rw (kept_on_zero (t.core me).regs.usr read zero_register, read, zero_register)
              (ap (λ x. ok tt x) (sym (with_usr-same me t))),
        )
      ]
    ]

    skipped-Completes :
        (IsTooWide syndrome → ⊥)
        → Completes syndrome me (ok mmio t) (
            arch_skip_instruction syndrome me
              (with_usr me (registers_after syndrome mmio.value (t.core me).regs.usr) t))
    skipped-Completes narrow =
        elim (Bool-cases (ltb ((t.core me).elr + skipped syndrome) (2 ^ 64))) [
          | inl fits ↦
              rw (skips syndrome me _ t, fits)
                (inr (λ h. elim h [ inl w ↦ narrow w | inr over ↦ absurd (ground arith) ], refl))
          | inr over ↦ rw (skips syndrome me _ t, over) (inl (inr (ground arith), refl))
        ]

    done :
        (r : Run Stop (Machine Handler Gpm Device) (Unit {0}))
        → Writes r
        → Completes syndrome me (ok mmio t) (and_then r (λ _. arch_skip_instruction syndrome me))
    done r (inl (w, e)) = rw e (inl (inl w, refl))
    done r (inr (n, e)) = rw e (skipped-Completes n)

  module _ (call : Handler → MmioAccess → ℕ → M HvErrorNum (Machine Handler Gpm Device) MmioAccess)
      (syndrome : Syndrome) (me : ℕ) where
    pub completed :
        (r : Run HvErrorNum (Machine Handler Gpm Device) MmioAccess)
        → Completes syndrome me r (
            and_then
              (expect r)
              (λ mmio. write_back call syndrome me mmio >> arch_skip_instruction syndrome me))
    completed (ok mmio t) =
        done call syndrome me mmio t (write_back call syndrome me mmio t)
          (write_back-Writes call syndrome me mmio t)
    completed (err e t) = refl
    completed panic = refl
    completed hang = refl
