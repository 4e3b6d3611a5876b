-- ===== src/Machine/VirtioAccess.antt =====
-- `mmio_virtio_handler` of src/device/virtio_trampoline.rs: a guest's access to a virtio device is
-- posted in the shared region, and the CPU waits until the devices have answered. The two loops that
-- wait are rounds of `turn`; between two rounds the devices and the other CPUs change the region.
pub mod Turns
use sys_hyper.Base.{
  ℕ, ◌+◌, ◌%◌, ◌^◌, Bool, true, false, ◌==◌, if◌then◌else◌, Option, none, some, get_elem?,
}
use sys_hyper.Base.Run.{◌>>=◌, ◌>>◌, pure, get, put, unwrap, checked_add}
use sys_hyper.Event.{send_event, ipi_event_wakeup_virtio_device}
use sys_hyper.Machine.{MachineM, this_zone, first_zone, on_events}
use sys_hyper.Machine.Interrupts.{sgi_ipi_id}
use sys_hyper.Memory.Mmio.{MmioAccess}
use sys_hyper.Percpu.CpuSet.{first_cpu}
use sys_hyper.Virtio.Bridge.{
  HvisorDeviceReq, VirtioBridge, new_req, region, is_req_list_full, push_req, need_wakeup,
}

abbrev pub queue_notify : ℕ
queue_notify = 0x50

-- Where a call is: it waits for room in the list of requests, with `need_interrupt`; for the answer,
-- with the flag that it read before it posted; or it has returned.
pub data VirtioCall : Type 0 where
  polls : ℕ → MmioAccess → VirtioCall
  waits : ℕ → MmioAccess → VirtioCall
  returns : MmioAccess → VirtioCall

abbrev pub request : ℕ → ℕ → ℕ → MmioAccess → HvisorDeviceReq
request me zone_id need mmio =
    new_req me mmio.address mmio.size mmio.value (zone_id % 2 ^ 32) mmio.is_write need

module _ {Handler Gpm Device : Type 0} (me : ℕ) where
  unfoldable pub start_call : MmioAccess → ℕ → MachineM Handler Gpm Device VirtioCall
  start_call mmio base = do
    address ← checked_add mmio.address base
    pure (
        VirtioCall.polls (if mmio.address == queue_notify then 1 else 0)
          (record mmio { address = address }))

  abbrev pub wake_devices : Bool → MachineM Handler Gpm Device (Unit {0})
  wake_devices false = pure tt
  wake_devices true = do
    s ← get
    root ← unwrap (first_zone s.zones.zone_list)
    first ← unwrap (first_cpu (s.zones.zone root).cpu_set)
    root_cpu ← unwrap first
    on_events (send_event root_cpu sgi_ipi_id ipi_event_wakeup_virtio_device)

  -- The request is posted; the flag before it is the result.
  unfoldable pub post : ℕ → MmioAccess → MachineM Handler Gpm Device ℕ
  post need mmio = do
    s ← get
    zone ← this_zone me
    shared ← unwrap (region s.bridge)
    old ← unwrap (get_elem? shared.cfg_flags me)
    bridge ← unwrap (push_req (request me (s.zones.zone zone).id need mmio) s.bridge)
    put (record s { bridge = bridge })
    wake ← unwrap (need_wakeup bridge)
    wake_devices wake
    pure old

  -- What the guest reads.
  abbrev pub answered : MmioAccess → Option ℕ → MachineM Handler Gpm Device VirtioCall
  answered mmio value =
      if mmio.is_write
      then pure (VirtioCall.returns mmio)
      else do v ← unwrap value; pure (VirtioCall.returns (record mmio { value = v }))

  -- A round of the loop that the call is in.
  unfoldable pub turn : VirtioCall → MachineM Handler Gpm Device VirtioCall
  unfolding post
  turn (VirtioCall.polls need mmio) = do
    s ← get
    is_full ← unwrap (is_req_list_full s.bridge)
    if is_full then pure (VirtioCall.polls need mmio) else do
      old ← post need mmio
      pure (if need == 0 then VirtioCall.waits old mmio else VirtioCall.returns mmio)
  turn (VirtioCall.waits old mmio) = do
    s ← get
    shared ← unwrap (region s.bridge)
    flag ← unwrap (get_elem? shared.cfg_flags me)
    if flag == old
        then pure (VirtioCall.waits old mmio)
        else answered mmio (get_elem? shared.cfg_values me)
  turn (VirtioCall.returns mmio) = pure (VirtioCall.returns mmio)
