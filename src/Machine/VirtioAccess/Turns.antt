-- ===== src/Machine/VirtioAccess/Turns.antt =====
-- What a round of `mmio_virtio_handler` does (src/device/virtio_trampoline.rs).
use sys_hyper.Base.{
  ltb, lt→ltb, ℕ, ◌+◌, ◌*◌, ◌%◌, ◌^◌, List, set, bit_or, ◌<◌, ◌≡◌, ◌≢◌, ◌⊎◌, ◌∙◌, refl, ap, Bool,
  true, false, ◌==◌, if◌then◌else◌, Option, none, some, get_elem?, get_elem?-lt, length, [], ◌∷◌,
  ◌++◌, Bool-cases, inl, inr, arith,
}
use sys_hyper.Base.Run.{Run, ok, err, panic, hang, and_then}
use sys_hyper.Event.{Events, EventManager, add_event, send_event, arch_send_event}
use sys_hyper.Machine.{Machine, Stop, first_zone}
use sys_hyper.Machine.VirtioAccess.{VirtioCall, request, post, turn, wake_devices}
use sys_hyper.Memory.Mmio.{MmioAccess}
use sys_hyper.Percpu.CpuSet.{first_cpu}
use sys_hyper.Virtio.Bridge.{
  HvisorDeviceReq, new_req, VirtioBridgeRegion, region, is_req_list_full, push_req, need_wakeup,
  requests, IsRing, Pushes, push_req-Pushes,
}

abbrev enabled_of : Option VirtioBridgeRegion → Bool
enabled_of none = true
enabled_of (some r) = r.is_enable

-- The request of the guest in the shared region.
abbrev pub request_of : ℕ → ℕ → ℕ → MmioAccess → HvisorDeviceReq
request_of me zone_id need mmio = record {
  src_cpu = me;
  address = mmio.address;
  size = mmio.size;
  value = mmio.value;
  src_zone = zone_id % 2 ^ 32;
  is_write = if mmio.is_write then 1 else 0;
  need_interrupt = need;
}

module _ {Handler Gpm Device : Type 0} (me : ℕ) where
  -- The region is set up, the CPU has its flag and its value there, `root_cpu` is the first CPU of the
  -- root zone, and the event queues are set up, with the queue `q` for that CPU.
  pub record IsReady (s : Machine Handler Gpm Device) (root_cpu : ℕ) (m : EventManager) (q : List ℕ)
      : Type 0 where
    pub enabled : s.bridge.is_enable ≡ true
    pub ring : IsRing s.bridge.shared
    pub flags : me < length s.bridge.shared.cfg_flags
    pub values : me < length s.bridge.shared.cfg_values
    pub manager : s.events.manager ≡ some m
    pub queue : get_elem? m.inner root_cpu ≡ some q
    pub root :
        (z : ℕ) × (first_zone s.zones.zone_list ≡ some z)
        × (first_cpu (s.zones.zone z).cpu_set ≡ some (some root_cpu))
    pub root_below : root_cpu < 64

  -- The event WAKEUP_VIRTIO_DEVICE is last in the queue of the root zone's CPU, which is sent
  -- interrupt 7, if the devices ask for it.
  abbrev pub events_after : Machine Handler Gpm Device → ℕ → EventManager → List ℕ → Bool → Events
  events_after s root_cpu m q false = s.events
  events_after s root_cpu m q true = record {
    manager = some (record { inner = set m.inner root_cpu (q ++ 3 ∷ []) });
    sent = bit_or (7 * 2 ^ 24 % 2 ^ 64) (2 ^ root_cpu) ∷ s.events.sent;
  }

  module _ (root_cpu : ℕ) (m : EventManager) (q : List ℕ) where
    wake_devices-wakes :
        (b : Bool) (s : Machine Handler Gpm Device) (r : VirtioBridgeRegion)
        → IsReady s root_cpu m q
        → wake_devices me b (record s { bridge = r })
          ≡ ok tt (record s { bridge = r; events = events_after s root_cpu m q b })
    unfolding send_event arch_send_event add_event
    wake_devices-wakes false s r v = refl
    wake_devices-wakes true s r v =
        let (z, e, f) = v.root in
        rw (e, f, v.manager, v.queue, lt→ltb root_cpu 64 v.root_below) refl

  -- The flag or the value of this CPU.
  abbrev flag_of : Machine Handler Gpm Device → Option ℕ
  flag_of s = get_elem? s.bridge.shared.cfg_flags me

  -- What the guest gets: for a read, the value of this CPU.
  abbrev Answers : Machine Handler Gpm Device → MmioAccess → VirtioCall → Type 0
  Answers s mmio c =
      ((mmio.is_write ≡ true) × (c ≡ VirtioCall.returns mmio))
      ⊎ ((mmio.is_write ≡ false)
          × ((v : ℕ) × (get_elem? s.bridge.shared.cfg_values me ≡ some v)
              × (c ≡ VirtioCall.returns (record mmio { value = v }))))

  -- A round: while the list is full, nothing changes; then the request is posted behind the others,
  -- once, the root zone's CPU is woken if need be, and the flag from before it is what the call waits
  -- for to change.
  abbrev pub Turns :
      ℕ
      → EventManager
      → List ℕ
      → Machine Handler Gpm Device
      → ℕ
      → VirtioCall
      → Run Stop (Machine Handler Gpm Device) VirtioCall
      → Type 0
  Turns root_cpu m q s z (VirtioCall.polls need mmio) (ok c u) =
      ((is_req_list_full s.bridge ≡ some true) × (c ≡ VirtioCall.polls need mmio) × (u ≡ s))
      ⊎ ((is_req_list_full s.bridge ≡ some false)
          × (u ≡ record s {
            bridge = u.bridge;
            events = events_after s root_cpu m q (s.bridge.shared.need_wakeup == 1);
          })
          × (u.bridge ≡ record s.bridge {
            shared = record s.bridge.shared {
              req_list = u.bridge.shared.req_list;
              req_rear = u.bridge.shared.req_rear;
            };
          })
          × IsRing u.bridge.shared
          × (requests u.bridge.shared
              ≡ requests s.bridge.shared ++ request_of me (s.zones.zone z).id need mmio ∷ [])
          × ((old : ℕ) × (flag_of s ≡ some old)
              × (c ≡ (if need == 0 then VirtioCall.waits old mmio else VirtioCall.returns mmio))))
  Turns root_cpu m q s z (VirtioCall.waits old mmio) (ok c u) =
      (u ≡ s)
      × ((flag : ℕ) × (flag_of s ≡ some flag)
          × (((flag ≡ old) × (c ≡ VirtioCall.waits old mmio)) ⊎ ((flag ≢ old) × Answers s mmio c)))
  Turns root_cpu m q s z (VirtioCall.returns mmio) (ok c u) =
      (c ≡ VirtioCall.returns mmio) × (u ≡ s)
  Turns root_cpu m q s z h (err e u) = ⊥
  Turns root_cpu m q s z h panic = ⊥
  Turns root_cpu m q s z h hang = ⊥

  module _ (root_cpu : ℕ) (m : EventManager) (waiting : List ℕ) (s : Machine Handler Gpm Device)
      (z : ℕ) (v : IsReady s root_cpu m waiting) (in_zone : (s.cpus me).zone ≡ some z) where
    full_known : (b : Bool) × (is_req_list_full s.bridge ≡ some b)
    unfolding is_req_list_full region
    full_known =
        let fits : ltb (s.bridge.shared.req_rear + 1) (2 ^ 32) ≡ true =
          lt→ltb _ _ (omega (arith, v.ring.rear)) in
        rw (v.enabled, fits) (_, refl)

    region_known : region s.bridge ≡ some s.bridge.shared
    unfolding region
    region_known = rw v.enabled refl

    -- The devices are asked for in the region before the push.
    wake_known :
        (r : VirtioBridgeRegion)
        → (r ≡ record s.bridge {
          shared = record s.bridge.shared {
            req_list = r.shared.req_list;
            req_rear = r.shared.req_rear;
          };
        })
        → need_wakeup r ≡ some (s.bridge.shared.need_wakeup == 1)
    unfolding need_wakeup region
    wake_known r h = ap need_wakeup h ∙ rw v.enabled refl

    posted :
        (need : ℕ) (mmio : MmioAccess)
        → is_req_list_full s.bridge ≡ some false
        → Turns root_cpu m waiting s z (VirtioCall.polls need mmio) (
            and_then (post me need mmio s) (λ old u.
              ok (if need == 0 then VirtioCall.waits old mmio else VirtioCall.returns mmio) u))
    unfolding post new_req
    posted need mmio room =
        go (push_req (request me (s.zones.zone z).id need mmio) s.bridge) refl
          (push_req-Pushes s.bridge (request me (s.zones.zone z).id need mmio) v.ring room)
      where
        go :
            (q : Option VirtioBridgeRegion)
            → push_req (request me (s.zones.zone z).id need mmio) s.bridge ≡ q
            → Pushes s.bridge (request me (s.zones.zone z).id need mmio) q
            → Turns root_cpu m waiting s z (VirtioCall.polls need mmio) (
                and_then (post me need mmio s) (λ old u.
                  ok (if need == 0 then VirtioCall.waits old mmio else VirtioCall.returns mmio) u))
        go none e h = absurd h
        go (some r) e h =
            let (old, f) = get_elem?-lt s.bridge.shared.cfg_flags me v.flags in
            rw
              (
                in_zone,
                region_known,
                f,
                e,
                wake_known r h.3,
                wake_devices-wakes root_cpu m waiting (s.bridge.shared.need_wakeup == 1) s r v,
              )
              (inr (room, refl, h.3, h.0, h.1, (old, f, refl)))

    polled :
        (need : ℕ) (mmio : MmioAccess)
        → Turns root_cpu m waiting s z
            (VirtioCall.polls need mmio)
            (turn me (VirtioCall.polls need mmio) s)
    unfolding turn
    polled need mmio =
        let (full, h) = full_known in
        elim (Bool-cases full) [
          | inl yes_full ↦
              let h' = h ∙ ap (λ (b : Bool). some b) yes_full in rw h' (inl (h', refl, refl))
          | inr has_room ↦
              let h' = h ∙ ap (λ (b : Bool). some b) has_room in rw h' (posted need mmio h')
        ]

    waited :
        (old : ℕ) (mmio : MmioAccess)
        → Turns root_cpu m waiting s z
            (VirtioCall.waits old mmio)
            (turn me (VirtioCall.waits old mmio) s)
    unfolding turn region
    waited old mmio =
        let (flag, e) = get_elem?-lt s.bridge.shared.cfg_flags me v.flags in
        let (value, f) = get_elem?-lt s.bridge.shared.cfg_values me v.values in
        elim (Bool-cases (flag == old)) [
          | inl same ↦ rw (v.enabled, e, same) (refl, (flag, e, inl (ground arith, refl)))
          | inr changed ↦
              let ne : flag ≢ old = λ q. ground arith in
              elim (Bool-cases mmio.is_write) [
                | inl write ↦
                    rw (v.enabled, e, changed, write) (refl, (flag, e, inr (ne, inl (refl, refl))))
                | inr read ↦
                    rw (v.enabled, e, changed, read, f)
                      (refl, (flag, e, inr (ne, inr (refl, (value, f, refl)))))
              ]
        ]

  -- On a CPU that is in a zone, with the shared region set up, its indices below 32, a flag and a
  -- value for the CPU, a first CPU of the root zone below 64, and the event queues set up with one for
  -- that CPU, a round of `mmio_virtio_handler` does not panic. While the list of requests is full,
  -- nothing changes. Otherwise the requests in the list are those before it, in order, followed by one
  -- with the CPU, its zone and the guest's access; if the devices ask for it, the event
  -- WAKEUP_VIRTIO_DEVICE is put behind those of the root zone's CPU, which is sent interrupt 7; nothing
  -- else changes; the call has returned if it is a notification, and waits for the CPU's flag to change
  -- if not. While the flag is as it was, nothing changes. When it has changed, the call returns, a read
  -- with the CPU's value.
  pub turn-Turns :
      (root_cpu : ℕ) (m : EventManager) (q : List ℕ) (c : VirtioCall)
      (s : Machine Handler Gpm Device) (z : ℕ)
      → IsReady s root_cpu m q
      → (s.cpus me).zone ≡ some z
      → Turns root_cpu m q s z c (turn me c s)
  unfolding turn
  turn-Turns root_cpu m q (VirtioCall.polls need mmio) s z v h =
      polled root_cpu m q s z v h need mmio
  turn-Turns root_cpu m q (VirtioCall.waits old mmio) s z v h = waited root_cpu m q s z v h old mmio
  turn-Turns root_cpu m q (VirtioCall.returns mmio) s z v h = (refl, refl)
