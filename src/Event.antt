-- ===== src/Event.antt =====
-- src/event.rs: the queues of events, one for each CPU, and `arch_send_event` of
-- src/arch/aarch64/ipi.rs, of which the model keeps the interrupts sent.
pub mod Fifo
use sys_hyper.Base.{
  ℕ, ◌*◌, ◌%◌, ◌^◌, bit_or, Option, none, some, List, [], ◌∷◌, ◌++◌, replicate, get_elem?, set,
}
use sys_hyper.Base.Panics.{shift_one}
use sys_hyper.Base.Run.{M, ◌>>=◌, ◌>>◌, pure, get, put, unwrap}

abbrev pub ipi_event_wakeup : ℕ
ipi_event_wakeup = 0

abbrev pub ipi_event_shutdown : ℕ
ipi_event_shutdown = 1

abbrev pub ipi_event_virtio_inject_irq : ℕ
ipi_event_virtio_inject_irq = 2

abbrev pub ipi_event_wakeup_virtio_device : ℕ
ipi_event_wakeup_virtio_device = 3

pub record EventManager : Type 0 where
  pub inner : List (List ℕ)

unfoldable pub new : ℕ → EventManager
new max_cpus = record { inner = replicate max_cpus [] }

unfoldable pub add_event : ℕ → ℕ → EventManager → EventManager × Option (Unit {0})
add_event cpu event_id m = push (get_elem? m.inner cpu)
  where
    push : Option (List ℕ) → EventManager × Option (Unit {0})
    push none = (m, none)
    push (some e) = (record { inner = set m.inner cpu (e ++ event_id ∷ []) }, some tt)

unfoldable pub fetch_event : ℕ → EventManager → EventManager × Option ℕ
fetch_event cpu m = pop (get_elem? m.inner cpu)
  where
    pop : Option (List ℕ) → EventManager × Option ℕ
    pop none = (m, none)
    pop (some []) = (m, none)
    pop (some (x ∷ e)) = (record { inner = set m.inner cpu e }, some x)

-- `EVENT_MANAGER`, and what was written to the register `icc_sgi1r_el1`, last first.
pub record Events : Type 0 where
  pub manager : Option EventManager
  pub sent : List ℕ

unfoldable pub init : ℕ → Events → Events
unfolding new
init max_cpus s = call_once s.manager
  where
    call_once : Option EventManager → Events
    call_once none = record s { manager = some (new max_cpus) }
    call_once (some m) = s

module _ {E : Type 0} where
  unfoldable pub arch_send_event : ℕ → ℕ → M E Events (Unit {0})
  arch_send_event cpu_id sgi_num = do
    target_list ← unwrap (shift_one cpu_id)
    s ← get
    put (record s { sent = bit_or (sgi_num * 2 ^ 24 % 2 ^ 64) target_list ∷ s.sent })

  -- The interrupt is sent whether or not there is a queue for the CPU.
  unfoldable pub send_event : ℕ → ℕ → ℕ → M E Events (Unit {0})
  unfolding add_event arch_send_event
  send_event cpu_id ipi_int_id event_id = do
    s ← get
    m ← unwrap s.manager
    put (record s { manager = some ((add_event cpu_id event_id m).0) })
    arch_send_event cpu_id ipi_int_id

  -- `fetch_event(this_cpu_data().id)`
  unfoldable pub fetch : ℕ → M E Events (Option ℕ)
  unfolding fetch_event
  fetch cpu = do
    s ← get
    m ← unwrap s.manager
    put (record s { manager = some ((fetch_event cpu m).0) })
    pure ((fetch_event cpu m).1)
