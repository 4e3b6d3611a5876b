-- ===== src/Lib.antt =====
-- sysHyper, a type 1 hypervisor: the start of its CPUs, page tables, frames, traps, hypercalls, virtual
-- interrupts, events and the bridge to the virtio devices of the root zone. Paths are from the
-- repository's root.
--
-- The program. A zone (src/zone.rs) is a guest: a set of CPUs, a set of interrupts, device regions and
-- a stage 2 page table. Page tables (src/arch/aarch64/paging.rs) take their tables from the frame
-- allocator (src/memory/frame.rs) and write entries of stage 1 or stage 2 (s1pt.rs, s2pt.rs). A guest's
-- access to the interrupt distributor goes through the virtual interrupt controller
-- (src/device/irqchip/gicv3/vgic.rs), interrupts reach a guest by list registers (gicv3/mod.rs), CPUs
-- send each other events (src/event.rs), and requests to virtio devices go through a region that is
-- shared with the root zone (src/device/virtio_trampoline.rs). A guest leaves to the hypervisor by a
-- trap (src/arch/aarch64/trap.rs): an access to a device, a call of the firmware (PSCI), a hypercall
-- (src/hypercall/mod.rs) or an interrupt, which may carry an event to wake, start or shut down a CPU.
-- src/main.rs brings up all CPUs and creates the root zone before one enters its guest.
--
-- The files.
--   Base: lists, Boolean tests, bits of words, and the monads of the model. Base.Run is the monad of
--     operations on a state: a result, an error that keeps what was written, a panic, or an endless
--     loop. Base.Panics and Base.Result are for code that changes no state.
--   Error: src/error.rs. Config: src/config.rs.
--   Memory: src/memory. Memory.Frame holds physical memory as the words of frames, and the allocator;
--     Memory.Frame.Bitmap is the interface of the crate bitmap_allocator, with its documented
--     behaviour as laws. Memory.Mmio is over a bus of devices, a parameter.
--     Memory.MemorySet is src/memory/mm.rs over the page table of Paging.
--   Paging: src/arch/aarch64/paging.rs. Paging.Pte is the trait GenericPTE, Paging.Stage1 and
--     Paging.Stage2 fill it from s1pt.rs and s2pt.rs. Paging.Table has the data and the lookup,
--     Paging.Map the operations that change a table, one function for each of the code, and the loops
--     of map and unmap. Paging.Tree is the specification: what an address resolves to by recursion on
--     its indices, and that the tables form a tree, no table being reached in two ways or owned by the
--     allocator; its modules prove the operations one by one.
--   Riscv: the entries of src/arch/riscv64/s1pt.rs and s2pt.rs, which are the same but for the
--     attributes of a leaf.
--   Percpu: CpuSet and PerCpu of src/percpu.rs.
--   Event: src/event.rs, and arch_send_event of src/arch/aarch64/ipi.rs.
--   Irqchip: src/device/irqchip/gicv3: list registers, the register offsets, the virtual controller,
--     and in Irqchip.Reset what a zone leaves when it is shut down.
--   Virtio: src/device/virtio_trampoline.rs (the region, and the array of waiting
--     interrupts) and the interrupt part of hv_virtio_inject_irq.
--   Zone: the device regions of a zone, the list of zones with their references, the search for the
--     device tree and the start of the CPUs (src/zone.rs), Zone.Create builds the page table and the
--     device regions of a new zone (src/arch/aarch64/zone.rs); Zone.Access is mmio_handle_access of
--     src/memory/mmio.rs.
--   Machine: the state of all CPUs, zones, queues of events and interrupt registers together, as the
--     trap handlers see it. Machine.Guest is run and idle of src/arch/aarch64/cpu.rs, Machine.Interrupts
--     is check_events, handle_virtio_irq and gicv3_handle_irq_el1, Machine.NewZone is zone_create, and
--     Machine.VirtioAccess is mmio_virtio_handler, whose two loops are rounds between which the devices
--     may change the shared region. What leaves an operation without a value (an error, the entry into
--     the guest, parking) is a Stop.
--   Trap: src/arch/aarch64/trap.rs. Trap.Syndrome decodes, Trap.DataAbort emulates an access, and
--     Trap.Completion says by itself what the guest finds after it; Trap.Psci is the firmware, and
--     Trap.Exit dispatches.
--   Hypercall: src/hypercall/mod.rs.
--   Boot: src/main.rs and the start of the other CPUs. A state has the shared counters and flags and
--     the place of each CPU, up to its call of run_vm; a step is one access to them by one CPU, in any
--     order. A CPU that waits in a loop goes on when it finds the loop's condition; a round that does
--     not find it is part of a run, but is not counted as a step and changes nothing. The two loads of
--     ENTERED_CPUS, of the loop and of the assertion after it, are steps of their own. run_vm, by which
--     a zone's boot CPU enters its guest and another idles, is not part of it; the run and idle that it
--     calls are in Machine.Guest. The CPUs see each other's writes in one order. The firmware has
--     started one CPU, and its call to start another succeeds or finds it on.
--   Tests: a bitmap that fills the allocator's interface, and concrete states.
--
-- Numbers. Addresses and registers are natural numbers; where the code wraps, the remainder by 2^64 or
-- 2^32 is written out. The sums that the debug build checks (the Makefile's default) panic when they
-- overflow. In functions whose values are options, none is a panic.
--
-- Fuel. The loops of map and unmap have a round for each 4 KiB of the region: a page has at least
-- that size, so no round is missing; running out would be an endless loop of the model.
-- The loop of hv_virtio_inject_irq has a round for each entry of the list of 32 results and one for its
-- end. The loops that wait for another CPU in src/main.rs have no fuel:
-- a run may hold any number of their rounds.
--
-- Not modelled. Locks (the operations are taken one at a time), logging, system register writes that
-- only configure the machine, TLB and cache maintenance, assembly, the zeroing of memory at the start,
-- the tables of the platforms, and of the RISC-V port all but its page table entries.
pub mod Base
pub mod Error
pub mod Machine
pub mod Memory
pub mod Paging
pub mod Riscv
pub mod Percpu
pub mod Event
pub mod Irqchip
pub mod Virtio
pub mod Hypercall
pub mod Trap
pub mod Zone
pub mod Config
pub mod Boot
pub mod Tests
