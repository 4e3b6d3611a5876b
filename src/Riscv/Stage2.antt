-- ===== src/Riscv/Stage2.antt =====
-- `From<MemFlags> for DescriptorAttr` and `set_flags` of src/arch/riscv64/s2pt.rs: a leaf of stage 2
-- is always for the user level.
use sys_hyper.Base.{ℕ, bit_or}
use sys_hyper.Riscv.Entry

unfoldable pub from_mem_flags : ℕ → ℕ
unfolding Entry.from_mem_flags
from_mem_flags flags = Entry.from_mem_flags (bit_or Entry.valid Entry.user) flags

unfoldable pub set_flags : ℕ → ℕ → ℕ
unfolding Entry.set_flags
set_flags flags e = Entry.set_flags (bit_or Entry.valid Entry.user) flags e
