-- ===== src/Riscv/Stage1.antt =====
-- `From<MemFlags> for DescriptorAttr` and `set_flags` of src/arch/riscv64/s1pt.rs; the rest of the file
-- is as in s2pt.rs.
use sys_hyper.Base.{ℕ}
use sys_hyper.Riscv.Entry

unfoldable pub from_mem_flags : ℕ → ℕ
unfolding Entry.from_mem_flags
from_mem_flags flags = Entry.from_mem_flags Entry.valid flags

unfoldable pub set_flags : ℕ → ℕ → ℕ
unfolding Entry.set_flags
set_flags flags e = Entry.set_flags Entry.valid flags e
