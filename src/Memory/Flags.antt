-- ===== src/Memory/Flags.antt =====
-- `MemFlags` of src/memory/mod.rs: a word of bits, with `contains` of the bitflags crate.
use sys_hyper.Base.{ℕ, ◌^◌, bit_and, Bool, ◌==◌}

abbrev pub read : ℕ
read = 2 ^ 0

abbrev pub write : ℕ
write = 2 ^ 1

abbrev pub execute : ℕ
execute = 2 ^ 2

abbrev pub dma : ℕ
dma = 2 ^ 3

abbrev pub io : ℕ
io = 2 ^ 4

abbrev pub communication : ℕ
communication = 2 ^ 5

abbrev pub loadable : ℕ
loadable = 2 ^ 6

abbrev pub rootshared : ℕ
rootshared = 2 ^ 7

abbrev pub no_hugepages : ℕ
no_hugepages = 2 ^ 8

abbrev pub user : ℕ
user = 2 ^ 9

unfoldable pub contains : ℕ → ℕ → Bool
contains flags other = bit_and flags other == other
