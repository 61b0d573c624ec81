-- ===== src/Kernel/Layout.antt =====
-- The address space: memlayout.h.
use xv6_memory_management_im.Common.{ℕ, ◌/◌}
use xv6_memory_management_im.Common.Word.{sub32, add32, pgsize}

abbrev pub kernbase : ℕ
kernbase = 0x8000_0000

abbrev pub phystop : ℕ
phystop = 0xE00_0000

abbrev pub extmem : ℕ
extmem = 0x10_0000

abbrev pub devspace : ℕ
devspace = 0xFE00_0000

-- `V2P(a)`
abbrev pub v2p : ℕ → ℕ
v2p a = sub32 a kernbase

-- `P2V(a)`
abbrev pub p2v : ℕ → ℕ
p2v a = add32 a kernbase

-- The index into `referenceCounters` of the page at kernel address `v`.
abbrev pub frame : ℕ → ℕ
frame v = v2p v / pgsize
