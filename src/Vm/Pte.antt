-- ===== src/Vm/Pte.antt =====
-- mmu.h: the fields of a linear address and of a page table entry.
use xv6_memory_management_im.Common.{ℕ, ◌-◌, ◌/◌, ◌%◌, ◌^◌}
use xv6_memory_management_im.Common.Word.{pgsize}

abbrev pub pte_p : ℕ
pte_p = 0x001

abbrev pub pte_w : ℕ
pte_w = 0x002

abbrev pub pte_u : ℕ
pte_u = 0x004

abbrev pub pte_a : ℕ
pte_a = 0x020

abbrev pub pte_pg : ℕ
pte_pg = 0x200

abbrev pub pte_cow : ℕ
pte_cow = 0x400

-- `PTE_ADDR(pte)` and `PTE_FLAGS(pte)`
abbrev pub pte_addr : ℕ → ℕ
pte_addr pte = pte - pte % pgsize

abbrev pub pte_flags : ℕ → ℕ
pte_flags pte = pte % pgsize

-- `PDX(va)` and `PTX(va)`
abbrev pub pdx : ℕ → ℕ
pdx va = va / 2 ^ 22 % 1024

abbrev pub ptx : ℕ → ℕ
ptx va = va / 2 ^ 12 % 1024
