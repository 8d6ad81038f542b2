-- ===== src/Kernel/Vmem.antt =====
-- os/include/vmem.h, os/src/vmem.c, os/include/kalloc.h, os/src/kalloc.c and the loop of
-- os/src/kernel_main.c: the kernel's page tables and its pages. The addresses of the static arrays,
-- which the linker chooses, are parameters.
pub mod Identity
pub mod Walk
use xor_os.Base.{
  ℕ, zero, suc, ◌+◌, ◌*◌, ◌^◌, bit_and, bit_or, ◌==◌, if◌then◌else◌, leb, List, Option, none, some,
  replicate,
}
use xor_os.Base.{set as set_elem}
use xor_os.Base.Word.{rv32, shl, shr}

abbrev pub pte_v : ℕ
pte_v = 2 ^ 0

abbrev pub pte_r : ℕ
pte_r = 2 ^ 1

abbrev pub pte_w : ℕ
pte_w = 2 ^ 2

abbrev pub pte_x : ℕ
pte_x = 2 ^ 3

-- `root_pt`, of one entry, and `l0_pt`.
pub record PageTables : Type 0 where
  pub root_pt : ℕ
  pub l0_pt : List ℕ

-- Static storage starts as zeros.
abbrev pub blank_tables : PageTables
blank_tables = record { root_pt = 0; l0_pt = replicate 1024 0 }

module _ (l0_addr : ℕ) where
  unfoldable pub vmem_map : PageTables → ℕ → ℕ → ℕ → PageTables
  vmem_map pt virt phys flags =
      let vpn0 = bit_and (shr virt 12) 0x3FF in
      let ppn = shr phys 12 in
      record {
        root_pt =
            if bit_and pt.root_pt pte_v == 0
            then bit_or (shl rv32 (shr l0_addr 12) 10) pte_v
            else pt.root_pt;
        l0_pt = set_elem pt.l0_pt vpn0 (bit_or (bit_or (shl rv32 ppn 10) flags) pte_v);
      }

  -- The loop of `kernel_main` after `n` pages.
  unfoldable pub identity_map : PageTables → ℕ → PageTables
  identity_map pt zero = pt
  identity_map pt (suc n) =
      vmem_map (identity_map pt n) (n * 0x1000) (n * 0x1000) (bit_or (bit_or pte_r pte_w) pte_x)

-- What `vmem_enable` writes into satp.
unfoldable pub vmem_enable : ℕ → ℕ
vmem_enable root_addr = bit_or (2 ^ 31) (shr root_addr 12)

abbrev pub page_size : ℕ
page_size = 4096

abbrev pub kalloc_pages : ℕ
kalloc_pages = 4

-- From `bump`: the page, or NULL, and the new `bump`.
unfoldable pub kalloc : ℕ → ℕ → Option ℕ × ℕ
kalloc heap bump =
    if leb (heap + kalloc_pages * page_size) bump
    then (none, bump)
    else (some bump, bump + page_size)
