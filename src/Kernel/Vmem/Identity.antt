-- ===== src/Kernel/Vmem/Identity.antt =====
-- os/src/vmem.c and os/src/kernel_main.c over rv32i/include/rv_model.hpp: what the kernel maps is
-- where the CPU translates to.
use xor_os.Base.{
  ℕ, zero, suc, ◌+◌, ◌*◌, ◌/◌, ◌^◌, ◌≤◌, ◌<◌, ◌≡◌, refl, ◌∙◌, arith, bit_and, bit_or, ◌==◌, false,
  ltb, if◌then◌else◌, length, get_or, length-set, get_or-set, replicate,
}
use xor_os.Base.Bits.{bit_and_mask, bit_or_sum}
use xor_os.Base.Word.{rv32, shl, shr}
use xor_os.Kernel.Vmem.{blank_tables, vmem_map, identity_map}

-- The entry of the page `i`, readable, writable and executable.
abbrev pub entry : ℕ → ℕ
entry i = i * 1024 + 15

-- The upper table's entry, a pointer to the lower one.
abbrev pub pointer : ℕ → ℕ
pointer l0_addr = l0_addr / 2 ^ 12 * 1024 + 1

get_or-replicate : (n i : ℕ) → ◌≡◌ {A = ℕ} (get_or (replicate n 0) i 0) 0
get_or-replicate zero i = refl
get_or-replicate (suc n) zero = refl
get_or-replicate (suc n) (suc i) = get_or-replicate n i

module _ (l0_addr : ℕ) (small : l0_addr < 2 ^ 32) where
  mapped_entry :
      (n : ℕ)
      → n < 16
      → bit_or (bit_or (shl rv32 (shr (n * 0x1000) 12) 10) (bit_or (bit_or 2 4) 8)) 1 ≡ entry n
  mapped_entry n h =
      let page : shl rv32 (shr (n * 0x1000) 12) 10 ≡ n * 1024 = omega arith in
      let flags = bit_or_sum 4 (n * 1024) 14 (omega arith) (omega arith) in
      let last = bit_or_sum 1 (n * 1024 + 14) 1 (omega arith) (omega arith) in
      rw (page, flags) (omega (arith, last))

  pub identity_map-length : (n : ℕ) → length (identity_map l0_addr blank_tables n).l0_pt ≡ 1024
  unfolding identity_map vmem_map
  identity_map-length zero = refl
  identity_map-length (suc n) =
      length-set (identity_map l0_addr blank_tables n).l0_pt _ _ ∙ identity_map-length n

  pub identity_map-l0 :
      (n i : ℕ)
      → n ≤ 16
      → get_or (identity_map l0_addr blank_tables n).l0_pt i 0 ≡ (if ltb i n then entry i else 0)
  unfolding identity_map vmem_map
  identity_map-l0 zero i h =
      let outside : ltb i 0 ≡ false = ground arith in rw outside (get_or-replicate 1024 i)
  identity_map-l0 (suc n) i h =
      let pt = identity_map l0_addr blank_tables n in
      let index : bit_and (shr (n * 0x1000) 12) 0x3FF ≡ n =
        omega (arith, bit_and_mask 10 (shr (n * 0x1000) 12)) in
      let value = mapped_entry n (omega arith) in
      let here = get_or-set pt.l0_pt n i (entry n) 0 (rw (identity_map-length n) (omega arith)) in
      rw (index, value, here, identity_map-l0 n i (omega arith)) (ground arith)

  pointer_entry : bit_or (shl rv32 (shr l0_addr 12) 10) 1 ≡ pointer l0_addr
  pointer_entry =
      omega (arith, bit_or_sum 10 (shl rv32 (shr l0_addr 12) 10) 1 (omega arith) (omega arith))

  pub identity_map-root :
      (n : ℕ) → (identity_map l0_addr blank_tables (suc n)).root_pt ≡ pointer l0_addr
  unfolding identity_map vmem_map
  identity_map-root zero = pointer_entry
  identity_map-root (suc n) =
      let valid : (bit_and (pointer l0_addr) 1 == 0) ≡ false =
        ground (arith, bit_and_mask 1 (pointer l0_addr)) in
      rw (identity_map-root n, valid) refl
