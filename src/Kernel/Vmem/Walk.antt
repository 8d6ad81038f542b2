-- ===== src/Kernel/Vmem/Walk.antt =====
-- rv32i/include/rv_model.hpp over the tables of os/src/vmem.c: the page walk.
use xor_os.Base.{
  Bool-cases, inl, inr, ℕ, ◌+◌, ◌*◌, ◌/◌, ◌%◌, ◌^◌, ◌<◌, ◌≡◌, refl, ap, ◌∙◌, arith, bit_and, bit_or,
  ◌==◌, true, false, not, ltb, ◌&&◌, if◌then◌else◌, get_or, Option, some, none,
}
use xor_os.Base.Bits.{bit_and_mask, bit_and_shift, bit_and_step, bit_and-zero, bit_or_sum}
use xor_os.Base.Word.{rv32, shl, shr}
use xor_os.Outcome.{Outcome, ok}
use xor_os.Csr
use xor_os.Csr.Codes
use xor_os.Memory
use xor_os.Memory.{MemoryModel}
use xor_os.RvModel.State.{MemAccess, mode_u}
use xor_os.RvModel.Monad.{
  RvModel, Exec, pure, gets, modify, on_memory, catch_all, handle_all, and_then, ◌>>=◌,
}
use xor_os.RvModel.Trap.{fire_trap}
use xor_os.RvModel.Plain.{memory_ops}
use xor_os.RvModel.Translate.{
  page_fault_cause, vpn, page_offset, leaf_address, leaf_faults, page_fault, read_pte, visit,
  visit_entry, walk, translate_addr,
}
use xor_os.Kernel.Vmem.{PageTables, blank_tables, identity_map, vmem_enable}
use xor_os.Kernel.Vmem.Identity.{entry, pointer, identity_map-l0, identity_map-root}

-- The memory has the tables at their addresses.
pub record Holds {D : Type 0} (m : MemoryModel D) (root_addr l0_addr : ℕ) (pt : PageTables)
    : Type 0 where
  pub root_word : Memory.read_word m root_addr ≡ ok pt.root_pt
  pub l0_word : (i : ℕ) → i < 1024 → Memory.read_word m (l0_addr + 4 * i) ≡ ok (get_or pt.l0_pt i 0)

pointer-bits :
    (a : ℕ)
    → ((bit_and (pointer a) 0x1 == 0) ≡ false) × (not (bit_and (pointer a) 0xA == 0) ≡ false)
pointer-bits a =
    let p = pointer a in
    let b3 = bit_and_step p 10 in
    let b2 = bit_and_step (p / 2) 5 in
    let b1 = bit_and_step (p / 2 / 2) 2 in
    let b0 = bit_and_step (p / 2 / 2 / 2) 1 in
    let b = bit_and-zero (p / 2 / 2 / 2 / 2) in (ground (arith, bit_and_mask 1 p), ground arith)

entry-bits :
    (i : ℕ)
    → ((bit_and (entry i) 0x1 == 0) ≡ false)
      × (not (bit_and (entry i) 0xA == 0) ≡ true)
      × ((bit_and (entry i) (2 ^ 4) == 0) ≡ true)
entry-bits i =
    let p = entry i in
    let b3 = bit_and_step p 10 in
    let b2 = bit_and_step (p / 2) 5 in
    (
      ground (arith, bit_and_mask 1 p),
      ground arith,
      ground (arith, bit_and_shift 4 p 1, bit_and_mask 1 (p / 2 ^ 4)),
    )

entry-address : (va : ℕ) → va < 0x10000 → leaf_address va (entry (va / 2 ^ 12)) 0 ≡ va
unfolding leaf_address page_offset
entry-address va h =
    let low = bit_and_mask 12 va in
    omega (
      arith,
      bit_or_sum 12 (shl rv32 (shr (entry (va / 2 ^ 12)) 10) 12) (bit_and va 0xFFF) (omega arith)
          (omega arith),
    )

module _ {D : Type 0} (va : ℕ) (access : MemAccess) (s : RvModel (MemoryModel D)) where
  read_pte-word :
      (a w : ℕ) (k : Option ℕ → Exec (MemoryModel D) (Option ℕ))
      → Memory.read_word s.mem a ≡ ok w
      → (read_pte memory_ops a >>= k) s ≡ k (some w) s
  unfolding read_pte memory_ops ◌>>=◌ catch_all on_memory pure and_then handle_all
  read_pte-word a w k e = rw e refl

  abbrev pub faulted : Outcome (Option ℕ) × RvModel (MemoryModel D)
  faulted = (ok none, record s { cpu = fire_trap (page_fault_cause access) va s.cpu })

  fault-now : page_fault memory_ops va access s ≡ faulted
  unfolding page_fault ◌>>=◌ and_then modify pure
  fault-now = refl

  visit-pointer :
      (a : ℕ) (next : ℕ → Exec (MemoryModel D) (Option ℕ))
      → visit memory_ops va access 1 next (pointer a) s ≡ next (pointer a) s
  unfolding visit
  visit-pointer a next = let b = pointer-bits a in rw (b.0, b.1) refl

  visit-empty :
      (next : ℕ → Exec (MemoryModel D) (Option ℕ)) → visit memory_ops va access 0 next 0 s ≡ faulted
  unfolding visit
  visit-empty next = fault-now

  visit-page :
      (next : ℕ → Exec (MemoryModel D) (Option ℕ))
      → va < 0x10000
      → visit memory_ops va access 0 next (entry (va / 2 ^ 12)) s
        ≡ (if not (s.cpu.priv_mode == mode_u) then (ok (some va), s) else faulted)
  unfolding visit gets pure ◌>>=◌ and_then leaf_faults
  visit-page next h =
      let b = entry-bits (va / 2 ^ 12) in
      elim (Bool-cases (s.cpu.priv_mode == mode_u)) [
        | inl user ↦ rw (b.0, b.1, b.2, user) fault-now
        | inr other ↦ rw (b.0, b.1, b.2, other, entry-address va h) refl
      ]

module _ {D : Type 0} (va : ℕ) (access : MemAccess) (s : RvModel (MemoryModel D))
    (root_addr l0_addr : ℕ) where
  walk-lower :
      va < 2 ^ 22
      → l0_addr % 2 ^ 12 ≡ 0
      → l0_addr < 2 ^ 32
      → Holds s.mem root_addr l0_addr (identity_map l0_addr blank_tables 16)
      → walk memory_ops va access 0 l0_addr s ≡ (
          if ltb va 0x10000 && not (s.cpu.priv_mode == mode_u)
          then (ok (some va), s)
          else faulted va access s)
  unfolding walk vpn visit_entry
  walk-lower low aligned small h =
      let page = va / 2 ^ 12 in
      let index : bit_and (shr va 12) 0x3FF ≡ page = omega (arith, bit_and_mask 10 (shr va 12)) in
      let addr : bit_or l0_addr (shl rv32 page 2) ≡ l0_addr + 4 * page =
        omega (arith, bit_or_sum 12 l0_addr (shl rv32 page 2) aligned (omega arith)) in
      let table = identity_map-l0 l0_addr small 16 page (omega arith) in
      let word = h.l0_word page (omega arith) ∙ ap ok table in
      let fault = λ (p : ℕ). page_fault {M = MemoryModel D} memory_ops va access in
      let read =
        read_pte-word va access s (l0_addr + 4 * page) (if ltb page 16 then entry page else 0)
          (visit_entry memory_ops va access 0 fault) word in
      elim (Bool-cases (ltb va 0x10000)) [
        | inl inside ↦
            let mapped : ltb page 16 ≡ true = ground arith in
            rw (index, addr, read, mapped, inside) (visit-page va access s fault (ground arith))
        | inr outside ↦
            let unmapped : ltb page 16 ≡ false = ground arith in
            rw (index, addr, read, unmapped, outside) (visit-empty va access s fault)
      ]

  walk-upper :
      va < 2 ^ 22
      → root_addr % 2 ^ 12 ≡ 0
      → l0_addr % 2 ^ 12 ≡ 0
      → l0_addr < 2 ^ 32
      → Holds s.mem root_addr l0_addr (identity_map l0_addr blank_tables 16)
      → walk memory_ops va access 1 root_addr s ≡ walk memory_ops va access 0 l0_addr s
  unfolding walk vpn visit_entry
  walk-upper low root_aligned aligned small h =
      let top : bit_and (shr va 22) 0x3FF ≡ 0 = omega (arith, bit_and_mask 10 (shr va 22)) in
      let addr : bit_or root_addr (shl rv32 0 2) ≡ root_addr =
        omega (arith, bit_or_sum 12 root_addr 0 root_aligned (omega arith)) in
      let word = h.root_word ∙ ap ok (identity_map-root l0_addr small 15) in
      let next =
        λ (pte : ℕ). walk {M = MemoryModel D} memory_ops va access 0 (shl rv32 (shr pte 10) 12) in
      let read =
        read_pte-word va access s root_addr (pointer l0_addr)
          (visit_entry memory_ops va access 1 next) word in
      let below : shl rv32 (shr (pointer l0_addr) 10) 12 ≡ l0_addr = omega arith in
      rw (top, addr)
        (read
          ∙ visit-pointer va access s l0_addr next
          ∙ ap (λ (a : ℕ). walk {M = MemoryModel D} memory_ops va access 0 a s) below)

  -- With the tables that `kernel_main` builds in the memory and satp as `vmem_enable` writes it,
  -- each address of the 64 KiB translates to itself, in every mode but the user's; there, and at
  -- any other address below 4 MiB, a translation is the page fault of its access.
  pub translate_addr-identity_map :
      va < 2 ^ 22
      → root_addr % 2 ^ 12 ≡ 0
      → root_addr < 2 ^ 32
      → l0_addr % 2 ^ 12 ≡ 0
      → l0_addr < 2 ^ 32
      → Csr.read s.cpu.csr Codes.satp ≡ vmem_enable root_addr
      → Holds s.mem root_addr l0_addr (identity_map l0_addr blank_tables 16)
      → translate_addr memory_ops va access s ≡ (
          if ltb va 0x10000 && not (s.cpu.priv_mode == mode_u)
          then (ok (some va), s)
          else faulted va access s)
  unfolding translate_addr gets ◌>>=◌ and_then
  translate_addr-identity_map low root_aligned root_small aligned small satp h =
      let w = 2 ^ 31 + root_addr / 2 ^ 12 in
      let value : vmem_enable root_addr ≡ w =
        unfold vmem_enable in
        omega (arith, bit_or_sum 31 (2 ^ 31) (shr root_addr 12) (omega arith) (omega arith)) in
      let on : (shr w 31 == 0) ≡ false = ground arith in
      let ppn : shl rv32 (bit_and w 0x3FFFFF) 12 ≡ root_addr = omega (arith, bit_and_mask 22 w) in
      rw (satp, value, on, ppn)
        (walk-upper low root_aligned aligned small h ∙ walk-lower low aligned small h)
