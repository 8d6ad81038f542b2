-- ===== src/RvModel/Sim/Translation.antt =====
-- rv32i/include/rv_model.hpp: `translateAddr` over two memories that run alike.
use xor_os.Base.{ℕ, zero, suc, ◌<◌, ◌%◌, ◌^◌, ◌≡◌, refl, arith, bit_or, ◌==◌, Option, none, some}
use xor_os.Base.Bits.{bit_or_sum, bit_and_mask}
use xor_os.Base.Word.{rv32, shl, shr}
use xor_os.RvModel.State.{MemAccess}
use xor_os.RvModel.Monad.{MemT, Exec, on_memory}
use xor_os.RvModel.Trap.{trap}
use xor_os.RvModel.Translate.{
  vpn, leaf_address, page_fault, read_pte, visit, visit_entry, walk, translate_addr,
}
use xor_os.RvModel.Translate.Laws.{leaf_address-offset, leaf_address-lt}
use xor_os.RvModel.Sim.{
  Any, Sim, MemSim, pure-Sim, gets-Any-Sim, if-Sim, bind-Sim, on_memory-Sim, sim_rules,
}

-- An address at the place in its page that `va` has, and a word if `va` is one.
abbrev pub SamePlace : ℕ → Option ℕ → Type 0
SamePlace va none = Unit
SamePlace va (some p) = (p % 2 ^ 12 ≡ va % 2 ^ 12) × (va < 2 ^ 32 → p < 2 ^ 32)

leaf_address-SamePlace : (va pte lvl : ℕ) → SamePlace va (some (leaf_address va pte lvl))
leaf_address-SamePlace va pte lvl =
    (leaf_address-offset va pte lvl, λ _. leaf_address-lt va pte lvl)

module _ {X Y : Type 0} {R : X → Y → Type 0} where
  pub trap-Sim : (cause tval : ℕ) → Sim R Any (trap cause tval) (trap cause tval)
  unfolding trap
  trap-Sim cause tval = search sim_rules

module _ {X Y : Type 0} {R : X → Y → Type 0} {ops : MemT X} {ops' : MemT Y}
    (sim : MemSim R ops ops') where
  pub read_word-Sim :
      (a : ℕ)
      → a % 4 ≡ 0
      → Sim R Any (on_memory (λ m. ops.read_word m a)) (on_memory (λ m. ops'.read_word m a))
  read_word-Sim a h = on_memory-Sim R _ _ (λ x y r. sim.read_word x y a r h)

  read_pte-Sim : (a : ℕ) → a % 4 ≡ 0 → Sim R Any (read_pte ops a) (read_pte ops' a)
  unfolding read_pte
  read_pte-Sim a h = search (sim_rules, read_word-Sim)

  module _ (va : ℕ) (access : MemAccess) where
    page_fault-Sim : Sim R (SamePlace va) (page_fault ops va access) (page_fault ops' va access)
    unfolding page_fault
    page_fault-Sim = search sim_rules

    visit-Sim :
        (lvl : ℕ) (next : ℕ → Exec X (Option ℕ)) (next' : ℕ → Exec Y (Option ℕ)) (pte : ℕ)
        → ((p : ℕ) → Sim R (SamePlace va) (next p) (next' p))
        → Sim R
            (SamePlace va)
            (visit ops va access lvl next pte)
            (visit ops' va access lvl next' pte)
    unfolding visit
    visit-Sim lvl next next' pte below =
        search (sim_rules, page_fault-Sim, leaf_address-SamePlace) depth 9

    visit_entry-Sim :
        (lvl : ℕ) (next : ℕ → Exec X (Option ℕ)) (next' : ℕ → Exec Y (Option ℕ)) (e : Option ℕ)
        → ((p : ℕ) → Sim R (SamePlace va) (next p) (next' p))
        → Sim R
            (SamePlace va)
            (visit_entry ops va access lvl next e)
            (visit_entry ops' va access lvl next' e)
    unfolding visit_entry
    visit_entry-Sim lvl next next' none below = page_fault-Sim
    visit_entry-Sim lvl next next' (some pte) below = visit-Sim lvl next next' pte below

    -- The address of an entry.
    entry_aligned : (a lvl : ℕ) → a % 2 ^ 12 ≡ 0 → bit_or a (shl rv32 (vpn va lvl) 2) % 4 ≡ 0
    unfolding vpn
    entry_aligned a zero h = omega (
      arith,
      bit_or_sum 12 a (shl rv32 (vpn va zero) 2) h (omega (arith, bit_and_mask 10 (shr va 12))),
    )
    entry_aligned a (suc lvl) h = omega (
      arith,
      bit_or_sum 12 a (shl rv32 (vpn va (suc lvl)) 2) h
          (omega (arith, bit_and_mask 10 (shr va 22))),
    )

    walk-Sim :
        (lvl a : ℕ)
        → a % 2 ^ 12 ≡ 0
        → Sim R (SamePlace va) (walk ops va access lvl a) (walk ops' va access lvl a)
    unfolding walk
    walk-Sim zero a h =
        bind-Sim R _ _ _ _ (read_pte-Sim _ (entry_aligned a 0 h))
          (λ e _. visit_entry-Sim 0 _ _ e (λ p. page_fault-Sim))
    walk-Sim (suc lvl) a h =
        bind-Sim R _ _ _ _ (read_pte-Sim _ (entry_aligned a (suc lvl) h))
          (λ e _. visit_entry-Sim (suc lvl) _ _ e (λ p. walk-Sim lvl _ (omega arith)))

    pub translate_addr-Sim :
        Sim R (SamePlace va) (translate_addr ops va access) (translate_addr ops' va access)
    unfolding translate_addr
    translate_addr-Sim = bind-Sim R _ _ _ _ (gets-Any-Sim R _) (λ satp _.
        if-Sim R (shr satp 31 == 0) _ _ _ _ (λ _. pure-Sim R (some va) (refl, λ h. h))
          (λ _. walk-Sim 1 _ (omega arith)))
