-- ===== src/RvModel/Sim/Accesses.antt =====
-- rv32i/include/rv_model.hpp: loads, stores and atomic operations over two memories that run alike.
use xor_os.Base.{
  ℕ, ◌+◌, ◌%◌, ◌^◌, ◌<◌, ◌≡◌, refl, arith, bit_and, Bool, true, false, not, ◌==◌, Option, none,
  some,
}
use xor_os.Base.Bits.{bit_and_mask}
use xor_os.Base.Word.{rv32, uword, shr}
use xor_os.Outcome.{ok}
use xor_os.Isa
use xor_os.Decoder.{DecodedInstr}
use xor_os.RvModel.State.{load, store, has_extension, ext_a}
use xor_os.RvModel.Monad.{MemT, on_memory}
use xor_os.RvModel.Access.{
  load_misaligned, store_misaligned, load_value, finish_load, load_from, execute_load, store_value,
  finish_store, store_to, execute_store, finish_amo, amo_at, execute_amo,
}
use xor_os.RvModel.Sim.{
  Any, Sim, MemSim, if-Sim, bind-Sim, bind-Any-Sim, catch_range-Sim, gets-Any-Sim, on_memory-Sim,
  sim_rules,
}
use xor_os.RvModel.Sim.Translation.{SamePlace, trap-Sim, read_word-Sim, translate_addr-Sim}

module _ {X Y : Type 0} {R : X → Y → Type 0} {ops : MemT X} {ops' : MemT Y}
    (sim : MemSim R ops ops') where
  read_byte-Sim :
      (a : ℕ)
      → a < 2 ^ 32
      → Sim R Any (on_memory (λ m. ops.read_byte m a)) (on_memory (λ m. ops'.read_byte m a))
  read_byte-Sim a w = on_memory-Sim R _ _ (λ x y r. sim.read_byte x y a r w)

  read_half-Sim :
      (a : ℕ)
      → a < 2 ^ 32
      → a % 2 ≡ 0
      → Sim R Any (on_memory (λ m. ops.read_half m a)) (on_memory (λ m. ops'.read_half m a))
  read_half-Sim a w h = on_memory-Sim R _ _ (λ x y r. sim.read_half x y a r w h)

  write_byte-Sim :
      (a v : ℕ)
      → a < 2 ^ 32
      → Sim R Any
          (on_memory (λ m. ops.write_byte m a (bit_and v 0xFF)))
          (on_memory (λ m. ops'.write_byte m a (bit_and v 0xFF)))
  write_byte-Sim a v w =
      on_memory-Sim R _ _ (λ x y r. sim.write_byte x y a _ r w (omega (arith, bit_and_mask 8 v)))

  write_half-Sim :
      (a v : ℕ)
      → a < 2 ^ 32
      → a % 2 ≡ 0
      → Sim R Any
          (on_memory (λ m. ops.write_half m a (bit_and v 0xFFFF)))
          (on_memory (λ m. ops'.write_half m a (bit_and v 0xFFFF)))
  write_half-Sim a v w h =
      on_memory-Sim R _ _ (λ x y r. sim.write_half x y a _ r w h (omega (arith, bit_and_mask 16 v)))

  write_word-Sim :
      (a v : ℕ)
      → a % 4 ≡ 0
      → Sim R Any
          (on_memory (λ m. ops.write_word m a (v % 2 ^ 32)))
          (on_memory (λ m. ops'.write_word m a (v % 2 ^ 32)))
  write_word-Sim a v h = on_memory-Sim R _ _ (λ x y r. sim.write_word x y a _ r h (omega arith))

  store_conditional-Sim :
      (a v : ℕ)
      → a % 4 ≡ 0
      → Sim R Any
          (on_memory (λ m. ops.store_conditional m a (v % 2 ^ 32)))
          (on_memory (λ m. ops'.store_conditional m a (v % 2 ^ 32)))
  store_conditional-Sim a v h =
      on_memory-Sim R _ _ (λ x y r. sim.store_conditional x y a _ r h (omega arith))

  reserve_load-Sim :
      (a : ℕ)
      → Sim R Any
          (on_memory (λ m. (ok tt, ops.reserve_load m a)))
          (on_memory (λ m. (ok tt, ops'.reserve_load m a)))
  reserve_load-Sim a = on_memory-Sim R _ _ (λ x y r. (refl, sim.reserve_load x y a r))

  invalidate-Sim :
      Sim R Any
        (on_memory (λ m. (ok tt, ops.invalidate_reservation m)))
        (on_memory (λ m. (ok tt, ops'.invalidate_reservation m)))
  invalidate-Sim = on_memory-Sim R _ _ (λ x y r. (refl, sim.invalidate_reservation x y r))

  -- An access that passed its check goes to an address of its alignment.
  load_aligned :
      (funct3 va p : ℕ)
      → load_misaligned funct3 va ≡ false
      → p % 2 ^ 12 ≡ va % 2 ^ 12
      → ((funct3 == Isa.f3_lw) ≡ true → p % 4 ≡ 0)
        × ((funct3 == Isa.f3_lh) ≡ true → p % 2 ≡ 0)
        × ((funct3 == Isa.f3_lhu) ≡ true → p % 2 ≡ 0)
  unfolding load_misaligned
  load_aligned funct3 va p h e =
      let low2 = bit_and_mask 2 va in let low1 = bit_and_mask 1 va in ground arith

  store_aligned :
      (funct3 va p : ℕ)
      → store_misaligned funct3 va ≡ false
      → p % 2 ^ 12 ≡ va % 2 ^ 12
      → ((funct3 == Isa.f3_sw) ≡ true → p % 4 ≡ 0) × ((funct3 == Isa.f3_sh) ≡ true → p % 2 ≡ 0)
  unfolding store_misaligned
  store_aligned funct3 va p h e =
      let low2 = bit_and_mask 2 va in let low1 = bit_and_mask 1 va in ground arith

  module _ (d : DecodedInstr) where
    load_value-Sim :
        (p : ℕ)
        → p < 2 ^ 32
        → ((d.funct3 == Isa.f3_lw) ≡ true → p % 4 ≡ 0)
        → ((d.funct3 == Isa.f3_lh) ≡ true → p % 2 ≡ 0)
        → ((d.funct3 == Isa.f3_lhu) ≡ true → p % 2 ≡ 0)
        → Sim R Any (load_value ops d p) (load_value ops' d p)
    unfolding load_value
    load_value-Sim p w lw lh lhu =
        if-Sim R (d.funct3 == Isa.f3_lb) _ _ _ _ (λ _. search (sim_rules, read_byte-Sim))
          (λ _.
            if-Sim R (d.funct3 == Isa.f3_lh) _ _ _ _
              (λ h. search (sim_rules, read_half-Sim p w (lh h)))
              (λ _.
                if-Sim R (d.funct3 == Isa.f3_lw) _ _ _ _
                  (λ h. search (sim_rules, read_word-Sim sim p (lw h)))
                  (λ _.
                    if-Sim R (d.funct3 == Isa.f3_lbu) _ _ _ _
                      (λ _. search (sim_rules, read_byte-Sim))
                      (λ _.
                        if-Sim R (d.funct3 == Isa.f3_lhu) _ _ _ _
                          (λ h. search (sim_rules, read_half-Sim p w (lhu h)))
                          (λ _. search sim_rules)))))

    finish_load-Sim : (v : Option ℕ) → Sim R Any (finish_load ops d v) (finish_load ops' d v)
    unfolding finish_load
    finish_load-Sim none = search sim_rules
    finish_load-Sim (some v) = search sim_rules

    load_from-Sim :
        (va : ℕ) (p : Option ℕ)
        → va < 2 ^ 32
        → load_misaligned d.funct3 va ≡ false
        → SamePlace va p
        → Sim R Any (load_from ops d va p) (load_from ops' d va p)
    unfolding load_from
    load_from-Sim va none w h e = search sim_rules
    load_from-Sim va (some p) w h e =
        let aligned = load_aligned d.funct3 va p h e.0 in
        bind-Any-Sim R _ _ _ _
          (catch_range-Sim R _ _ _ _ (load_value-Sim p (e.1 w) aligned.0 aligned.1 aligned.2)
            (search sim_rules))
          finish_load-Sim

    pub execute_load-Sim : Sim R Any (execute_load ops d) (execute_load ops' d)
    unfolding execute_load
    execute_load-Sim = bind-Any-Sim R _ _ _ _ (gets-Any-Sim R _) (λ base.
        let va = uword rv32 (base + d.imm) in
        if-Sim R (load_misaligned d.funct3 va) _ _ _ _ (λ _. trap-Sim _ _)
          (λ h.
            bind-Sim R _ _ _ _ (translate_addr-Sim sim va load)
              (λ p e. load_from-Sim va p (omega arith) h e)))

    store_value-Sim :
        (p v : ℕ)
        → p < 2 ^ 32
        → ((d.funct3 == Isa.f3_sw) ≡ true → p % 4 ≡ 0)
        → ((d.funct3 == Isa.f3_sh) ≡ true → p % 2 ≡ 0)
        → Sim R Any (store_value ops d p v) (store_value ops' d p v)
    unfolding store_value
    store_value-Sim p v w sw sh =
        if-Sim R (d.funct3 == Isa.f3_sb) _ _ _ _ (λ _. search (sim_rules, write_byte-Sim))
          (λ _.
            if-Sim R (d.funct3 == Isa.f3_sh) _ _ _ _
              (λ h. search (sim_rules, write_half-Sim p v w (sh h)))
              (λ _.
                if-Sim R (d.funct3 == Isa.f3_sw) _ _ _ _
                  (λ h. search (sim_rules, write_word-Sim p v (sw h))) (λ _. trap-Sim _ _)))

    finish_store-Sim :
        (trapped : Bool) → Sim R Any (finish_store ops trapped) (finish_store ops' trapped)
    unfolding finish_store
    finish_store-Sim true = search sim_rules
    finish_store-Sim false = search (sim_rules, invalidate-Sim)

    store_to-Sim :
        (va v : ℕ) (p : Option ℕ)
        → va < 2 ^ 32
        → store_misaligned d.funct3 va ≡ false
        → SamePlace va p
        → Sim R Any (store_to ops d va v p) (store_to ops' d va v p)
    unfolding store_to
    store_to-Sim va v none w h e = search sim_rules
    store_to-Sim va v (some p) w h e =
        let aligned = store_aligned d.funct3 va p h e.0 in
        bind-Any-Sim R _ _ _ _
          (catch_range-Sim R _ _ _ _ (store_value-Sim p v (e.1 w) aligned.0 aligned.1)
            (trap-Sim _ _))
          finish_store-Sim

    pub execute_store-Sim : Sim R Any (execute_store ops d) (execute_store ops' d)
    unfolding execute_store
    execute_store-Sim = bind-Any-Sim R _ _ _ _ (gets-Any-Sim R _) (λ base.
        bind-Any-Sim R _ _ _ _ (gets-Any-Sim R _) (λ v.
          let va = uword rv32 (base + d.imm) in
          if-Sim R (store_misaligned d.funct3 va) _ _ _ _ (λ _. trap-Sim _ _)
            (λ h.
              bind-Sim R _ _ _ _ (translate_addr-Sim sim va store)
                (λ p e. store_to-Sim va v p (omega arith) h e))))

    finish_amo-Sim :
        (p loaded : ℕ) (r : Option ℕ)
        → p % 4 ≡ 0
        → Sim R Any (finish_amo ops d p loaded r) (finish_amo ops' d p loaded r)
    unfolding finish_amo
    finish_amo-Sim p loaded none h = trap-Sim _ _
    finish_amo-Sim p loaded (some r) h =
        bind-Any-Sim R _ _ _ _
          (bind-Any-Sim R _ _ _ _
            (bind-Any-Sim R _ _ _ _ invalidate-Sim (λ _. write_word-Sim p r h))
            (λ _. search sim_rules))
          (λ _. search sim_rules)

    amo_at-Sim :
        (va v : ℕ) (p : Option ℕ)
        → va % 4 ≡ 0
        → SamePlace va p
        → Sim R Any (amo_at ops d v p) (amo_at ops' d v p)
    unfolding amo_at
    amo_at-Sim va v none h e = search sim_rules
    amo_at-Sim va v (some p) h e =
        let aligned : p % 4 ≡ 0 = let place = e.0 in omega arith in
        if-Sim R (shr d.funct7 2 == Isa.f5_lr) _ _ _ _
          (λ _.
            bind-Any-Sim R _ _ _ _ (read_word-Sim sim p aligned)
              (λ w. search (sim_rules, reserve_load-Sim)))
          (λ _.
            if-Sim R (shr d.funct7 2 == Isa.f5_sc) _ _ _ _
              (λ _.
                bind-Any-Sim R _ _ _ _ (store_conditional-Sim p v aligned)
                  (λ done. search sim_rules))
              (λ _.
                bind-Any-Sim R _ _ _ _ (read_word-Sim sim p aligned)
                  (λ w. finish_amo-Sim p w _ aligned)))

    pub execute_amo-Sim : Sim R Any (execute_amo ops d) (execute_amo ops' d)
    unfolding execute_amo
    execute_amo-Sim = bind-Any-Sim R _ _ _ _ (gets-Any-Sim R _) (λ config.
        bind-Any-Sim R _ _ _ _ (gets-Any-Sim R _) (λ va.
          bind-Any-Sim R _ _ _ _ (gets-Any-Sim R _) (λ v.
            if-Sim R (not (has_extension config ext_a)) _ _ _ _ (λ _. trap-Sim _ _)
              (λ _.
                if-Sim R (not (bit_and va 0b11 == 0)) _ _ _ _ (λ _. trap-Sim _ _)
                  (λ h.
                    bind-Sim R _ _ _ _ (translate_addr-Sim sim va store) (λ p e.
                      amo_at-Sim va v p (let low = bit_and_mask 2 va in ground arith) e))))))
