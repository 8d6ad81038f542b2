-- ===== src/RvModel/Context.antt =====
-- rv32i/include/rv_model.hpp: `Context` and `FullContext`, and the methods that save and restore
-- them.
pub mod Laws
use xor_os.Base.{ℕ, zero, suc, ◌+◌, List, [], ◌∷◌, get_or}
use xor_os.Registers
use xor_os.Registers.{RegisterFile}
use xor_os.RvModel.State.{Cpu}

pub record FullContext : Type 0 where
  pub pc : ℕ
  pub regs : List ℕ

pub record Context : Type 0 where
  pub pc : ℕ
  pub ra : ℕ
  pub sp : ℕ
  pub s0 : ℕ
  pub s1 : ℕ
  pub s2 : ℕ
  pub s3 : ℕ
  pub s4 : ℕ
  pub s5 : ℕ
  pub s6 : ℕ
  pub s7 : ℕ
  pub s8 : ℕ
  pub s9 : ℕ
  pub s10 : ℕ
  pub s11 : ℕ

unfoldable pub save_context : Cpu → Context
save_context c = record {
  pc = c.pc;
  ra = Registers.get c.regs 1;
  sp = Registers.get c.regs 2;
  s0 = Registers.get c.regs 8;
  s1 = Registers.get c.regs 9;
  s2 = Registers.get c.regs 18;
  s3 = Registers.get c.regs 19;
  s4 = Registers.get c.regs 20;
  s5 = Registers.get c.regs 21;
  s6 = Registers.get c.regs 22;
  s7 = Registers.get c.regs 23;
  s8 = Registers.get c.regs 24;
  s9 = Registers.get c.regs 25;
  s10 = Registers.get c.regs 26;
  s11 = Registers.get c.regs 27;
}

-- The registers from `i` on, `n` of them.
unfoldable pub save_from : RegisterFile → ℕ → ℕ → List ℕ
save_from r i zero = []
save_from r i (suc n) = Registers.get r i ∷ save_from r (i + 1) n

unfoldable pub save_full_context : Cpu → FullContext
save_full_context c = record { pc = c.pc; regs = save_from c.regs 0 Registers.num_regs }

-- `for (; i < 32; ++i) regs_.set(i, ctx.regs[i])`, with `n` turns left.
unfoldable pub restore_from : RegisterFile → List ℕ → ℕ → ℕ → RegisterFile
restore_from r saved i zero = r
restore_from r saved i (suc n) = restore_from (Registers.set r i (get_or saved i 0)) saved (i + 1) n

unfoldable pub restore_full_context : Cpu → FullContext → Cpu
restore_full_context c ctx = record c { pc = ctx.pc; regs = restore_from c.regs ctx.regs 1 31 }

unfoldable pub restore_context : Cpu → Context → Cpu
restore_context c ctx =
    let r1 = Registers.set c.regs 1 ctx.ra in
    let r2 = Registers.set r1 2 ctx.sp in
    let r3 = Registers.set r2 8 ctx.s0 in
    let r4 = Registers.set r3 9 ctx.s1 in
    let r5 = Registers.set r4 18 ctx.s2 in
    let r6 = Registers.set r5 19 ctx.s3 in
    let r7 = Registers.set r6 20 ctx.s4 in
    let r8 = Registers.set r7 21 ctx.s5 in
    let r9 = Registers.set r8 22 ctx.s6 in
    let r10 = Registers.set r9 23 ctx.s7 in
    let r11 = Registers.set r10 24 ctx.s8 in
    let r12 = Registers.set r11 25 ctx.s9 in
    let r13 = Registers.set r12 26 ctx.s10 in
    record c { pc = ctx.pc; regs = Registers.set r13 27 ctx.s11 }
