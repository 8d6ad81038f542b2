-- ===== src/RvModel/Monad.antt =====
-- rv32i/include/rv_model.hpp: the memory that a CPU is built over, the template parameter `MemT`,
-- and the monad in which the methods of `RVModel` run: they change the CPU and the memory, and may
-- end by an exception.
use xor_os.Base.{ℕ, Bool}
use xor_os.Outcome.{Outcome, ok, fail, Failure, out_of_range, illegal_opcode, undefined_behaviour}
use xor_os.Registers
use xor_os.RvModel.State.{Cpu}

-- What `RVModel` calls on its memory.
pub record MemT (M : Type 0) : Type 0 where
  pub read_byte : M → ℕ → Outcome ℕ × M
  pub read_half : M → ℕ → Outcome ℕ × M
  pub read_word : M → ℕ → Outcome ℕ × M
  pub write_byte : M → ℕ → ℕ → Outcome (Unit {0}) × M
  pub write_half : M → ℕ → ℕ → Outcome (Unit {0}) × M
  pub write_word : M → ℕ → ℕ → Outcome (Unit {0}) × M
  pub reserve_load : M → ℕ → M
  pub store_conditional : M → ℕ → ℕ → Outcome Bool × M
  pub invalidate_reservation : M → M

pub record RvModel (M : Type 0) : Type 0 where
  pub cpu : Cpu
  pub mem : M

abbrev pub Exec : Type 0 → Type 0 → Type 0
Exec M A = RvModel M → Outcome A × RvModel M

module _ {M : Type 0} where
  unfoldable pub pure : {A : Type 0} → A → Exec M A
  pure a s = (ok a, s)

  unfoldable pub raise : {A : Type 0} → Failure → Exec M A
  raise e s = (fail e, s)

  -- What follows an outcome.
  unfoldable pub and_then :
      {A B : Type 0} → (A → Exec M B) → Outcome A × RvModel M → Outcome B × RvModel M
  and_then f (ok a, s) = f a s
  and_then f (fail e, s) = (fail e, s)

  infixl 5 ◌>>=◌ ◌>>◌
  unfoldable pub ◌>>=◌ : {A B : Type 0} → Exec M A → (A → Exec M B) → Exec M B
  unfolding and_then
  ◌>>=◌ m f s = and_then f (m s)

  abbrev pub ◌>>◌ : {B : Type 0} → Exec M (Unit {0}) → Exec M B → Exec M B
  m >> k = m >>= λ _. k

  -- A read of the CPU's fields, and a change of them.
  unfoldable pub gets : {A : Type 0} → (Cpu → A) → Exec M A
  gets f s = (ok (f s.cpu), s)

  unfoldable pub modify : (Cpu → Cpu) → Exec M (Unit {0})
  modify f s = (ok tt, record s { cpu = f s.cpu })

  -- A call on the memory.
  unfoldable pub on_memory : {A : Type 0} → (M → Outcome A × M) → Exec M A
  on_memory f s = let r = f s.mem in (r.0, record s { mem = r.1 })

  -- `catch (const std::out_of_range&)`
  unfoldable pub handle_range :
      {A : Type 0} → Exec M A → Outcome A × RvModel M → Outcome A × RvModel M
  handle_range h (ok a, s) = (ok a, s)
  handle_range h (fail out_of_range, s) = h s
  handle_range h (fail illegal_opcode, s) = (fail illegal_opcode, s)
  handle_range h (fail undefined_behaviour, s) = (fail undefined_behaviour, s)

  unfoldable pub catch_range : {A : Type 0} → Exec M A → Exec M A → Exec M A
  unfolding handle_range
  catch_range m h s = handle_range h (m s)

  -- `catch (...)`: every exception.
  unfoldable pub handle_all :
      {A : Type 0} → Exec M A → Outcome A × RvModel M → Outcome A × RvModel M
  handle_all h (ok a, s) = (ok a, s)
  handle_all h (fail out_of_range, s) = h s
  handle_all h (fail illegal_opcode, s) = h s
  handle_all h (fail undefined_behaviour, s) = (fail undefined_behaviour, s)

  unfoldable pub catch_all : {A : Type 0} → Exec M A → Exec M A → Exec M A
  unfolding handle_all
  catch_all m h s = handle_all h (m s)

  -- `regs_.get` and `regs_.set`
  abbrev pub get_reg : ℕ → Exec M ℕ
  get_reg i = gets (λ c. Registers.get c.regs i)

  abbrev pub set_reg : ℕ → ℕ → Exec M (Unit {0})
  set_reg i v = modify (λ c. record c { regs = Registers.set c.regs i v })
