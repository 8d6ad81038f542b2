-- ===== src/RvModel/Sim.antt =====
-- rv32i/include/rv_model.hpp: a relational logic for the methods of `RVModel`, over two memories
-- that a relation `R` ties. `Sim R Q m n` says that `m` and `n`, from the same CPU, end alike: with
-- the same value, which satisfies `Q`, or the same exception, the same CPU, and memories in the
-- relation.
pub mod Translation
pub mod Accesses
pub mod Instructions
pub mod Steps
use xor_os.Base.{ℕ, ◌%◌, ◌^◌, ◌<◌, ◌≡◌, refl, sym, Bool, true, false, if◌then◌else◌}
use mathlib.Core.Path.{subst}
use xor_os.Outcome.{Outcome, ok, fail, Failure, out_of_range, illegal_opcode, undefined_behaviour}
use xor_os.RvModel.State.{Cpu}
use xor_os.RvModel.Monad.{
  MemT, RvModel, Exec, pure, raise, and_then, ◌>>=◌, gets, modify, on_memory, handle_range,
  catch_range, handle_all, catch_all,
}

-- No condition on a result.
abbrev pub Any : {A : Type 0} → A → Type 0
Any a = Unit

module _ {X Y : Type 0} (R : X → Y → Type 0) where
  pub data SameEnd {A : Type 0} (Q : A → Type 0)
      : Outcome A × RvModel X → Outcome A × RvModel Y → Type 0 where
    returned :
        (a : A) (c : Cpu) (x : X) (y : Y)
        → Q a
        → R x y
        → SameEnd Q (ok a, record { cpu = c; mem = x }) (ok a, record { cpu = c; mem = y })
    threw :
        (e : Failure) (c : Cpu) (x : X) (y : Y)
        → R x y
        → SameEnd Q (fail e, record { cpu = c; mem = x }) (fail e, record { cpu = c; mem = y })

  pub record Sim {A : Type 0} (Q : A → Type 0) (m : Exec X A) (n : Exec Y A) : Type 0 where
    pub apply :
        (c : Cpu) (x : X) (y : Y)
        → R x y
        → SameEnd Q (m (record { cpu = c; mem = x })) (n (record { cpu = c; mem = y }))

  -- The same outcome of a call on the memories.
  abbrev pub Agrees : {A : Type 0} → Outcome A × X → Outcome A × Y → Type 0
  Agrees r r' = (r.0 ≡ r'.0) × R r.1 r'.1

  -- What the CPU asks of two memories to run alike on them. The addresses are aligned to the
  -- access, and the values are of its width.
  pub record MemSim (ops : MemT X) (ops' : MemT Y) : Type 0 where
    pub read_byte :
        (x : X) (y : Y) (a : ℕ)
        → R x y
        → a < 2 ^ 32
        → Agrees (ops.read_byte x a) (ops'.read_byte y a)
    pub read_half :
        (x : X) (y : Y) (a : ℕ)
        → R x y
        → a < 2 ^ 32
        → a % 2 ≡ 0
        → Agrees (ops.read_half x a) (ops'.read_half y a)
    pub read_word :
        (x : X) (y : Y) (a : ℕ)
        → R x y
        → a % 4 ≡ 0
        → Agrees (ops.read_word x a) (ops'.read_word y a)
    pub write_byte :
        (x : X) (y : Y) (a v : ℕ)
        → R x y
        → a < 2 ^ 32
        → v < 2 ^ 8
        → Agrees (ops.write_byte x a v) (ops'.write_byte y a v)
    pub write_half :
        (x : X) (y : Y) (a v : ℕ)
        → R x y
        → a < 2 ^ 32
        → a % 2 ≡ 0
        → v < 2 ^ 16
        → Agrees (ops.write_half x a v) (ops'.write_half y a v)
    pub write_word :
        (x : X) (y : Y) (a v : ℕ)
        → R x y
        → a % 4 ≡ 0
        → v < 2 ^ 32
        → Agrees (ops.write_word x a v) (ops'.write_word y a v)
    pub reserve_load :
        (x : X) (y : Y) (a : ℕ) → R x y → R (ops.reserve_load x a) (ops'.reserve_load y a)
    pub store_conditional :
        (x : X) (y : Y) (a v : ℕ)
        → R x y
        → a % 4 ≡ 0
        → v < 2 ^ 32
        → Agrees (ops.store_conditional x a v) (ops'.store_conditional y a v)
    pub invalidate_reservation :
        (x : X) (y : Y) → R x y → R (ops.invalidate_reservation x) (ops'.invalidate_reservation y)

  module _ {A : Type 0} {Q : A → Type 0} where
    pub pure-Sim : (a : A) → Q a → Sim Q (pure a) (pure a)
    unfolding pure
    pure-Sim a q = record { apply = λ c x y r. returned a c x y q r }

    pub raise-Sim : (e : Failure) → Sim Q (raise e) (raise e)
    unfolding raise
    raise-Sim e = record { apply = λ c x y r. threw e c x y r }

    pub gets-Sim : (f : Cpu → A) → ((c : Cpu) → Q (f c)) → Sim Q (gets f) (gets f)
    unfolding gets
    gets-Sim f q = record { apply = λ c x y r. returned (f c) c x y (q c) r }

    pub if-Sim :
        (b : Bool) (m m' : Exec X A) (n n' : Exec Y A)
        → (b ≡ true → Sim Q m n)
        → (b ≡ false → Sim Q m' n')
        → Sim Q (if b then m else m') (if b then n else n')
    if-Sim true m m' n n' h k = h refl
    if-Sim false m m' n n' h k = k refl

    called-SameEnd :
        (o o' : Outcome A) (c : Cpu) (x : X) (y : Y)
        → o ≡ o'
        → ((a : A) → o ≡ ok a → Q a)
        → R x y
        → SameEnd Q (o, record { cpu = c; mem = x }) (o', record { cpu = c; mem = y })
    called-SameEnd (ok a) o' c x y e q r =
        subst
          (λ (o : Outcome A).
            SameEnd Q (ok a, record { cpu = c; mem = x }) (o, record { cpu = c; mem = y }))
          e (returned a c x y (q a refl) r)
    called-SameEnd (fail f) o' c x y e q r =
        subst
          (λ (o : Outcome A).
            SameEnd Q (fail f, record { cpu = c; mem = x }) (o, record { cpu = c; mem = y }))
          e (threw f c x y r)

  -- A call on both memories.
  pub on_memory-Sim :
      {A : Type 0} (f : X → Outcome A × X) (g : Y → Outcome A × Y)
      → ((x : X) (y : Y) → R x y → Agrees (f x) (g y))
      → Sim Any (on_memory f) (on_memory g)
  unfolding on_memory
  on_memory-Sim f g h = record {
    apply = λ c x y r. called-SameEnd _ _ c _ _ (h x y r).0 (λ a e. tt) (h x y r).1;
  }

  pub modify-Sim : (f : Cpu → Cpu) → Sim Any (modify f) (modify f)
  unfolding modify
  modify-Sim f = record { apply = λ c x y r. returned tt (f c) x y tt r }

  module _ {A B : Type 0} {Q : A → Type 0} {S : B → Type 0} where
    and_then-SameEnd :
        (f : A → Exec X B) (g : A → Exec Y B) (r : Outcome A × RvModel X)
        (r' : Outcome A × RvModel Y)
        → SameEnd Q r r'
        → ((a : A) → Q a → Sim S (f a) (g a))
        → SameEnd S (and_then f r) (and_then g r')
    unfolding and_then
    and_then-SameEnd f g r r' (returned a c x y q i) h = (h a q).apply c x y i
    and_then-SameEnd f g r r' (threw e c x y i) h = threw e c x y i

    pub bind-Sim :
        (m : Exec X A) (n : Exec Y A) (f : A → Exec X B) (g : A → Exec Y B)
        → Sim Q m n
        → ((a : A) → Q a → Sim S (f a) (g a))
        → Sim S (m >>= f) (n >>= g)
    unfolding ◌>>=◌
    bind-Sim m n f g h k = record {
      apply = λ c x y r. and_then-SameEnd f g _ _ (h.apply c x y r) k;
    }

  module _ {A : Type 0} {Q : A → Type 0} where
    handle_range-SameEnd :
        (m : Exec X A) (n : Exec Y A) (r : Outcome A × RvModel X) (r' : Outcome A × RvModel Y)
        → SameEnd Q r r'
        → Sim Q m n
        → SameEnd Q (handle_range m r) (handle_range n r')
    unfolding handle_range
    handle_range-SameEnd m n r r' (returned a c x y q i) h = returned a c x y q i
    handle_range-SameEnd m n r r' (threw out_of_range c x y i) h = h.apply c x y i
    handle_range-SameEnd m n r r' (threw illegal_opcode c x y i) h = threw illegal_opcode c x y i
    handle_range-SameEnd m n r r' (threw undefined_behaviour c x y i) h =
        threw undefined_behaviour c x y i

    pub catch_range-Sim :
        (m m' : Exec X A) (n n' : Exec Y A)
        → Sim Q m n
        → Sim Q m' n'
        → Sim Q (catch_range m m') (catch_range n n')
    unfolding catch_range
    catch_range-Sim m m' n n' h k = record {
      apply = λ c x y r. handle_range-SameEnd m' n' _ _ (h.apply c x y r) k;
    }

    handle_all-SameEnd :
        (m : Exec X A) (n : Exec Y A) (r : Outcome A × RvModel X) (r' : Outcome A × RvModel Y)
        → SameEnd Q r r'
        → Sim Q m n
        → SameEnd Q (handle_all m r) (handle_all n r')
    unfolding handle_all
    handle_all-SameEnd m n r r' (returned a c x y q i) h = returned a c x y q i
    handle_all-SameEnd m n r r' (threw out_of_range c x y i) h = h.apply c x y i
    handle_all-SameEnd m n r r' (threw illegal_opcode c x y i) h = h.apply c x y i
    handle_all-SameEnd m n r r' (threw undefined_behaviour c x y i) h =
        threw undefined_behaviour c x y i

    pub catch_all-Sim :
        (m m' : Exec X A) (n n' : Exec Y A)
        → Sim Q m n
        → Sim Q m' n'
        → Sim Q (catch_all m m') (catch_all n n')
    unfolding catch_all
    catch_all-Sim m m' n n' h k = record {
      apply = λ c x y r. handle_all-SameEnd m' n' _ _ (h.apply c x y r) k;
    }

  -- The rules for values of which nothing is said.
  pub pure-Any-Sim : {A : Type 0} (a : A) → Sim Any (pure a) (pure a)
  pure-Any-Sim a = pure-Sim a tt

  pub gets-Any-Sim : {A : Type 0} (f : Cpu → A) → Sim Any (gets f) (gets f)
  gets-Any-Sim f = gets-Sim f (λ c. tt)

  pub bind-Any-Sim :
      {A B : Type 0} {S : B → Type 0} (m : Exec X A) (n : Exec Y A) (f : A → Exec X B)
      (g : A → Exec Y B)
      → Sim Any m n
      → ((a : A) → Sim S (f a) (g a))
      → Sim S (m >>= f) (n >>= g)
  bind-Any-Sim m n f g h k = bind-Sim m n f g h (λ a _. k a)

pub ruleset sim_rules = (
  pure-Any-Sim, pure-Sim, raise-Sim, gets-Any-Sim, if-Sim, modify-Sim, bind-Any-Sim,
  catch_range-Sim, catch_all-Sim,
)
