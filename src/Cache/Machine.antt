-- ===== src/Cache/Machine.antt =====
-- rv32i/cache_src/include/cache_model.hpp: the cache serves the CPU as its backing memory does.
use xor_os.Base.{
  ℕ, ◌+◌, ◌-◌, ◌*◌, ◌%◌, ◌^◌, ◌<◌, ◌≡◌, refl, sym, arith, Bool, true, false, leb, ◌==◌, ◌&&◌, inl,
  inr, if◌then◌else◌, Bool-cases, leb→le, length,
}
use mathlib.Core.Path.{subst}
use xor_os.Outcome.{Outcome, ok, fail, out_of_range}
use xor_os.Memory
use xor_os.Memory.{MemoryModel, word_addr, byte_shift, stored}
use xor_os.Memory.Bytes.{after_byte, after_half, after_word}
use xor_os.Memory.Access.{write_byte-eq, write_half-eq, write_word-eq}
use xor_os.Memory.Reservation.{store_conditional_lem}
use xor_os.RvModel.Monad.{MemT, RvModel}
use xor_os.RvModel.State.{Cpu}
use xor_os.RvModel.Plain.{memory_ops}
use xor_os.RvModel.Plain.Laws.{find_mmio-IsPlain, reservation-IsPlain}
use xor_os.RvModel.Step.{step}
use xor_os.RvModel.Sim.{Any, MemSim, SameEnd}
use xor_os.RvModel.Sim.Steps.{step-SameEnd}
use xor_os.Cache
use xor_os.Cache.{CacheModel, after_write, after_store, patch_cached, write_line, cache_ops}
use xor_os.Cache.Words.{word_addr_lem, byte_shift_lem}
use xor_os.Cache.Coherent.{IsCoherent, Mirrors}
use xor_os.Cache.Writes.{set_value-AreCopies, patch_cached-Mirrors, write_line-Mirrors}
use xor_os.Cache.Reads.{Alike, read_byte-Alike, read_half-Alike, read_word-Alike}
use xor_os.Cache.Stores.{
  byte-Rewrote, byte-patch, half-Rewrote, half-patch, word-Rewrote, word-value,
}

module _ {D : Type 0} (c : CacheModel D) (h : IsCoherent c) where
  -- A write that fits, and one that throws.
  after_write-Alike :
      (f : CacheModel D → CacheModel D) (b : Bool) (m' : MemoryModel D)
      → (b ≡ true → Mirrors (f (record c { backing = m' })) m')
      → let r : Outcome (Unit {0}) × MemoryModel D =
          if b then (ok tt, m') else (fail out_of_range, c.backing) in
        Alike (after_write c f r) r
  unfolding after_write
  after_write-Alike f true m' g = (refl, g refl)
  after_write-Alike f false m' g = (refl, record { backing = refl; coherent = h })

  module _ (a v : ℕ) where
    write_word-Alike :
        a % 4 ≡ 0 → v < 2 ^ 32 → Alike (Cache.write_word c a v) (Memory.write_word c.backing a v)
    unfolding Cache.write_word
    write_word-Alike aligned small =
        rw (write_word-eq c.backing a v (find_mmio-IsPlain c.backing h.whole.plain a)) (
          after_write-Alike (λ d. write_line d a v) (leb (a + 4) (length c.backing.bytes))
            (after_word c.backing a v)
            (λ fits.
              let le = leb→le _ _ fits in
              write_line-Mirrors c h _ a (word-Rewrote c.backing h.whole a v le aligned) v
                (word-value c.backing h.whole a v le aligned small)))

    write_byte-Alike :
        a < 2 ^ 32 → v < 2 ^ 8 → Alike (Cache.write_byte c a v) (Memory.write_byte c.backing a v)
    unfolding Cache.write_byte
    write_byte-Alike w small =
        rw
          (
            write_byte-eq c.backing a v (find_mmio-IsPlain c.backing h.whole.plain a),
            word_addr_lem a w,
            byte_shift_lem a,
          )
          (after_write-Alike (λ d. patch_cached d (a - a % 4) (a % 4 * 8) 0xFF v)
            (leb (a + 1) (length c.backing.bytes)) (after_byte c.backing a v)
            (λ fits.
              let le = leb→le _ _ fits in
              patch_cached-Mirrors c h _ (a - a % 4) (byte-Rewrote c.backing h.whole a v le small)
                (a % 4 * 8) 0xFF v (byte-patch c.backing h.whole a v le small)))

    write_half-Alike :
        a < 2 ^ 32
        → a % 2 ≡ 0
        → v < 2 ^ 16
        → Alike (Cache.write_half c a v) (Memory.write_half c.backing a v)
    unfolding Cache.write_half
    write_half-Alike w even small =
        rw
          (
            write_half-eq c.backing a v (find_mmio-IsPlain c.backing h.whole.plain a),
            word_addr_lem a w,
            byte_shift_lem a,
          )
          (after_write-Alike (λ d. patch_cached d (a - a % 4) (a % 4 * 8) 0xFFFF v)
            (leb (a + 2) (length c.backing.bytes)) (after_half c.backing a v)
            (λ fits.
              let le = leb→le _ _ fits in
              patch_cached-Mirrors c h _ (a - a % 4) (half-Rewrote c.backing h.whole a v le even)
                (a % 4 * 8) 0xFFFF v (half-patch c.backing h.whole a v le even small)))

  -- Only the reservation of the memory changes.
  reserved-Mirrors :
      (a : ℕ) (valid : Bool)
      → let m' : MemoryModel D = record c.backing { lr_addr = a; lr_valid = valid } in
        Mirrors (record c { backing = m' }) m'
  reserved-Mirrors a valid = record {
    backing = refl;
    coherent = record {
      whole = record {
        plain = reservation-IsPlain c.backing a valid h.whole.plain;
        words = h.whole.words;
        small = h.whole.small;
      };
      room = h.room;
      lines = record {
        bounded = h.lines.bounded;
        distinct = h.lines.distinct;
        copies = h.lines.copies;
      };
    };
  }

  module _ (a v : ℕ) (aligned : a % 4 ≡ 0) (small : v < 2 ^ 32) where
    -- The memory with its reservation used up.
    abbrev free : MemoryModel D
    free = record c.backing { lr_valid = false }

    abbrev freed : CacheModel D
    freed = record c { backing = free }

    stored-Alike :
        (b : Bool)
        → leb (a + 4) (length c.backing.bytes) ≡ b
        → let r : Outcome (Unit {0}) × MemoryModel D =
            if b then (ok tt, after_word free a v) else (fail out_of_range, free) in
          Alike (after_store c a v (stored r)) (stored r)
    unfolding after_store
    stored-Alike true fits =
        let old = (reserved-Mirrors c.backing.lr_addr false).coherent in
        let le = leb→le _ _ fits in
        let now = word-Rewrote free old.whole a v le aligned in
        let bound = h.whole.small in
        let tag : word_addr a ≡ a = omega (arith, word_addr_lem a (omega arith)) in
        let value = word-value free old.whole a v le aligned small in
        (
          refl,
          rw tag (record {
            backing = refl;
            coherent = record {
              whole = now.whole;
              room = h.room;
              lines = set_value-AreCopies free _ a now c.capacity c.lru old.lines v (sym value);
            };
          }),
        )
    stored-Alike false fits = (refl, reserved-Mirrors c.backing.lr_addr false)

    store_conditional-Alike :
        Alike (Cache.store_conditional c a v) (Memory.store_conditional c.backing a v)
    unfolding Cache.store_conditional Memory.invalidate_reservation
    store_conditional-Alike =
        rw (store_conditional_lem c.backing a v)
          (elim (Bool-cases (c.backing.lr_valid && c.backing.lr_addr == a)) [
            | inl held ↦
                rw (held, write_word-eq free a v (find_mmio-IsPlain c.backing h.whole.plain a))
                  (stored-Alike (leb (a + 4) (length c.backing.bytes)) refl)
            | inr lost ↦
                rw lost (unfold after_store in (refl, record { backing = refl; coherent = h }))
          ])

-- What holds of the memory behind a coherent cache.
mirrored :
    {D : Type 0} (c : CacheModel D) (m : MemoryModel D) (P : MemoryModel D → Type 0)
    → Mirrors c m
    → (IsCoherent c → P c.backing)
    → P m
mirrored c m P h g = subst P h.backing (g h.coherent)

-- A cache answers every call of the CPU as its memory does, and stays coherent.
module _ {D : Type 0} where
  abbrev ops : MemT (MemoryModel D)
  ops = memory_ops

  pub cache_ops-MemSim : MemSim Mirrors (cache_ops {D = D}) ops
  unfolding cache_ops memory_ops Cache.reserve_load Memory.reserve_load Cache.invalidate_reservation
      Memory.invalidate_reservation
  cache_ops-MemSim = record {
    read_byte = λ c m a h w.
        mirrored c m (λ n. Alike (Cache.read_byte c a) (ops.read_byte n a)) h
          (λ k. read_byte-Alike c k a w);
    read_half = λ c m a h w e.
        mirrored c m (λ n. Alike (Cache.read_half c a) (ops.read_half n a)) h
          (λ k. read_half-Alike c k a w e);
    read_word = λ c m a h e.
        mirrored c m (λ n. Alike (Cache.read_word c a) (ops.read_word n a)) h
          (λ k. read_word-Alike c k a e);
    write_byte = λ c m a v h w g.
        mirrored c m (λ n. Alike (Cache.write_byte c a v) (ops.write_byte n a v)) h
          (λ k. write_byte-Alike c k a v w g);
    write_half = λ c m a v h w e g.
        mirrored c m (λ n. Alike (Cache.write_half c a v) (ops.write_half n a v)) h
          (λ k. write_half-Alike c k a v w e g);
    write_word = λ c m a v h e g.
        mirrored c m (λ n. Alike (Cache.write_word c a v) (ops.write_word n a v)) h
          (λ k. write_word-Alike c k a v e g);
    reserve_load = λ c m a h.
        mirrored c m (λ n. Mirrors (Cache.reserve_load c a) (ops.reserve_load n a)) h
          (λ k. reserved-Mirrors c k a true);
    store_conditional = λ c m a v h e g.
        mirrored c m (λ n. Alike (Cache.store_conditional c a v) (ops.store_conditional n a v)) h
          (λ k. store_conditional-Alike c k a v e g);
    invalidate_reservation = λ c m h.
        mirrored c m (λ n. Mirrors (Cache.invalidate_reservation c) (ops.invalidate_reservation n))
          h (λ k. reserved-Mirrors c k c.backing.lr_addr false);
  }

-- What two steps end in: the same outcome and CPU, and the cache mirrors the memory.
abbrev pub EndAlike :
    {D : Type 0}
    → Outcome (Unit {0}) × RvModel (CacheModel D)
    → Outcome (Unit {0}) × RvModel (MemoryModel D)
    → Type 0
EndAlike r r' = (r.0 ≡ r'.0) × (r.1.cpu ≡ r'.1.cpu) × Mirrors r.1.mem r'.1.mem

SameEnd-EndAlike :
    {D : Type 0} (r : Outcome (Unit {0}) × RvModel (CacheModel D))
    (r' : Outcome (Unit {0}) × RvModel (MemoryModel D))
    → SameEnd Mirrors Any r r'
    → EndAlike r r'
SameEnd-EndAlike r r' (SameEnd.returned a c x y q h) = (refl, refl, h)
SameEnd-EndAlike r r' (SameEnd.threw e c x y h) = (refl, refl, h)

-- For a cache of at least one line over a memory of whole words of bytes, 2 ^ 32 bytes at most,
-- that has no MMIO region, which that of `run_os` has: from an aligned pc, a step of the CPU over
-- the cache, whose lines are at most its capacity and copies of distinct words of the memory, ends
-- as the step over the memory behind it, with the same exception or none and the same CPU; and the
-- cache is such a one again, over the memory that the other step leaves.
pub step-cache_ops :
    {D : Type 0} (cpu : Cpu) (c : CacheModel D)
    → IsCoherent c
    → cpu.pc % 4 ≡ 0
    → EndAlike
        (step cache_ops (record { cpu = cpu; mem = c }))
        (step memory_ops (record { cpu = cpu; mem = c.backing }))
step-cache_ops cpu c h e =
    SameEnd-EndAlike _ _
      (step-SameEnd cache_ops-MemSim cpu c c.backing (record { backing = refl; coherent = h }) e)
