-- ===== src/Memory/Reservation.antt =====
-- rv32i/include/memory_model.hpp: LR/SC.
use xor_os.Base.{ℕ, ◌≡◌, ◌∙◌, ==_iff, refl, arith, false, ◌&&◌, ◌==◌, if◌then◌else◌}
use xor_os.Outcome.{Outcome, ok, fail}
use xor_os.Memory.{
  MemoryModel, write_word, reserve_load, invalidate_reservation, stored, store_conditional,
}

-- SC writes exactly when there is a reservation for the address: then it is the plain write, with
-- the reservation gone, and reports success unless the write throws; otherwise it reports failure
-- and changes nothing.
pub store_conditional_lem :
    {D : Type 0} (m : MemoryModel D) (a v : ℕ)
    → store_conditional m a v ≡ (
        if m.lr_valid && m.lr_addr == a
        then stored (write_word (invalidate_reservation m) a v)
        else (ok false, m))
unfolding store_conditional invalidate_reservation
store_conditional_lem m a v = ground arith

write_word-lr_valid :
    {D : Type 0} (m : MemoryModel D) (a v : ℕ) → (write_word m a v).1.lr_valid ≡ m.lr_valid
unfolding write_word
write_word-lr_valid m a v = ground arith

stored-lr_valid :
    {D : Type 0} (r : Outcome (Unit {0}) × MemoryModel D) → (stored r).1.lr_valid ≡ r.1.lr_valid
stored-lr_valid (ok done, m) = refl
stored-lr_valid (fail e, m) = refl

no_reservation :
    {D : Type 0} (m : MemoryModel D) (b w : ℕ)
    → m.lr_valid ≡ false
    → store_conditional m b w ≡ (ok false, m)
unfolding store_conditional
no_reservation m b w h = rw h

used_reservation :
    {D : Type 0} (m : MemoryModel D) (a v : ℕ)
    → (store_conditional (reserve_load m a) a v).1.lr_valid ≡ false
unfolding reserve_load
used_reservation m a v =
    rw (store_conditional_lem (reserve_load m a) a v, (==_iff a a).1 refl)
      (stored-lr_valid (write_word (invalidate_reservation (reserve_load m a)) a v)
        ∙ write_word-lr_valid (invalidate_reservation (reserve_load m a)) a v
        ∙ unfold invalidate_reservation in refl)

-- A reservation is used once: after an SC that went through, or threw, the next one fails at every
-- address until the next LR; and so it does after `invalidateReservation`.
pub reservation_once :
    {D : Type 0} (m : MemoryModel D) (a v b w : ℕ)
    → let m' = (store_conditional (reserve_load m a) a v).1 in
      (store_conditional m' b w ≡ (ok false, m'))
      × (store_conditional (invalidate_reservation m) b w ≡ (ok false, invalidate_reservation m))
reservation_once m a v b w = (
  no_reservation _ b w (used_reservation m a v),
  no_reservation (invalidate_reservation m) b w (unfold invalidate_reservation in refl),
)
