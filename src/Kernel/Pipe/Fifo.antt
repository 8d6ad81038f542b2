-- ===== src/Kernel/Pipe/Fifo.antt =====
-- os/src/pipe.c: the pipe is a queue of at most 16 bytes.
use xor_os.Base.{
  Bool-cases, inl, inr, ℕ, zero, suc, ◌+◌, ◌-◌, ◌%◌, ◌^◌, ◌≤◌, ◌<◌, ◌≡◌, refl, sym, ap, ◌∙◌, arith,
  false, ◌==◌, if◌then◌else◌, List, [], ◌∷◌, ◌++◌, Option, none, some, get_or, length, length-set,
  get_or-set_self, get_or-set_ne,
}
use xor_os.Base.{set as set_elem}
use xor_os.Base.Int.{ℤ, pos, negsuc}
use xor_os.Kernel.Pipe.{Pipe, pipe_init, pipe_write, pipe_read}

-- `n` bytes of the ring from the position on.
abbrev pub ring : List ℕ → ℕ → ℕ → List ℕ
ring buf i zero = []
ring buf i (suc n) = get_or buf i 0 ∷ ring buf ((i + 1) % 16) n

-- The bytes in the pipe, the oldest first.
abbrev pub contents : Pipe → List ℕ
contents p = ring p.buf p.read_pos p.count

pub record IsRing (p : Pipe) : Type 0 where
  pub whole : length p.buf ≡ 16
  pub fits : p.count ≤ 16
  pub first : p.read_pos < 16
  pub next : p.write_pos ≡ (p.read_pos + p.count) % 16

length-ring : (buf : List ℕ) (i n : ℕ) → length (ring buf i n) ≡ n
length-ring buf i zero = refl
length-ring buf i (suc n) = ap suc (length-ring buf ((i + 1) % 16) n)

-- A write behind the bytes leaves them.
ring-set :
    (buf : List ℕ) (b i n m : ℕ)
    → i < 16
    → n ≤ m
    → m < 16
    → ring (set_elem buf ((i + m) % 16) b) i n ≡ ring buf i n
ring-set buf b i zero m h le lt = refl
ring-set buf b i (suc n) m h le lt =
    let here = get_or-set_ne buf ((i + m) % 16) i b 0 (λ e. omega arith) in
    let same : ((i + 1) % 16 + (m - 1)) % 16 ≡ (i + m) % 16 = omega arith in
    let there = ring-set buf b ((i + 1) % 16) n (m - 1) (omega arith) (omega arith) (omega arith) in
    rw here (
      ap (λ (xs : List ℕ). get_or buf i 0 ∷ xs)
        (ap (λ (w : ℕ). ring (set_elem buf w b) ((i + 1) % 16) n) (sym same) ∙ there))

-- The last byte.
ring-snoc :
    (buf : List ℕ) (i n : ℕ)
    → i < 16
    → ring buf i (suc n) ≡ ring buf i n ++ (get_or buf ((i + n) % 16) 0 ∷ [])
ring-snoc buf i zero h =
    let same : i ≡ (i + 0) % 16 = omega arith in ap (λ (j : ℕ). get_or buf j 0 ∷ []) same
ring-snoc buf i (suc n) h =
    let same : ((i + 1) % 16 + n) % 16 ≡ (i + suc n) % 16 = omega arith in
    ap (λ (xs : List ℕ). get_or buf i 0 ∷ xs)
      (ring-snoc buf ((i + 1) % 16) n (omega arith)
        ∙ ap (λ (j : ℕ). ring buf ((i + 1) % 16) n ++ (get_or buf j 0 ∷ [])) same)

module _ (p : Pipe) (h : IsRing p) (b : ℕ) where
  write-contents :
      p.count < 16
      → ring (set_elem p.buf p.write_pos b) p.read_pos (suc p.count) ≡ contents p ++ (b ∷ [])
  write-contents lt =
      let w = (p.read_pos + p.count) % 16 in
      let len = h.whole in
      let first = h.first in
      let stored = get_or-set_self p.buf w b 0 (omega arith) in
      ap (λ (j : ℕ). ring (set_elem p.buf j b) p.read_pos (suc p.count)) h.next
      ∙ ring-snoc (set_elem p.buf w b) p.read_pos p.count h.first
      ∙ rw (stored, ring-set p.buf b p.read_pos p.count p.count h.first (omega arith) lt)

-- A queue of at most 16 bytes, its operations with the results of the pipe's.
abbrev pub enqueue : List ℕ → ℕ → ℤ × List ℕ
enqueue q b = if length q == 16 then (negsuc 0, q) else (pos 0, q ++ (b ∷ []))

abbrev pub dequeue : List ℕ → ℤ × Option ℕ × List ℕ
dequeue [] = (negsuc 0, none, [])
dequeue (b ∷ q) = (pos 0, some b, q)

-- What is seen of a write, and of a read.
abbrev pub written : ℤ × Pipe → ℤ × List ℕ
written r = (r.0, contents r.1)

abbrev pub read_out : ℤ × Option ℕ × Pipe → ℤ × Option ℕ × List ℕ
read_out r = (r.0, r.1, contents r.2)

write-Fifo :
    (p : Pipe) (b : ℕ)
    → IsRing p
    → (written (pipe_write p b) ≡ enqueue (contents p) b) × IsRing (pipe_write p b).1
write-Fifo p b h = elim (Bool-cases (p.count == 16)) [
  | inl full ↦
      unfold pipe_write in
      rw (full, pipe_write, length-ring p.buf p.read_pos p.count, full) (refl, h)
  | inr free ↦
      let le = h.fits in
      let lt : p.count < 16 = ground arith in
      let more : (p.count + 1) % 2 ^ 32 ≡ suc p.count = omega arith in
      let next = h.next in
      unfold pipe_write in
      rw (free, pipe_write, length-ring p.buf p.read_pos p.count, free, more)
        (
          ap (λ (q : List ℕ). (pos 0, q)) (write-contents p h b lt),
          record {
            whole = length-set p.buf p.write_pos b ∙ h.whole;
            fits = omega arith;
            first = h.first;
            next = omega arith;
          },
        )
]

read-Fifo :
    (p : Pipe) (n : ℕ)
    → p.count ≡ n
    → IsRing p
    → (read_out (pipe_read p) ≡ dequeue (contents p)) × IsRing (pipe_read p).2
read-Fifo p zero e h =
    let next = h.next in
    let first = h.first in
    unfold pipe_read in
    rw (e, pipe_read)
      (
        refl,
        record { whole = h.whole; fits = omega arith; first = omega arith; next = omega arith },
      )
read-Fifo p (suc n) e h =
    let some_left : (p.count == 0) ≡ false = ground arith in
    let less : (p.count + 2 ^ 32 - 1) % 2 ^ 32 ≡ n = let le = h.fits in omega arith in
    let next = h.next in
    let le = h.fits in
    let first = h.first in
    unfold pipe_read in
    rw (some_left, pipe_read, less, e)
      (
        refl,
        record { whole = h.whole; fits = omega arith; first = omega arith; next = omega arith },
      )

-- A pipe behaves as a queue of at most 16 bytes: a write to a full one fails and else adds the byte
-- at the end, a read of an empty one fails and else takes the byte at the front, and pipe_init
-- empties it; each keeps the positions and the count of a ring.
pub pipe-Fifo :
    (p : Pipe) (b : ℕ)
    → IsRing p
    → (written (pipe_write p b) ≡ enqueue (contents p) b)
      × IsRing (pipe_write p b).1
      × (read_out (pipe_read p) ≡ dequeue (contents p))
      × IsRing (pipe_read p).2
      × (contents (pipe_init p) ≡ [])
      × IsRing (pipe_init p)
unfolding pipe_init
pipe-Fifo p b h =
    let write = write-Fifo p b h in
    let read = read-Fifo p p.count refl h in
    (
      write.0,
      write.1,
      read.0,
      read.1,
      refl,
      record { whole = h.whole; fits = omega arith; first = omega arith; next = omega arith },
    )
