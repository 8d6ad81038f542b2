-- ===== src/Kernel/Pipe.antt =====
-- os/include/pipe.h and os/src/pipe.c: the pipe, a ring buffer of 16 bytes.
pub mod Fifo
use xor_os.Base.{
  ℕ, ◌+◌, ◌-◌, ◌%◌, ◌^◌, ◌==◌, if◌then◌else◌, List, Option, none, some, get_or, replicate,
}
use xor_os.Base.{set as set_elem}
use xor_os.Base.Int.{ℤ, pos, negsuc}

abbrev pub pipe_size : ℕ
pipe_size = 16

pub record Pipe : Type 0 where
  pub buf : List ℕ
  pub read_pos : ℕ
  pub write_pos : ℕ
  pub count : ℕ

-- The buffer is as it was.
unfoldable pub pipe_init : Pipe → Pipe
pipe_init p = record p { read_pos = 0; write_pos = 0; count = 0 }

unfoldable pub pipe_write : Pipe → ℕ → ℤ × Pipe
pipe_write p byte = if p.count == pipe_size then (negsuc 0, p) else (
  pos 0,
  record p {
    buf = set_elem p.buf p.write_pos byte;
    write_pos = (p.write_pos + 1) % pipe_size;
    count = (p.count + 1) % 2 ^ 32;
  },
)

-- What is stored in `*out`, if anything is, beside the result.
unfoldable pub pipe_read : Pipe → ℤ × Option ℕ × Pipe
pipe_read p = if p.count == 0 then (negsuc 0, none, p) else (
  pos 0,
  some (get_or p.buf p.read_pos 0),
  record p { read_pos = (p.read_pos + 1) % pipe_size; count = (p.count + 2 ^ 32 - 1) % 2 ^ 32 },
)
