-- ===== src/Dumper/Trace.antt =====
-- rv32i/include/dumper.hpp: the trace of a run.
use mathlib.Core.List.{append_assoc, append-nil}
use xor_os.Base.{
  ℕ, zero, suc, ◌<◌, ◌^◌, ◌≡◌, refl, ap, sym, ◌∙◌, arith, true, false, ◌==◌, List, [], ◌∷◌, ◌++◌,
  Option, some, none, length,
}
use xor_os.Base.Text.{
  Text, codes, hex_fixed, hex_digit, read_hex, read_hex-hex_fixed, absent, split, split-append,
  absent-append, absent-hex_fixed,
}
use xor_os.Dumper.{step_line, on_step}

-- The trace file after calls of `onStep`.
abbrev pub traced : Option Text → List (ℕ × Text) → Option Text
traced trace [] = trace
traced trace ((pc, disasm) ∷ steps) = traced (on_step trace pc disasm) steps

-- The pc is a word, and the text of the instruction is one line.
abbrev pub Lines : List (ℕ × Text) → Type 0
Lines [] = Unit {0}
Lines ((pc, disasm) ∷ steps) = (pc < 2 ^ 32) × (absent b'\n' disasm ≡ true) × Lines steps

after : ℕ → Text → Text
after zero t = t
after (suc n) [] = []
after (suc n) (c ∷ t) = after n t

-- `[`, the digits of the pc, `] ` and the instruction.
read_line : Text → ℕ × Text
read_line t = let r = split b']' (after 1 t) in (read_hex 0 r.0, after 1 r.1)

pub read_trace : ℕ → Text → List (ℕ × Text)
read_trace zero t = []
read_trace (suc n) t = let r = split b'\n' t in read_line r.0 ∷ read_trace n r.1

line_body : ℕ → Text → Text
line_body pc disasm = b'[' ∷ (hex_fixed 8 pc ++ (codes "] " ++ disasm))

digit_plain : (sep : ℕ) (k : ℕ) → sep < 48 → k < 16 → (hex_digit k == sep) ≡ false
unfolding hex_digit
digit_plain sep k s h = ground arith

digit_bracket : (k : ℕ) → k < 16 → (hex_digit k == b']') ≡ false
unfolding hex_digit
digit_bracket k h = ground arith

read_line-line_body :
    (pc : ℕ) (disasm : Text) → pc < 2 ^ 32 → read_line (line_body pc disasm) ≡ (pc, disasm)
unfolding read_line line_body after
read_line-line_body pc disasm h =
    let parts =
      split-append b']' (hex_fixed 8 pc) (b' ' ∷ disasm)
        (absent-hex_fixed b']' 8 pc digit_bracket) in
    rw (parts, after, read_hex-hex_fixed 8 pc h) refl

line_body-plain :
    (pc : ℕ) (disasm : Text)
    → absent b'\n' disasm ≡ true
    → absent b'\n' (line_body pc disasm) ≡ true
unfolding line_body absent
line_body-plain pc disasm h =
    absent-append b'\n' (hex_fixed 8 pc) (codes "] " ++ disasm)
      (absent-hex_fixed b'\n' 8 pc (λ k l. digit_plain b'\n' k (omega arith) l)) h

step_line-body :
    (pc : ℕ) (disasm : Text) → step_line pc disasm ≡ line_body pc disasm ++ (b'\n' ∷ [])
unfolding step_line line_body
step_line-body pc disasm =
    ap (λ (t : Text). b'[' ∷ t)
      (sym (append_assoc (hex_fixed 8 pc) (codes "] " ++ disasm) (b'\n' ∷ [])))

-- The calls of onStep on an open trace file append to it, and what they append reads back as the
-- sequence of the instructions, each with its pc; a file that is not open stays so.
pub read_trace-traced :
    (steps : List (ℕ × Text)) (out : Text)
    → Lines steps
    → (traced none steps ≡ none)
      × ((t : Text) × (traced (some out) steps ≡ some (out ++ t))
          × (read_trace (length steps) t ≡ steps))
unfolding on_step read_trace
read_trace-traced [] out h = (refl, ([], ap some (sym (append-nil out)), refl))
read_trace-traced ((pc, disasm) ∷ steps) out h =
    let rest = read_trace-traced steps (out ++ step_line pc disasm) h.2 in
    let cut = split-append b'\n' (line_body pc disasm) rest.1.0 (line_body-plain pc disasm h.1) in
    (
      rest.0,
      (
        line_body pc disasm ++ (b'\n' ∷ rest.1.0),
        rest.1.1
            ∙ ap some (
                append_assoc out (step_line pc disasm) rest.1.0
                ∙ ap (λ (t : Text). out ++ t)
                    (ap (λ (t : Text). t ++ rest.1.0) (step_line-body pc disasm)
                      ∙ append_assoc (line_body pc disasm) (b'\n' ∷ []) rest.1.0)),
        rw (cut, rest.1.2, read_line-line_body pc disasm h.0) refl,
      ),
    )
