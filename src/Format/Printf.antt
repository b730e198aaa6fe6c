-- ===== src/Format/Printf.antt =====
-- libc/stdio/printf.c: the loop of `printf`. What it sends to the terminal is a list of bytes.
use j_oe_s.Base.{
  ℕ, ◌+◌, ◌-◌, Bool, true, false, Option, none, some, List, [], ◌∷◌, ◌++◌, length, u8, u32, ◌==◌,
  if◌then◌else◌, word64,
}
use j_oe_s.Libc.{Memory}
use j_oe_s.Format.{
  Specifier, specifier, string, char, int1, int2, uint, octal, hex, pointer, no_output, prefix_plus,
  prefix_space, unknown, specifier_of, Argument, next_number, next_string, next_place, prefix_of,
  unsigned_text, signed_text,
}

-- The variables of `printf`, the arguments that are left, the bytes put on the terminal, and the
-- integers stored by %n.
pub record Printer : Type 0 where
  pub formatting : Bool
  pub prefix : ℕ
  pub written : ℕ
  pub output : List ℕ
  pub args : List Argument
  pub stores : List (ℕ × ℕ)

-- How a round ends: with the next one, or with `return -1`.
pub data Round : Type 0 where
  goes_on fails : Printer → Round

-- Text that is put out and counted, and the way back to normal mode.
abbrev pub put : List ℕ → Printer → Printer
put text p = record p { output = p.output ++ text; written = p.written + length text }

abbrev pub normal_mode : List Argument → Printer → Printer
normal_mode args p = record p { formatting = false; args = args }

module _ (memory : Memory) (buffer : ℕ) where
  abbrev pub put_number : Option (List ℕ) → List ℕ → List Argument → Printer → Option Round
  put_number none front args p = none
  put_number (some text) front args p = some (goes_on (normal_mode args (put (front ++ text) p)))

  -- The switch of format mode.
  unfoldable pub convert : Specifier → Printer → Option Round
  convert char p = elim (next_number p.args) [
    | none ↦ none
    | some (n, args) ↦ some (goes_on (normal_mode args (put (u8 n ∷ []) p)))
  ]
  convert string p = elim (next_string p.args) [
    | none ↦ none
    | some (s, args) ↦ some (goes_on (normal_mode args (put s p)))
  ]
  convert specifier p = some (goes_on (normal_mode p.args (put (b'%' ∷ []) p)))
  convert int1 p = elim (next_number p.args) [
    | none ↦ none
    | some (n, args) ↦ put_number (signed_text memory buffer n) (prefix_of p.prefix n) args p
  ]
  convert int2 p = elim (next_number p.args) [
    | none ↦ none
    | some (n, args) ↦ put_number (signed_text memory buffer n) (prefix_of p.prefix n) args p
  ]
  convert uint p = elim (next_number p.args) [
    | none ↦ none
    | some (n, args) ↦ put_number (unsigned_text memory buffer (u32 n) 10) (p.prefix ∷ []) args p
  ]
  convert octal p = elim (next_number p.args) [
    | none ↦ none
    | some (n, args) ↦ put_number (unsigned_text memory buffer (u32 n) 8) [] args p
  ]
  convert hex p = elim (next_number p.args) [
    | none ↦ none
    | some (n, args) ↦ put_number (unsigned_text memory buffer (u32 n) 16) [] args p
  ]
  -- The two characters in front of a pointer are not counted.
  convert pointer p = elim (next_number p.args) [
    | none ↦ none
    | some (n, args) ↦
        put_number (unsigned_text memory buffer n 16) [] args
          (record p { output = p.output ++ (b'0' ∷ b'x' ∷ []) })
  ]
  convert no_output p = elim (next_place p.args) [
    | none ↦ none
    | some (place, args) ↦
        some (goes_on (normal_mode args (record p { stores = (place, u32 p.written) ∷ p.stores })))
  ]
  convert prefix_plus p = some (goes_on (record p { prefix = b'+' }))
  convert prefix_space p = some (goes_on (record p { prefix = b' ' }))
  convert unknown p = some (fails p)

  -- One round of the loop, by the mode.
  unfoldable pub print_char : Bool → ℕ → Printer → Option Round
  print_char false c p =
      if c == b'%'
      then some (goes_on (record p { formatting = true; prefix = 0 }))
      else some (goes_on (put (c ∷ []) p))
  print_char true c p = convert (specifier_of c) p

  -- The loop; the result is that of `printf`, -1 as a `size_t` after an unknown specifier.
  unfoldable pub print_loop : List ℕ → Printer → Option (ℕ × Printer)
  print_loop [] p = some (p.written, p)
  print_loop (c ∷ rest) p = elim (print_char p.formatting c p) [
    | none ↦ none
    | some (fails p') ↦ some (word64 - 1, p')
    | some (goes_on p') ↦ print_loop rest p'
  ]

  unfoldable pub printf : List ℕ → List Argument → Option (ℕ × Printer)
  printf str args = print_loop str (record {
    formatting = false;
    prefix = 0;
    written = 0;
    output = [];
    args = args;
    stores = [];
  })
