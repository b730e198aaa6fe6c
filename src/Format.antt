-- ===== src/Format.antt =====
-- libc/stdio/printf.c and kernel/src/logging.c: what both interpreters of format strings use. A
-- string is its bytes without the NUL; `format_string` is a buffer in a memory of any contents.
pub mod Numbers
pub mod Printf
pub mod Logging
pub mod Agree
mod Tests
use j_oe_s.Base.{
  ℕ, zero, suc, ◌+◌, ◌-◌, ◌*◌, ◌^◌, Bool, true, false, Option, none, some, List, [], ◌∷◌, u8, u32,
  ltb, ◌==◌, if◌then◌else◌,
}
use j_oe_s.Libc.{Memory, utoa, itoa, strlen}

-- The characters after '%', which `fmt_specifier_t` and the macros of printf.c name alike.
pub data Specifier : Type 0 where
  specifier string char int1 int2 uint octal hex pointer no_output prefix_plus prefix_space
        unknown :
      Specifier

unfoldable pub specifier_of : ℕ → Specifier
specifier_of c =
    if c == b'%'
    then specifier
    else if c == b's'
    then string
    else if c == b'c'
    then char
    else if c == b'd'
    then int1
    else if c == b'i'
    then int2
    else if c == b'u'
    then uint
    else if c == b'o'
    then octal
    else if c == b'x'
    then hex
    else if c == b'p'
    then pointer
    else if c == b'n'
    then no_output
    else if c == b'+'
    then prefix_plus
    else if c == b' '
    then prefix_space
    else unknown

-- A variadic argument: a number as its 64-bit pattern, a string, or the place of an `int`.
pub data Argument : Type 0 where
  a_number : ℕ → Argument
  a_string : List ℕ → Argument
  a_place : ℕ → Argument

-- `va_arg`; `none` for a missing argument or one of another type.
unfoldable pub next_number : List Argument → Option (ℕ × List Argument)
next_number (a_number n ∷ rest) = some (n, rest)
next_number _ = none

unfoldable pub next_string : List Argument → Option (List ℕ × List Argument)
next_string (a_string s ∷ rest) = some (s, rest)
next_string _ = none

unfoldable pub next_place : List Argument → Option (ℕ × List Argument)
next_place (a_place a ∷ rest) = some (a, rest)
next_place _ = none

-- `char` of an `int`, and an `int` of a 64-bit pattern as its sign and magnitude.
abbrev pub is_negative : ℕ → Bool
is_negative n = ltb (2 ^ 31 - 1) (u32 n)

abbrev pub magnitude_of : ℕ → ℕ
magnitude_of n = if is_negative n then 2 ^ 32 - u32 n else u32 n

-- The prefix of a number that is not negative, if there is one.
abbrev pub prefix_of : ℕ → ℕ → List ℕ
prefix_of prefix n = if prefix == 0 then [] else if is_negative n then [] else prefix ∷ []

unfoldable pub read_chars : ℕ → ℕ → Memory → List ℕ
read_chars zero a m = []
read_chars (suc n) a m = m a ∷ read_chars n (a + 1) m

module _ (memory : Memory) (buffer : ℕ) where
  -- The characters that `strlen` and the loop after it find in the buffer; 66 rounds of each loop.
  unfoldable pub buffer_text : Option Memory → Option (List ℕ)
  buffer_text none = none
  buffer_text (some m) = elim (strlen 66 m buffer) [
    | none ↦ none
    | some len ↦ some (read_chars len buffer m)
  ]

  abbrev pub unsigned_text : ℕ → ℕ → Option (List ℕ)
  unsigned_text n base = buffer_text (utoa 66 memory n buffer base)

  abbrev pub signed_text : ℕ → Option (List ℕ)
  signed_text n = buffer_text (itoa 66 memory (is_negative n) (magnitude_of n) buffer 10)
