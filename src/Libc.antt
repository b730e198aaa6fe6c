-- ===== src/Libc.antt =====
-- libc/string: memory and strings. Memory is the byte at each address; a pointer's range does not
-- reach past the end of the address space, except where a comment says that an index wraps.
pub mod Copy
pub mod Strings
pub mod Numbers
mod Tests
use j_oe_s.Base.{
  ℕ, zero, suc, ◌+◌, ◌-◌, ◌*◌, ◌/◌, ◌%◌, Bool, true, false, Option, none, some, ltb, ◌==◌,
  if◌then◌else◌, u8, add64, sub64,
}

abbrev pub Memory : Type 0
Memory = ℕ → ℕ

abbrev pub write : Memory → ℕ → ℕ → Memory
write m a v = λ x. if x == a then v else m x

-- The loop of `memset` at index `i`, with `left` rounds left.
unfoldable pub memset_loop : ℕ → ℕ → ℕ → ℕ → Memory → Memory
memset_loop zero i s c m = m
memset_loop (suc left) i s c m = memset_loop left (i + 1) s c (write m (s + i) (u8 c))

unfoldable pub memset : Memory → ℕ → ℕ → ℕ → Memory
memset m s c n = memset_loop n 0 s c m

-- The loop that copies upwards, at index `i`, with `left` rounds left.
unfoldable pub copy_up : ℕ → ℕ → ℕ → ℕ → Memory → Memory
copy_up zero i dest src m = m
copy_up (suc left) i dest src m = copy_up left (i + 1) dest src (write m (dest + i) (m (src + i)))

-- The loop that copies downwards, from index `i` on.
unfoldable pub copy_down : ℕ → ℕ → ℕ → Memory → Memory
copy_down zero dest src m = m
copy_down (suc i) dest src m = copy_down i dest src (write m (dest + i) (m (src + i)))

unfoldable pub memcpy : Memory → ℕ → ℕ → ℕ → Memory
memcpy m dest src n = copy_up n 0 dest src m

unfoldable pub memmove : Memory → ℕ → ℕ → ℕ → Memory
memmove m dest src n =
    if ltb dest src
    then copy_up n 0 dest src m
    else if ltb src dest
    then copy_down n dest src m
    else m

-- The results -1, 0 and 1 of `memcmp`.
pub data Compared : Type 0 where
  below same above : Compared

unfoldable pub memcmp_loop : ℕ → ℕ → ℕ → ℕ → Memory → Compared
memcmp_loop zero i s1 s2 m = same
memcmp_loop (suc left) i s1 s2 m =
    let rest = memcmp_loop left (i + 1) s1 s2 m in
    if m (s1 + i) == m (s2 + i)
    then rest
    else if ltb (m (s1 + i)) (m (s2 + i))
    then below
    else above

unfoldable pub memcmp : Memory → ℕ → ℕ → ℕ → Compared
memcmp m s1 s2 n = memcmp_loop n 0 s1 s2 m

-- The loop of `strlen` at index `i`; `none` where `fuel` rounds were not enough.
unfoldable pub strlen_loop : ℕ → ℕ → ℕ → Memory → Option ℕ
strlen_loop zero i str m = none
strlen_loop (suc fuel) i str m =
    let rest = strlen_loop fuel (i + 1) str m in if m (str + i) == 0 then some i else rest

unfoldable pub strlen : ℕ → Memory → ℕ → Option ℕ
strlen fuel m str = strlen_loop fuel 0 str m

-- One round of the loop of `strrev`.
abbrev pub swap : ℕ → ℕ → ℕ → Memory → Memory
swap str i j m = write (write m (add64 str i) (m (add64 str j))) (add64 str j) (m (add64 str i))

-- The loop of `strrev`. Its second index, of type `size_t`, wraps.
unfoldable pub strrev_loop : ℕ → ℕ → ℕ → ℕ → Memory → Option Memory
strrev_loop zero i j str m = none
strrev_loop (suc fuel) i j str m =
    let rest = strrev_loop fuel (i + 1) (sub64 j 1) str (swap str i j m) in
    if ltb i j then rest else some m

unfoldable pub strrev : ℕ → Memory → ℕ → Option Memory
strrev fuel m str = elim (strlen fuel m str) [
  | none ↦ none
  | some n ↦ strrev_loop fuel 0 (sub64 n 1) str m
]

-- `(temp > 9) ? 'a' + temp - 10 : '0' + temp`
abbrev pub digit_char : ℕ → ℕ
digit_char temp = if ltb 9 temp then b'a' + temp - 10 else b'0' + temp

-- The loop of `utoa`: the memory and the index after it.
unfoldable pub utoa_loop : ℕ → ℕ → ℕ → ℕ → ℕ → Memory → Option (ℕ × Memory)
utoa_loop zero number i str base m = none
utoa_loop (suc fuel) number i str base m =
    let rest =
      utoa_loop fuel (number / base) (i + 1) str base
        (write m (str + i) (digit_char (number % base))) in
    if number == 0 then some (i, m) else rest

unfoldable pub utoa : ℕ → Memory → ℕ → ℕ → ℕ → Option Memory
utoa fuel m number str base = elim (number == 0) [
  | true ↦ some (write (write m str b'0') (str + 1) 0)
  | false ↦ elim (utoa_loop fuel number 0 str base m) [
    | none ↦ none
    | some (i, m') ↦ strrev fuel (write m' (str + i) 0) str
  ]
]

-- A `long` as its sign and its magnitude. Division truncates in C, so the digits of a negative
-- number, each multiplied by -1, are those of its magnitude.
unfoldable pub itoa : ℕ → Memory → Bool → ℕ → ℕ → ℕ → Option Memory
itoa fuel m negative magnitude str base = elim (magnitude == 0) [
  | true ↦ some (write (write m str b'0') (str + 1) 0)
  | false ↦ elim (utoa_loop fuel magnitude 0 str base m) [
    | none ↦ none
    | some (i, m') ↦
        strrev fuel
          (if negative
            then write (write m' (str + i) b'-') (str + (i + 1)) 0
            else write m' (str + i) 0)
          str
  ]
]
