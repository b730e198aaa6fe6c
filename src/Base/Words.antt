-- ===== src/Base/Words.antt =====
-- Machine words as native numbers: `size_t`, `uintptr_t` and `uint64_t` are 64 bits wide.
use Prim.Native.Nat.{ℕ, ◌+◌, ◌-◌, ◌*◌, ◌%◌, ◌^◌}

abbrev pub word64 : ℕ
word64 = 2 ^ 64

abbrev pub u8 : ℕ → ℕ
u8 n = n % 2 ^ 8

abbrev pub u16 : ℕ → ℕ
u16 n = n % 2 ^ 16

abbrev pub u32 : ℕ → ℕ
u32 n = n % 2 ^ 32

-- `a + b`, `a - b` and `a * b` on 64-bit words wrap.
abbrev pub add64 : ℕ → ℕ → ℕ
add64 a b = (a + b) % word64

abbrev pub sub64 : ℕ → ℕ → ℕ
sub64 a b = (a + word64 - b) % word64

abbrev pub mul64 : ℕ → ℕ → ℕ
mul64 a b = a * b % word64

-- `1 << k` as an `int`, for k < 31.
abbrev pub shifted_one : ℕ → ℕ
shifted_one k = 2 ^ k

-- `~x` of an `int`, as its 32-bit pattern.
abbrev pub not32 : ℕ → ℕ
not32 x = 2 ^ 32 - 1 - x
