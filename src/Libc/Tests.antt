-- ===== src/Libc/Tests.antt =====
-- The theorems on libc/string at concrete addresses.
use j_oe_s.Base.{ℕ, ◌+◌, ◌-◌, ◌≡◌, some, if◌then◌else◌, ◌==◌, arith}
use j_oe_s.Libc.{Memory, memmove, utoa}
use j_oe_s.Libc.Copy.{within, memmove_lem}
use j_oe_s.Libc.Numbers.{Prints, parse-utoa}

-- The byte at an address is the address, but for a NUL at 104.
abbrev bytes : Memory
bytes a = if a == 104 then 0 else a

memmove_example :
    memmove bytes 108 100 16 120
    ≡ (if within 108 16 120 then bytes (100 + (120 - 108)) else bytes 120)
memmove_example = memmove_lem bytes 108 100 16 120

utoa_example :
    (k : ℕ) × (m' : Memory) × (utoa 66 bytes 48879 200 16 ≡ some m')
    × Prints bytes m' 48879 200 16 k
utoa_example = parse-utoa bytes 48879 200 16 (omega arith) (omega arith) (omega arith) (omega arith)
