-- ===== src/Drivers/Serial/Line.antt =====
-- What `serial_read_line` leaves in memory.
use j_oe_s.Base.{
  ℕ, zero, suc, ◌+◌, ◌-◌, ◌<◌, ◌≤◌, ◌≡◌, refl, ◌⊎◌, inl, inr, some, ◌==◌, Bool-cases, arith,
}
use j_oe_s.Libc.{Memory, write}
use j_oe_s.Drivers.Port.{Bus, Machine}
use j_oe_s.Drivers.Port.Io.{◌>>=◌}
use j_oe_s.Drivers.Serial.{serial_read_byte, read_loop, serial_read_line}

module _ {D : Type 0} (bus : Bus D) (fuel port : ℕ)
    (answers : (m : Machine D)
      → (v : ℕ) × (m' : Machine D) × (serial_read_byte bus fuel port m ≡ some (v, m'))) where
  -- Where the loop ends: at a newline, or after the last round; it writes nowhere else.
  record Ends (left i dest : ℕ) (memory : Memory) (m : Machine D) : Type 0 where
    memory' : Memory
    at : ℕ
    m' : Machine D
    ends : read_loop bus fuel left i port dest memory m ≡ some ((memory', at), m')
    low : i ≤ at
    high : at ≤ i + left
    stop :
        (memory' (dest + at) ≡ 10) ⊎ ((at ≡ i + left) × (memory' (dest + at) ≡ memory (dest + at)))
    outside : (x : ℕ) → (x < dest + i) ⊎ (dest + at < x) → memory' x ≡ memory x

  read_loop-Ends : (left i dest : ℕ) (memory : Memory) (m : Machine D) → Ends left i dest memory m
  unfolding read_loop
  read_loop-Ends zero i dest memory m = record {
    memory' = memory;
    at = i;
    m' = m;
    ends = refl;
    low = omega arith;
    high = omega arith;
    stop = inr (omega arith, refl);
    outside = λ x out. refl;
  }
  read_loop-Ends (suc left) i dest memory m =
      let (v, m', e) = answers m in
      elim (Bool-cases (v == 10)) [
        | inl newline ↦ record {
          memory' = write memory (dest + i) v;
          at = i;
          m' = m';
          ends = rw (e, newline, read_loop) refl;
          low = omega arith;
          high = omega arith;
          stop = inl (ground arith);
          outside = λ x out. ground arith;
        }
        | inr other ↦
            let r = read_loop-Ends left (i + 1) dest (write memory (dest + i) v) m' in
            record {
              memory' = r.memory';
              at = r.at;
              m' = r.m';
              ends = rw (e, other, read_loop) r.ends;
              low = omega (arith, r.low);
              high = omega (arith, r.high);
              stop = ground (arith, r.stop, r.low, r.high);
              outside = λ x out. ground (arith, r.outside x, r.low);
            }
      ]

  -- From a device that answers every read, and into a buffer of at least two bytes,
  -- `serial_read_line` returns: it has written a NUL at some index from 2 to the buffer's size, and
  -- nothing before the buffer or after that index; before the NUL stands either a newline, or, where
  -- the index is the size itself, the byte that was there before the call.
  pub serial_read_line_lem :
      (dest size : ℕ) (memory : Memory) (m : Machine D)
      → 2 ≤ size
      → (memory' : Memory) × (m' : Machine D) × (n : ℕ) × (serial_read_line bus fuel port dest size
            memory m
          ≡ some (memory', m'))
        × (2 ≤ n)
        × (n ≤ size)
        × (memory' (dest + n) ≡ 0)
        × ((memory' (dest + (n - 1)) ≡ 10)
            ⊎ ((n ≡ size) × (memory' (dest + (n - 1)) ≡ memory (dest + (n - 1)))))
        × ((x : ℕ) → (x < dest) ⊎ (dest + n < x) → memory' x ≡ memory x)
  unfolding serial_read_line ◌>>=◌
  serial_read_line_lem dest size memory m big =
      let (v, m1, e) = answers m in
      let r = read_loop-Ends (size - 2) 1 dest (write memory dest v) m1 in
      (
        write r.memory' (dest + (r.at + 1)) 0,
        r.m',
        r.at + 1,
        rw (e, ◌>>=◌) (rw (r.ends, ◌>>=◌) refl),
        omega (arith, r.low),
        omega (arith, r.high),
        ground arith,
        ground (arith, r.low, r.high, r.stop),
        λ x out. ground (arith, r.outside x, r.low),
      )
