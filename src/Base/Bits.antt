-- ===== src/Base/Bits.antt =====
-- The bits of a byte, by evaluation over all bytes.
use j_oe_s.Base.Tests.{◌==◌, if◌then◌else◌}
use j_oe_s.Base.Words.{u8, shifted_one, not32}
use Prim.Native.Nat.{ℕ, zero, suc, ◌+◌, ◌<◌, ◌≤◌, bit_and, bit_or}
use mathlib.Core.Path.{◌≡◌, refl}
use mathlib.Core.Logic.{◌≢◌}
use mathlib.Core.Bool.{Bool, true, false, ◌&&◌}
use native.Mathlib.Omega.{arith}

-- The law holds at every number under `bound`.
unfoldable pub all_below : ℕ → (ℕ → Bool) → Bool
all_below zero law = true
all_below (suc bound) law = law bound && all_below bound law

pub all_below_sound :
    (bound : ℕ) (law : ℕ → Bool) (m : ℕ) → all_below bound law ≡ true → m < bound → law m ≡ true
unfolding all_below
all_below_sound (suc bound) law m checked lt = ground (arith, all_below_sound bound law m)
all_below_sound zero law m checked lt = absurd (omega arith)

-- `(b & (1 << k)) != 0`
abbrev pub bit_at : ℕ → ℕ → Bool
bit_at b k = if bit_and b (shifted_one k) == 0 then false else true

-- `(uint8_t)(b | (1 << k))` and `(uint8_t)(b & ~(1 << k))`
unfoldable pub set_bit : ℕ → ℕ → ℕ
set_bit b k = u8 (bit_or b (shifted_one k))

unfoldable pub clear_bit : ℕ → ℕ → ℕ
clear_bit b k = u8 (bit_and b (not32 (shifted_one k)))

abbrev pub same : Bool → Bool → Bool
same true b = b
same false true = false
same false false = true

pub same_sound : (a b : Bool) → same a b ≡ true → a ≡ b
same_sound a b h = ground arith

-- A check of all bytes and two bit numbers.
over_bits : (ℕ → ℕ → ℕ → Bool) → Bool
unfolding all_below
over_bits p = all_below 256 (λ b. all_below 8 (λ k. all_below 8 (p b k)))

over_bits_sound :
    (p : ℕ → ℕ → ℕ → Bool) (b k l : ℕ)
    → over_bits p ≡ true
    → b < 256
    → k < 8
    → l < 8
    → p b k l ≡ true
unfolding over_bits
over_bits_sound p b k l h hb hk hl =
    all_below_sound 8 (p b k) l
      (all_below_sound 8 (λ k. all_below 8 (p b k)) k
        (all_below_sound 256 (λ b. all_below 8 (λ k. all_below 8 (p b k))) b h hb) hk)
      hl

abbrev set_law : ℕ → ℕ → ℕ → Bool
set_law b k l = same (bit_at (set_bit b k) l) (if k == l then true else bit_at b l)

abbrev clear_law : ℕ → ℕ → ℕ → Bool
clear_law b k l = same (bit_at (clear_bit b k) l) (if k == l then false else bit_at b l)

set_table : over_bits set_law ≡ true
unfolding over_bits set_bit
set_table = refl

clear_table : over_bits clear_law ≡ true
unfolding over_bits clear_bit
clear_table = refl

-- Setting or clearing one bit changes no other.
pub bit_at-set_bit :
    (b k l : ℕ)
    → b < 256
    → k < 8
    → l < 8
    → bit_at (set_bit b k) l ≡ (if k == l then true else bit_at b l)
bit_at-set_bit b k l hb hk hl = same_sound _ _ (over_bits_sound set_law b k l set_table hb hk hl)

pub bit_at-clear_bit :
    (b k l : ℕ)
    → b < 256
    → k < 8
    → l < 8
    → bit_at (clear_bit b k) l ≡ (if k == l then false else bit_at b l)
bit_at-clear_bit b k l hb hk hl =
    same_sound _ _ (over_bits_sound clear_law b k l clear_table hb hk hl)

pub set_bit-lt : (b k : ℕ) → set_bit b k < 256
unfolding set_bit
set_bit-lt b k = omega arith

pub clear_bit-lt : (b k : ℕ) → clear_bit b k < 256
unfolding clear_bit
clear_bit-lt b k = omega arith

-- How many of the eight bits are clear.
zeros_from : ℕ → ℕ → ℕ → ℕ
zeros_from zero k b = 0
zeros_from (suc left) k b = (if bit_at b k then 0 else 1) + zeros_from left (k + 1) b

pub zeros : ℕ → ℕ
unfolding zeros_from
zeros b = zeros_from 8 0 b

zeros_from-le : (left k b : ℕ) → zeros_from left k b ≤ left
unfolding zeros_from
zeros_from-le zero k b = omega arith
zeros_from-le (suc left) k b = ground (arith, zeros_from-le left (k + 1) b)

pub zeros-le : (b : ℕ) → zeros b ≤ 8
unfolding zeros
zeros-le b = zeros_from-le 8 0 b

abbrev set_zeros : ℕ → ℕ → ℕ → Bool
set_zeros b k l = if bit_at b k then true else zeros (set_bit b k) + 1 == zeros b

abbrev clear_zeros : ℕ → ℕ → ℕ → Bool
clear_zeros b k l = if bit_at b k then zeros (clear_bit b k) == zeros b + 1 else true

abbrev clear_set : ℕ → ℕ → ℕ → Bool
clear_set b k l = if bit_at b k then true else clear_bit (set_bit b k) k == b

set_zeros_table : over_bits set_zeros ≡ true
unfolding over_bits set_bit zeros
set_zeros_table = refl

clear_zeros_table : over_bits clear_zeros ≡ true
unfolding over_bits clear_bit zeros
clear_zeros_table = refl

clear_set_table : over_bits clear_set ≡ true
unfolding over_bits clear_bit set_bit
clear_set_table = refl

-- Setting a clear bit leaves one clear bit less, and clearing a set bit one more.
pub zeros-set_bit :
    (b k : ℕ) → b < 256 → k < 8 → bit_at b k ≡ false → zeros (set_bit b k) + 1 ≡ zeros b
zeros-set_bit b k hb hk h =
    ground (arith, over_bits_sound set_zeros b k 0 set_zeros_table hb hk (omega arith))

pub zeros-clear_bit :
    (b k : ℕ) → b < 256 → k < 8 → bit_at b k ≡ true → zeros (clear_bit b k) ≡ zeros b + 1
zeros-clear_bit b k hb hk h =
    ground (arith, over_bits_sound clear_zeros b k 0 clear_zeros_table hb hk (omega arith))

-- Clearing a bit that was set by `set_bit` gives the byte back.
pub clear_bit-set_bit :
    (b k : ℕ) → b < 256 → k < 8 → bit_at b k ≡ false → clear_bit (set_bit b k) k ≡ b
clear_bit-set_bit b k hb hk h =
    ground (arith, over_bits_sound clear_set b k 0 clear_set_table hb hk (omega arith))

abbrev full_law : ℕ → Bool
full_law b = if b == 255 then zeros b == 0 else (if zeros b == 0 then false else true)

full_table : all_below 256 full_law ≡ true
unfolding all_below zeros
full_table = refl

-- Only 0xff has no clear bit.
pub zeros_full : zeros 255 ≡ 0
unfolding zeros
zeros_full = refl

pub zeros_pos : (b : ℕ) → b < 256 → b ≢ 255 → 0 < zeros b
zeros_pos b hb ne = ground (arith, all_below_sound 256 full_law b full_table hb)

bits_full : (k : ℕ) → k < 8 → bit_at 255 k ≡ true
bits_full k h = all_below_sound 8 (bit_at 255) k (unfold all_below in refl) h

pub bit_at_full : (b k : ℕ) → b ≡ 255 → k < 8 → bit_at b k ≡ true
bit_at_full b k e h = rw e (bits_full k h)

bits_zero : (k : ℕ) → k < 8 → same (bit_at 0 k) false ≡ true
bits_zero k h = all_below_sound 8 (λ k. same (bit_at 0 k) false) k (unfold all_below in refl) h

pub bit_at_zero : (k : ℕ) → k < 8 → bit_at 0 k ≡ false
bit_at_zero k h = same_sound _ _ (bits_zero k h)

pub zeros_zero : zeros 0 ≡ 8
unfolding zeros
zeros_zero = refl

abbrev mask_law : ℕ → ℕ → ℕ → Bool
mask_law b k l = bit_and b (shifted_one k) == (if bit_at b k then shifted_one k else 0)

mask_table : over_bits mask_law ≡ true
unfolding over_bits
mask_table = refl

-- Masking a byte by `1 << k` gives that bit, or 0.
pub bit_and-shifted_one :
    (b k : ℕ)
    → b < 256
    → k < 8
    → bit_and b (shifted_one k) ≡ (if bit_at b k then shifted_one k else 0)
bit_and-shifted_one b k hb hk =
    ground (arith, over_bits_sound mask_law b k 0 mask_table hb hk (omega arith))

abbrev clear_twice : ℕ → ℕ → ℕ → Bool
clear_twice b k l = if bit_at b k then true else clear_bit b k == b

clear_twice_table : over_bits clear_twice ≡ true
unfolding over_bits clear_bit
clear_twice_table = refl

-- Clearing a clear bit changes nothing.
pub clear_bit_of_clear : (b k : ℕ) → b < 256 → k < 8 → bit_at b k ≡ false → clear_bit b k ≡ b
clear_bit_of_clear b k hb hk h =
    ground (arith, over_bits_sound clear_twice b k 0 clear_twice_table hb hk (omega arith))
