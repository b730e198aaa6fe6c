-- ===== src/Memory/Region/Init.antt =====
-- What `pmm_region_init` sets up, and what the bounds test of the marks lets through.
use j_oe_s.Base.{
  ℕ, zero, suc, ◌+◌, ◌*◌, ◌/◌, ◌%◌, ◌<◌, ◌≡◌, ◌⊎◌, inl, inr, true, false, none, not, replicate,
  length-replicate, get_elem?-replicate, lt_of_get_elem?, get_elem?_of_ge, refl, ◌∙◌, ltb, ltb→lt,
  ltb→le, arith, word64, Bool-cases,
}
use j_oe_s.Base.Bits.{bit_at, zeros, zeros_full, bit_at_full, bit_at_zero, zeros_zero}
use j_oe_s.Memory.Region.{
  Region, MemoryType, is_usable, mark_page_used, mark_page_free, region_init,
}
use j_oe_s.Memory.Region.Bitmap.{page_bit, IsBytes, count_free, page_bit_behind, page_bit_of_some}
use j_oe_s.Memory.Region.Marks.{IsValid}

count_free-replicate : (n byte : ℕ) → count_free (replicate n byte) ≡ n * zeros byte
unfolding count_free
count_free-replicate zero byte = omega arith
count_free-replicate (suc n) byte = grind (arith, count_free-replicate n byte)

IsBytes-replicate : (n : ℕ) {byte : ℕ} → byte < 256 → IsBytes (replicate n byte)
IsBytes-replicate n {byte} lt i b e = ground (
  arith,
  get_elem?-replicate n i byte,
  lt_of_get_elem? (replicate n byte) i b e,
  length-replicate n byte,
)

page_bit-replicate :
    (n q byte : ℕ) → q / 8 < n → page_bit (replicate n byte) q ≡ bit_at byte (q % 8)
page_bit-replicate n q byte h =
    page_bit_of_some (replicate n byte) q byte (get_elem?-replicate n (q / 8) byte h)

page_bit-replicate_full : (n q : ℕ) → page_bit (replicate n 255) q ≡ true
page_bit-replicate_full n q = elim (Bool-cases (ltb (q / 8) n)) [
  | inl inside ↦
      page_bit-replicate n q 255 (ltb→lt _ _ inside) ∙ bit_at_full 255 (q % 8) refl (omega arith)
  | inr behind ↦
      page_bit_behind (replicate n 255) q
        (omega (arith, ltb→le _ _ behind, length-replicate {A = ℕ} n 255))
]

-- A region that ends below 2^64 is set up valid, with all of its pages free if its memory is
-- usable and none otherwise. The length of a usable region is a multiple of eight pages.
pub region_init-IsValid :
    (base len : ℕ) (t : MemoryType)
    → base + len < word64
    → (is_usable t ≡ false) ⊎ (len % 32768 ≡ 0)
    → IsValid (region_init base len t)
      × ((n : ℕ) → n < len / 4096 → page_bit (region_init base len t).bitmap n ≡ not (is_usable t))
unfolding region_init
region_init-IsValid base len t reach shape = (
  record {
    sized = length-replicate _ _;
    size = refl;
    bytes = IsBytes-replicate ((len / 4096 + 7) / 8) (ground arith);
    counted = ground (
      arith,
      count_free-replicate ((len / 4096 + 7) / 8) 0,
      zeros_zero,
      count_free-replicate ((len / 4096 + 7) / 8) 255,
      zeros_full,
    );
    reach = reach;
    behind = λ n h. ground (
      arith,
      page_bit-replicate_full ((len / 4096 + 7) / 8) n,
      page_bit_behind (replicate ((len / 4096 + 7) / 8) 0) n,
      length-replicate {A = ℕ} ((len / 4096 + 7) / 8) 0,
    );
  },
  λ n h. ground (
    arith,
    page_bit-replicate ((len / 4096 + 7) / 8) n 0,
    page_bit-replicate_full ((len / 4096 + 7) / 8) n,
    bit_at_zero (n % 8),
  ),
)

-- The bounds test lets the first address behind a valid region through: where the bitmap has no
-- spare bits, both marks then access a byte behind the bitmap.
pub marks_at_end_fault :
    (r : Region)
    → IsValid r
    → r.region_length ≡ r.bitmap_size * 32768
    → (mark_page_used r (r.base + r.region_length) ≡ none)
      × (mark_page_free r (r.base + r.region_length) ≡ none)
unfolding mark_page_used mark_page_free
marks_at_end_fault r valid whole =
    ground (arith, valid.reach, valid.sized, get_elem?_of_ge r.bitmap r.bitmap_size)
