-- ===== src/Cpu/Gdt.antt =====
-- kernel/src/cpu/gdt.c and kernel/include/cpu/gdt.h: the segment descriptors. The instructions that
-- load the table are not modelled; the operand of LGDT is a value.
use j_oe_s.Base.{
  ℕ, ◌+◌, ◌-◌, ◌*◌, ◌/◌, ◌%◌, ◌^◌, ◌<◌, ◌≡◌, refl, Bool, true, List, [], ◌∷◌, bit_and, bit_or, u8,
  u16, ◌==◌, arith,
}
use j_oe_s.Base.Bits.{all_below, all_below_sound}

pub record SegmentDescriptor : Type 0 where
  pub limit_low : ℕ
  pub base_low : ℕ
  pub base_mid : ℕ
  pub access : ℕ
  pub limit_high_flags : ℕ
  pub base_high : ℕ

-- `gdt_create_segment_descriptor`: `& 0xFFFF` and `& 0xFF` are the conversions to the field's width.
unfoldable pub create_segment_descriptor : ℕ → ℕ → ℕ → ℕ → SegmentDescriptor
create_segment_descriptor base limit access flags = record {
  limit_low = u16 limit;
  base_low = u16 base;
  base_mid = u8 (base / 2 ^ 16);
  access = access;
  limit_high_flags = bit_or (bit_and (limit / 2 ^ 16) 0x0f) (bit_and flags 0xf * 2 ^ 4);
  base_high = u8 (base / 2 ^ 24);
}

abbrev pub gdt_num_entries : ℕ
gdt_num_entries = 5

-- `gdt_init`
unfoldable pub gdt_init : List SegmentDescriptor
gdt_init =
    create_segment_descriptor 0x0 0x0 0x0 0x0
    ∷ create_segment_descriptor 0x0 0xfffff 0x9a 0xa
    ∷ create_segment_descriptor 0x0 0xfffff 0x92 0xc
    ∷ create_segment_descriptor 0x0 0xfffff 0xfa 0xa
    ∷ create_segment_descriptor 0x0 0xfffff 0xf2 0xc
    ∷ []

pub record TablePointer : Type 0 where
  pub limit : ℕ
  pub base : ℕ

-- The operand of LGDT in `gdt_install`; `sizeof(struct gdt_descriptor)` is 8.
unfoldable pub gdt_pointer : ℕ → TablePointer
gdt_pointer target = record { limit = u16 (8 * gdt_num_entries - 1); base = target }

-- What the processor reads back from a descriptor.
unfoldable pub base_of : SegmentDescriptor → ℕ
base_of d = d.base_low + d.base_mid * 2 ^ 16 + d.base_high * 2 ^ 24

unfoldable pub limit_of : SegmentDescriptor → ℕ
limit_of d = d.limit_low + d.limit_high_flags % 16 * 2 ^ 16

unfoldable pub flags_of : SegmentDescriptor → ℕ
flags_of d = d.limit_high_flags / 16

-- The two halves of a byte do not overlap.
abbrev nibbles_law : ℕ → ℕ → Bool
nibbles_law a b = bit_or (bit_and a 0x0f) (bit_and b 0xf * 2 ^ 4) == a + b * 16

nibbles_table : all_below 16 (λ a. all_below 16 (nibbles_law a)) ≡ true
unfolding all_below
nibbles_table = refl

nibbles : (a b : ℕ) → a < 16 → b < 16 → bit_or (bit_and a 0x0f) (bit_and b 0xf * 2 ^ 4) ≡ a + b * 16
nibbles a b ha hb = ground (
  arith,
  all_below_sound 16 (nibbles_law a) b
      (all_below_sound 16 (λ a. all_below 16 (nibbles_law a)) a nibbles_table ha) hb,
)

-- A segment's 32-bit base, 20-bit limit, access byte and four flags are read back from the
-- descriptor that `gdt_create_segment_descriptor` makes of them.
pub create_segment_descriptor_lem :
    (base limit access flags : ℕ)
    → base < 2 ^ 32
    → limit < 2 ^ 20
    → flags < 2 ^ 4
    → (base_of (create_segment_descriptor base limit access flags) ≡ base)
      × (limit_of (create_segment_descriptor base limit access flags) ≡ limit)
      × (flags_of (create_segment_descriptor base limit access flags) ≡ flags)
      × ((create_segment_descriptor base limit access flags).access ≡ access)
unfolding create_segment_descriptor base_of limit_of flags_of
create_segment_descriptor_lem base limit access flags hb hl hf =
    let e = nibbles (limit / 2 ^ 16) flags (omega arith) hf in
    (omega arith, omega (arith, e), omega (arith, e), refl)
