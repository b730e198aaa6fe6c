-- ===== src/Keyboard/Modifiers/Flags.antt =====
-- The modifier flags as nine truth values.
use j_oe_s.Base.{
  ℕ, ◌^◌, ◌<◌, ◌≡◌, Bool, true, false, not, ◌&&◌, bit_and, bit_or, bit_xor, ltb, ◌==◌,
  if◌then◌else◌, u16, not32, refl, arith,
}
use j_oe_s.Base.Bits.{all_below, all_below_sound, bit_at, same, same_sound}

-- Flag `k` stands at bit `k`.
abbrev or_law : ℕ → ℕ → ℕ → Bool
or_law m k l = same (bit_at (u16 (bit_or m (2 ^ k))) l) (if k == l then true else bit_at m l)

abbrev and_law : ℕ → ℕ → ℕ → Bool
and_law m k l =
    same (bit_at (u16 (bit_and m (not32 (2 ^ k)))) l) (if k == l then false else bit_at m l)

abbrev xor_law : ℕ → ℕ → ℕ → Bool
xor_law m k l =
    same (bit_at (u16 (bit_xor m (2 ^ k))) l) (if k == l then not (bit_at m l) else bit_at m l)

over_flags : (ℕ → ℕ → ℕ → Bool) → Bool
unfolding all_below
over_flags p = all_below 512 (λ m. all_below 9 (λ k. all_below 9 (p m k)))

or_table : over_flags or_law ≡ true
unfolding over_flags
or_table = refl

and_table : over_flags and_law ≡ true
unfolding over_flags
and_table = refl

xor_table : over_flags xor_law ≡ true
unfolding over_flags
xor_table = refl

over_flags_sound :
    (p : ℕ → ℕ → ℕ → Bool) (m k l : ℕ)
    → over_flags p ≡ true
    → m < 512
    → k < 9
    → l < 9
    → p m k l ≡ true
unfolding over_flags
over_flags_sound p m k l h hm hk hl =
    all_below_sound 9 (p m k) l
      (all_below_sound 9 (λ k. all_below 9 (p m k)) k
        (all_below_sound 512 (λ m. all_below 9 (λ k. all_below 9 (p m k))) m h hm) hk)
      hl

abbrev small_law : ℕ → ℕ → ℕ → Bool
small_law m k l =
    ltb (u16 (bit_or m (2 ^ k))) 512
    && ltb (u16 (bit_xor m (2 ^ k))) 512
    && ltb (u16 (bit_and m (not32 (2 ^ k)))) 512

small_table : over_flags small_law ≡ true
unfolding over_flags
small_table = refl

abbrev keep_law : ℕ → Bool
keep_law m = u16 (bit_and m (not32 0)) == m

keep_table : all_below 512 keep_law ≡ true
unfolding all_below
keep_table = refl

module _ (m k : ℕ) (small : m < 512) (flag : k < 9) where
  pub bit_at-or :
      (l : ℕ) → l < 9 → bit_at (u16 (bit_or m (2 ^ k))) l ≡ (if k == l then true else bit_at m l)
  bit_at-or l h = same_sound _ _ (over_flags_sound or_law m k l or_table small flag h)

  pub bit_at-and :
      (l : ℕ)
      → l < 9
      → bit_at (u16 (bit_and m (not32 (2 ^ k)))) l ≡ (if k == l then false else bit_at m l)
  bit_at-and l h = same_sound _ _ (over_flags_sound and_law m k l and_table small flag h)

  pub bit_at-xor :
      (l : ℕ)
      → l < 9
      → bit_at (u16 (bit_xor m (2 ^ k))) l ≡ (if k == l then not (bit_at m l) else bit_at m l)
  bit_at-xor l h = same_sound _ _ (over_flags_sound xor_law m k l xor_table small flag h)

  pub flags-lt :
      (u16 (bit_or m (2 ^ k)) < 512)
      × (u16 (bit_xor m (2 ^ k)) < 512)
      × (u16 (bit_and m (not32 (2 ^ k))) < 512)
  flags-lt =
      let law = over_flags_sound small_law m k 0 small_table small flag (omega arith) in
      (ground (arith, law), ground (arith, law), ground (arith, law))

-- Clearing the empty mask changes nothing.
pub and_none : (m : ℕ) → m < 512 → u16 (bit_and m (not32 0)) ≡ m
and_none m small = ground (arith, all_below_sound 512 keep_law m keep_table small)
