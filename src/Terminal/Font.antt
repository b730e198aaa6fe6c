-- ===== src/Terminal/Font.antt =====
-- kernel/src/charset.c and kernel/include/charset.h: the font.
pub mod Bitmap
mod Codes32
mod Codes42
mod Codes52
mod Codes62
mod Codes72
mod Codes82
mod Codes92
mod Codes102
mod Codes112
mod Codes122
use j_oe_s.Base.{
  ℕ, zero, suc, ◌+◌, ◌-◌, ◌*◌, ◌/◌, ◌%◌, ◌^◌, ◌<◌, ◌≤◌, ◌≡◌, refl, Bool, true, false, ◌&&◌, List,
  [], ◌∷◌, ◌++◌, ◌==◌, get_or, ltb, ltb→lt, ltb→le, Bool-cases, ◌⊎◌, inl, inr, arith,
}
use j_oe_s.Terminal.Font.Bitmap.{Glyph, row_pixel, glyph_pixel}
use j_oe_s.Terminal.Font.Codes32.{codes_32}
use j_oe_s.Terminal.Font.Codes42.{codes_42}
use j_oe_s.Terminal.Font.Codes52.{codes_52}
use j_oe_s.Terminal.Font.Codes62.{codes_62}
use j_oe_s.Terminal.Font.Codes72.{codes_72}
use j_oe_s.Terminal.Font.Codes82.{codes_82}
use j_oe_s.Terminal.Font.Codes92.{codes_92}
use j_oe_s.Terminal.Font.Codes102.{codes_102}
use j_oe_s.Terminal.Font.Codes112.{codes_112}
use j_oe_s.Terminal.Font.Codes122.{codes_122}
use j_oe_s.Terminal.Drawing.{Charset}
use j_oe_s.Terminal.Bounds.{Boxed}

-- The table, from the code 32 on.
unfoldable pub glyphs : List Glyph
glyphs =
    codes_32 ++ codes_42 ++ codes_52 ++ codes_62 ++ codes_72 ++ codes_82 ++ codes_92 ++ codes_102
    ++ codes_112 ++ codes_122

-- `CHARSET(c)[i]`, 0 outside the table.
unfoldable pub charset : Charset
charset c i = glyph_pixel (get_or glyphs (c - 32) []) i

-- The three last columns are empty.
abbrev narrow : Glyph → Bool
narrow [] = true
narrow (row ∷ rest) = row % 8 == 0 && narrow rest

abbrev all_narrow : List Glyph → Bool
all_narrow [] = true
all_narrow (g ∷ rest) = narrow g && all_narrow rest

glyphs-narrow : all_narrow glyphs ≡ true
unfolding glyphs
glyphs-narrow = refl

row-narrow : (g : Glyph) (i : ℕ) → narrow g ≡ true → get_or g i 0 % 8 ≡ 0
row-narrow [] i h = refl
row-narrow (row ∷ rest) zero h = ground arith
row-narrow (row ∷ rest) (suc i) h = row-narrow rest i (ground arith)

glyph-narrow : (l : List Glyph) (k i : ℕ) → all_narrow l ≡ true → get_or (get_or l k []) i 0 % 8 ≡ 0
glyph-narrow [] k i h = refl
glyph-narrow (g ∷ rest) zero i h = row-narrow g i (ground arith)
glyph-narrow (g ∷ rest) (suc k) i h = glyph-narrow rest k i (ground arith)

-- A row's columns from 7 on.
late_columns : (row column : ℕ) → row % 8 ≡ 0 → 7 ≤ column → column < 10 → row_pixel row column ≡ 0
late_columns row column h low high = elim (three column low high) [
  | inl e ↦ rw e (omega arith)
  | inr (inl e) ↦ rw e (omega arith)
  | inr (inr e) ↦ rw e (omega arith)
]
  where
    three : (column : ℕ) → 7 ≤ column → column < 10 → (column ≡ 7) ⊎ ((column ≡ 8) ⊎ (column ≡ 9))
    three column low high = ground arith

-- The font's characters stay in a box of 14 by 20 pixels.
pub charset-Boxed : Boxed charset 14 20
unfolding charset
charset-Boxed c x y hx hy e = elim (Bool-cases (ltb x 14)) [
  | inl inside ↦ (ltb→lt x 14 inside, hy)
  | inr out ↦
      let i = x / 2 + y / 2 * 10 in
      let far = ltb→le x 14 out in
      let blank : glyph_pixel (get_or glyphs (c - 32) []) i ≡ 0 =
        late_columns (get_or (get_or glyphs (c - 32) []) (i / 10) 0) (i % 10)
          (glyph-narrow glyphs (c - 32) (i / 10) glyphs-narrow) (omega arith) (omega arith) in
      absurd (omega (arith, blank, e))
]
