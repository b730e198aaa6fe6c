-- ===== src/Terminal/Font/Bitmap.antt =====
-- The bitmap of a character: ten rows, each the binary number of its ten digits in the source.
use j_oe_s.Base.{ℕ, ◌-◌, ◌/◌, ◌%◌, ◌^◌, List, get_or}

abbrev pub Glyph : Type 0
Glyph = List ℕ

-- The digit at a column of a row, and at an index of the flat array of the source.
abbrev pub row_pixel : ℕ → ℕ → ℕ
row_pixel row column = row / 2 ^ (9 - column) % 2

abbrev pub glyph_pixel : Glyph → ℕ → ℕ
glyph_pixel glyph i = row_pixel (get_or glyph (i / 10) 0) (i % 10)
