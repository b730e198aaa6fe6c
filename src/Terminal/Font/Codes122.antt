-- ===== src/Terminal/Font/Codes122.antt =====
-- kernel/src/charset.c: the bitmaps of the character codes 122 to 126.
use j_oe_s.Base.{List, [], ◌∷◌}
use j_oe_s.Terminal.Font.Bitmap.{Glyph}

abbrev pub codes_122 : List Glyph
codes_122 =
    (0b0000000000 ∷ 0b0000000000 ∷ 0b0000000000 ∷ 0b0111110000 ∷ 0b0000100000 ∷ 0b0001000000
      ∷ 0b0010000000 ∷ 0b0111110000 ∷ 0b0000000000 ∷ 0b0000000000 ∷ [])
    ∷ (0b0001100000 ∷ 0b0001000000 ∷ 0b0001000000 ∷ 0b0001000000 ∷ 0b0110000000 ∷ 0b0001000000
        ∷ 0b0001000000 ∷ 0b0001000000 ∷ 0b0001100000 ∷ 0b0000000000 ∷ [])
    ∷ (0b0001000000 ∷ 0b0001000000 ∷ 0b0001000000 ∷ 0b0001000000 ∷ 0b0001000000 ∷ 0b0001000000
        ∷ 0b0001000000 ∷ 0b0001000000 ∷ 0b0001000000 ∷ 0b0001000000 ∷ [])
    ∷ (0b0011000000 ∷ 0b0001000000 ∷ 0b0001000000 ∷ 0b0001000000 ∷ 0b0000110000 ∷ 0b0001000000
        ∷ 0b0001000000 ∷ 0b0001000000 ∷ 0b0011000000 ∷ 0b0000000000 ∷ [])
    ∷ (0b0000000000 ∷ 0b0000000000 ∷ 0b0000000000 ∷ 0b0000000000 ∷ 0b0111000000 ∷ 0b0000110000
        ∷ 0b0000000000 ∷ 0b0000000000 ∷ 0b0000000000 ∷ 0b0000000000 ∷ [])
    ∷ []
