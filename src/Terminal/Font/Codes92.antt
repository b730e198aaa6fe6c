-- ===== src/Terminal/Font/Codes92.antt =====
-- kernel/src/charset.c: the bitmaps of the character codes 92 to 101.
use j_oe_s.Base.{List, [], ◌∷◌}
use j_oe_s.Terminal.Font.Bitmap.{Glyph}

abbrev pub codes_92 : List Glyph
codes_92 =
    (0b0000000000 ∷ 0b0100000000 ∷ 0b0010000000 ∷ 0b0010000000 ∷ 0b0001000000 ∷ 0b0001000000
      ∷ 0b0000100000 ∷ 0b0000100000 ∷ 0b0000010000 ∷ 0b0000000000 ∷ [])
    ∷ (0b0011000000 ∷ 0b0001000000 ∷ 0b0001000000 ∷ 0b0001000000 ∷ 0b0001000000 ∷ 0b0001000000
        ∷ 0b0001000000 ∷ 0b0001000000 ∷ 0b0011000000 ∷ 0b0000000000 ∷ [])
    ∷ (0b0000000000 ∷ 0b0010000000 ∷ 0b0101000000 ∷ 0b1000100000 ∷ 0b0000000000 ∷ 0b0000000000
        ∷ 0b0000000000 ∷ 0b0000000000 ∷ 0b0000000000 ∷ 0b0000000000 ∷ [])
    ∷ (0b0000000000 ∷ 0b0000000000 ∷ 0b0000000000 ∷ 0b0000000000 ∷ 0b0000000000 ∷ 0b0000000000
        ∷ 0b0000000000 ∷ 0b0000000000 ∷ 0b0000000000 ∷ 0b1111110000 ∷ [])
    ∷ (0b0100000000 ∷ 0b0010000000 ∷ 0b0000000000 ∷ 0b0000000000 ∷ 0b0000000000 ∷ 0b0000000000
        ∷ 0b0000000000 ∷ 0b0000000000 ∷ 0b0000000000 ∷ 0b0000000000 ∷ [])
    ∷ (0b0000000000 ∷ 0b0000000000 ∷ 0b0000000000 ∷ 0b0111100000 ∷ 0b0000010000 ∷ 0b0011110000
        ∷ 0b0100010000 ∷ 0b0111110000 ∷ 0b0000000000 ∷ 0b0000000000 ∷ [])
    ∷ (0b0100000000 ∷ 0b0100000000 ∷ 0b0100000000 ∷ 0b0111100000 ∷ 0b0100010000 ∷ 0b0100010000
        ∷ 0b0100010000 ∷ 0b0111100000 ∷ 0b0000000000 ∷ 0b0000000000 ∷ [])
    ∷ (0b0000000000 ∷ 0b0000000000 ∷ 0b0000000000 ∷ 0b0011100000 ∷ 0b0100000000 ∷ 0b0100000000
        ∷ 0b0100000000 ∷ 0b0011100000 ∷ 0b0000000000 ∷ 0b0000000000 ∷ [])
    ∷ (0b0000010000 ∷ 0b0000010000 ∷ 0b0000010000 ∷ 0b0011110000 ∷ 0b0100010000 ∷ 0b0100010000
        ∷ 0b0100010000 ∷ 0b0011110000 ∷ 0b0000000000 ∷ 0b0000000000 ∷ [])
    ∷ (0b0000000000 ∷ 0b0000000000 ∷ 0b0000000000 ∷ 0b0011100000 ∷ 0b0100010000 ∷ 0b0111110000
        ∷ 0b0100000000 ∷ 0b0011110000 ∷ 0b0000000000 ∷ 0b0000000000 ∷ [])
    ∷ []
