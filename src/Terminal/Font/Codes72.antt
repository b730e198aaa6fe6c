-- ===== src/Terminal/Font/Codes72.antt =====
-- kernel/src/charset.c: the bitmaps of the character codes 72 to 81.
use j_oe_s.Base.{List, [], ◌∷◌}
use j_oe_s.Terminal.Font.Bitmap.{Glyph}

abbrev pub codes_72 : List Glyph
codes_72 =
    (0b0000000000 ∷ 0b0100010000 ∷ 0b0100010000 ∷ 0b0100010000 ∷ 0b0111110000 ∷ 0b0100010000
      ∷ 0b0100010000 ∷ 0b0100010000 ∷ 0b0000000000 ∷ 0b0000000000 ∷ [])
    ∷ (0b0000000000 ∷ 0b0111110000 ∷ 0b0001000000 ∷ 0b0001000000 ∷ 0b0001000000 ∷ 0b0001000000
        ∷ 0b0001000000 ∷ 0b0111110000 ∷ 0b0000000000 ∷ 0b0000000000 ∷ [])
    ∷ (0b0000000000 ∷ 0b0011100000 ∷ 0b0000100000 ∷ 0b0000100000 ∷ 0b0000100000 ∷ 0b0000100000
        ∷ 0b0100100000 ∷ 0b0011000000 ∷ 0b0000000000 ∷ 0b0000000000 ∷ [])
    ∷ (0b0000000000 ∷ 0b0100010000 ∷ 0b0100100000 ∷ 0b0101000000 ∷ 0b0110000000 ∷ 0b0101000000
        ∷ 0b0100100000 ∷ 0b0100010000 ∷ 0b0000000000 ∷ 0b0000000000 ∷ [])
    ∷ (0b0000000000 ∷ 0b0100000000 ∷ 0b0100000000 ∷ 0b0100000000 ∷ 0b0100000000 ∷ 0b0100000000
        ∷ 0b0100000000 ∷ 0b0111110000 ∷ 0b0000000000 ∷ 0b0000000000 ∷ [])
    ∷ (0b0000000000 ∷ 0b0100010000 ∷ 0b0110110000 ∷ 0b0110110000 ∷ 0b0101010000 ∷ 0b0100010000
        ∷ 0b0100010000 ∷ 0b0100010000 ∷ 0b0000000000 ∷ 0b0000000000 ∷ [])
    ∷ (0b0000000000 ∷ 0b0100010000 ∷ 0b0110010000 ∷ 0b0110010000 ∷ 0b0101010000 ∷ 0b0100110000
        ∷ 0b0100110000 ∷ 0b0100010000 ∷ 0b0000000000 ∷ 0b0000000000 ∷ [])
    ∷ (0b0000000000 ∷ 0b0011100000 ∷ 0b0100010000 ∷ 0b0100010000 ∷ 0b0100010000 ∷ 0b0100010000
        ∷ 0b0100010000 ∷ 0b0011100000 ∷ 0b0000000000 ∷ 0b0000000000 ∷ [])
    ∷ (0b0000000000 ∷ 0b0111100000 ∷ 0b0100010000 ∷ 0b0100010000 ∷ 0b0111100000 ∷ 0b0100000000
        ∷ 0b0100000000 ∷ 0b0100000000 ∷ 0b0000000000 ∷ 0b0000000000 ∷ [])
    ∷ (0b0000000000 ∷ 0b0011100000 ∷ 0b0100010000 ∷ 0b0100010000 ∷ 0b0100010000 ∷ 0b0100010000
        ∷ 0b0100010000 ∷ 0b0011100000 ∷ 0b0000110000 ∷ 0b0000000000 ∷ [])
    ∷ []
