-- ===== src/Terminal/Font/Codes102.antt =====
-- kernel/src/charset.c: the bitmaps of the character codes 102 to 111.
use j_oe_s.Base.{List, [], ◌∷◌}
use j_oe_s.Terminal.Font.Bitmap.{Glyph}

abbrev pub codes_102 : List Glyph
codes_102 =
    (0b0001100000 ∷ 0b0010000000 ∷ 0b0010000000 ∷ 0b0111100000 ∷ 0b0010000000 ∷ 0b0010000000
      ∷ 0b0010000000 ∷ 0b0010000000 ∷ 0b0000000000 ∷ 0b0000000000 ∷ [])
    ∷ (0b0000000000 ∷ 0b0000000000 ∷ 0b0000000000 ∷ 0b0011110000 ∷ 0b0100010000 ∷ 0b0100010000
        ∷ 0b0100010000 ∷ 0b0011110000 ∷ 0b0000010000 ∷ 0b0011100000 ∷ [])
    ∷ (0b0100000000 ∷ 0b0100000000 ∷ 0b0100000000 ∷ 0b0101100000 ∷ 0b0110010000 ∷ 0b0100010000
        ∷ 0b0100010000 ∷ 0b0100010000 ∷ 0b0000000000 ∷ 0b0000000000 ∷ [])
    ∷ (0b0001000000 ∷ 0b0000000000 ∷ 0b0000000000 ∷ 0b0011000000 ∷ 0b0001000000 ∷ 0b0001000000
        ∷ 0b0001000000 ∷ 0b0111110000 ∷ 0b0000000000 ∷ 0b0000000000 ∷ [])
    ∷ (0b0001000000 ∷ 0b0000000000 ∷ 0b0000000000 ∷ 0b0111000000 ∷ 0b0001000000 ∷ 0b0001000000
        ∷ 0b0001000000 ∷ 0b0001000000 ∷ 0b0001000000 ∷ 0b0110000000 ∷ [])
    ∷ (0b0100000000 ∷ 0b0100000000 ∷ 0b0100000000 ∷ 0b0100100000 ∷ 0b0101000000 ∷ 0b0111000000
        ∷ 0b0100100000 ∷ 0b0100010000 ∷ 0b0000000000 ∷ 0b0000000000 ∷ [])
    ∷ (0b1110000000 ∷ 0b0010000000 ∷ 0b0010000000 ∷ 0b0010000000 ∷ 0b0010000000 ∷ 0b0010000000
        ∷ 0b0010000000 ∷ 0b0001100000 ∷ 0b0000000000 ∷ 0b0000000000 ∷ [])
    ∷ (0b0000000000 ∷ 0b0000000000 ∷ 0b0000000000 ∷ 0b0111110000 ∷ 0b0101010000 ∷ 0b0101010000
        ∷ 0b0101010000 ∷ 0b0101010000 ∷ 0b0000000000 ∷ 0b0000000000 ∷ [])
    ∷ (0b0000000000 ∷ 0b0000000000 ∷ 0b0000000000 ∷ 0b0101100000 ∷ 0b0110010000 ∷ 0b0100010000
        ∷ 0b0100010000 ∷ 0b0100010000 ∷ 0b0000000000 ∷ 0b0000000000 ∷ [])
    ∷ (0b0000000000 ∷ 0b0000000000 ∷ 0b0000000000 ∷ 0b0011100000 ∷ 0b0100010000 ∷ 0b0100010000
        ∷ 0b0100010000 ∷ 0b0011100000 ∷ 0b0000000000 ∷ 0b0000000000 ∷ [])
    ∷ []
