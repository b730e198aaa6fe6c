-- ===== src/Terminal/Font/Codes62.antt =====
-- kernel/src/charset.c: the bitmaps of the character codes 62 to 71.
use j_oe_s.Base.{List, [], ◌∷◌}
use j_oe_s.Terminal.Font.Bitmap.{Glyph}

abbrev pub codes_62 : List Glyph
codes_62 =
    (0b0000000000 ∷ 0b0000000000 ∷ 0b0100000000 ∷ 0b0011100000 ∷ 0b0000010000 ∷ 0b0011100000
      ∷ 0b0100000000 ∷ 0b0000000000 ∷ 0b0000000000 ∷ 0b0000000000 ∷ [])
    ∷ (0b0000000000 ∷ 0b0111100000 ∷ 0b0000100000 ∷ 0b0001000000 ∷ 0b0010000000 ∷ 0b0010000000
        ∷ 0b0000000000 ∷ 0b0010000000 ∷ 0b0000000000 ∷ 0b0000000000 ∷ [])
    ∷ (0b0000000000 ∷ 0b0011100000 ∷ 0b0010010000 ∷ 0b0101110000 ∷ 0b0101010000 ∷ 0b0101010000
        ∷ 0b0101010000 ∷ 0b0101110000 ∷ 0b0010000000 ∷ 0b0001100000 ∷ [])
    ∷ (0b0000000000 ∷ 0b0001000000 ∷ 0b0001000000 ∷ 0b0010100000 ∷ 0b0010100000 ∷ 0b0011100000
        ∷ 0b0100010000 ∷ 0b0100010000 ∷ 0b0000000000 ∷ 0b0000000000 ∷ [])
    ∷ (0b0000000000 ∷ 0b0111100000 ∷ 0b0100010000 ∷ 0b0100010000 ∷ 0b0111100000 ∷ 0b0100010000
        ∷ 0b0100010000 ∷ 0b0111100000 ∷ 0b0000000000 ∷ 0b0000000000 ∷ [])
    ∷ (0b0000000000 ∷ 0b0011110000 ∷ 0b0110010000 ∷ 0b0100000000 ∷ 0b0100000000 ∷ 0b0100000000
        ∷ 0b0110010000 ∷ 0b0011110000 ∷ 0b0000000000 ∷ 0b0000000000 ∷ [])
    ∷ (0b0000000000 ∷ 0b0111100000 ∷ 0b0100110000 ∷ 0b0100010000 ∷ 0b0100010000 ∷ 0b0100010000
        ∷ 0b0100110000 ∷ 0b0111100000 ∷ 0b0000000000 ∷ 0b0000000000 ∷ [])
    ∷ (0b0000000000 ∷ 0b0111110000 ∷ 0b0100000000 ∷ 0b0100000000 ∷ 0b0111110000 ∷ 0b0100000000
        ∷ 0b0100000000 ∷ 0b0111110000 ∷ 0b0000000000 ∷ 0b0000000000 ∷ [])
    ∷ (0b0000000000 ∷ 0b0111110000 ∷ 0b0100000000 ∷ 0b0100000000 ∷ 0b0111110000 ∷ 0b0100000000
        ∷ 0b0100000000 ∷ 0b0100000000 ∷ 0b0000000000 ∷ 0b0000000000 ∷ [])
    ∷ (0b0000000000 ∷ 0b0011100000 ∷ 0b0110010000 ∷ 0b0100000000 ∷ 0b0100110000 ∷ 0b0100010000
        ∷ 0b0110010000 ∷ 0b0011110000 ∷ 0b0000000000 ∷ 0b0000000000 ∷ [])
    ∷ []
