-- ===== src/Terminal/Font/Codes112.antt =====
-- kernel/src/charset.c: the bitmaps of the character codes 112 to 121.
use j_oe_s.Base.{List, [], ◌∷◌}
use j_oe_s.Terminal.Font.Bitmap.{Glyph}

abbrev pub codes_112 : List Glyph
codes_112 =
    (0b0000000000 ∷ 0b0000000000 ∷ 0b0000000000 ∷ 0b0111100000 ∷ 0b0100010000 ∷ 0b0100010000
      ∷ 0b0100010000 ∷ 0b0111100000 ∷ 0b0100000000 ∷ 0b0100000000 ∷ [])
    ∷ (0b0000000000 ∷ 0b0000000000 ∷ 0b0000000000 ∷ 0b0011110000 ∷ 0b0100010000 ∷ 0b0100010000
        ∷ 0b0100010000 ∷ 0b0011110000 ∷ 0b0000010000 ∷ 0b0000010000 ∷ [])
    ∷ (0b0000000000 ∷ 0b0000000000 ∷ 0b0000000000 ∷ 0b0011110000 ∷ 0b0010010000 ∷ 0b0010000000
        ∷ 0b0010000000 ∷ 0b0010000000 ∷ 0b0000000000 ∷ 0b0000000000 ∷ [])
    ∷ (0b0000000000 ∷ 0b0000000000 ∷ 0b0000000000 ∷ 0b0011110000 ∷ 0b0100000000 ∷ 0b0011110000
        ∷ 0b0000010000 ∷ 0b0111100000 ∷ 0b0000000000 ∷ 0b0000000000 ∷ [])
    ∷ (0b0000000000 ∷ 0b0010000000 ∷ 0b0010000000 ∷ 0b0111100000 ∷ 0b0010000000 ∷ 0b0010000000
        ∷ 0b0010000000 ∷ 0b0011100000 ∷ 0b0000000000 ∷ 0b0000000000 ∷ [])
    ∷ (0b0000000000 ∷ 0b0000000000 ∷ 0b0000000000 ∷ 0b0100010000 ∷ 0b0100010000 ∷ 0b0100010000
        ∷ 0b0100010000 ∷ 0b0011110000 ∷ 0b0000000000 ∷ 0b0000000000 ∷ [])
    ∷ (0b0000000000 ∷ 0b0000000000 ∷ 0b0000000000 ∷ 0b0100010000 ∷ 0b0010100000 ∷ 0b0010100000
        ∷ 0b0010100000 ∷ 0b0001000000 ∷ 0b0000000000 ∷ 0b0000000000 ∷ [])
    ∷ (0b0000000000 ∷ 0b0000000000 ∷ 0b0000000000 ∷ 0b0100010000 ∷ 0b0101010000 ∷ 0b0010100000
        ∷ 0b0010100000 ∷ 0b0010100000 ∷ 0b0000000000 ∷ 0b0000000000 ∷ [])
    ∷ (0b0000000000 ∷ 0b0000000000 ∷ 0b0000000000 ∷ 0b0110110000 ∷ 0b0010100000 ∷ 0b0001000000
        ∷ 0b0010100000 ∷ 0b0110110000 ∷ 0b0000000000 ∷ 0b0000000000 ∷ [])
    ∷ (0b0000000000 ∷ 0b0000000000 ∷ 0b0000000000 ∷ 0b0100010000 ∷ 0b0010100000 ∷ 0b0010100000
        ∷ 0b0001000000 ∷ 0b0001000000 ∷ 0b0001000000 ∷ 0b0110000000 ∷ [])
    ∷ []
