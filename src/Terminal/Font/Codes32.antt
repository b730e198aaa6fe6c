-- ===== src/Terminal/Font/Codes32.antt =====
-- kernel/src/charset.c: the bitmaps of the character codes 32 to 41.
use j_oe_s.Base.{List, [], ◌∷◌}
use j_oe_s.Terminal.Font.Bitmap.{Glyph}

abbrev pub codes_32 : List Glyph
codes_32 =
    (0b0000000000 ∷ 0b0000000000 ∷ 0b0000000000 ∷ 0b0000000000 ∷ 0b0000000000 ∷ 0b0000000000
      ∷ 0b0000000000 ∷ 0b0000000000 ∷ 0b0000000000 ∷ 0b0000000000 ∷ [])
    ∷ (0b0000000000 ∷ 0b0001000000 ∷ 0b0001000000 ∷ 0b0001000000 ∷ 0b0001000000 ∷ 0b0001000000
        ∷ 0b0000000000 ∷ 0b0001000000 ∷ 0b0000000000 ∷ 0b0000000000 ∷ [])
    ∷ (0b0000000000 ∷ 0b0010100000 ∷ 0b0010100000 ∷ 0b0010100000 ∷ 0b0000000000 ∷ 0b0000000000
        ∷ 0b0000000000 ∷ 0b0000000000 ∷ 0b0000000000 ∷ 0b0000000000 ∷ [])
    ∷ (0b0000000000 ∷ 0b0010100000 ∷ 0b0010100000 ∷ 0b0111110000 ∷ 0b0101000000 ∷ 0b1111100000
        ∷ 0b0101000000 ∷ 0b0101000000 ∷ 0b0000000000 ∷ 0b0000000000 ∷ [])
    ∷ (0b0000000000 ∷ 0b0001000000 ∷ 0b0011110000 ∷ 0b0101000000 ∷ 0b0111000000 ∷ 0b0001110000
        ∷ 0b0001010000 ∷ 0b0111100000 ∷ 0b0001000000 ∷ 0b0000000000 ∷ [])
    ∷ (0b0000000000 ∷ 0b1110000000 ∷ 0b1010000000 ∷ 0b1110100000 ∷ 0b0011000000 ∷ 0b0101110000
        ∷ 0b0001010000 ∷ 0b0001110000 ∷ 0b0000000000 ∷ 0b0000000000 ∷ [])
    ∷ (0b0000000000 ∷ 0b0011100000 ∷ 0b0010000000 ∷ 0b0011000000 ∷ 0b0101010000 ∷ 0b0100110000
        ∷ 0b0100100000 ∷ 0b0011010000 ∷ 0b0000000000 ∷ 0b0000000000 ∷ [])
    ∷ (0b0000000000 ∷ 0b0001000000 ∷ 0b0001000000 ∷ 0b0001000000 ∷ 0b0000000000 ∷ 0b0000000000
        ∷ 0b0000000000 ∷ 0b0000000000 ∷ 0b0000000000 ∷ 0b0000000000 ∷ [])
    ∷ (0b0001000000 ∷ 0b0010000000 ∷ 0b0010000000 ∷ 0b0010000000 ∷ 0b0010000000 ∷ 0b0010000000
        ∷ 0b0010000000 ∷ 0b0010000000 ∷ 0b0001000000 ∷ 0b0000000000 ∷ [])
    ∷ (0b0010000000 ∷ 0b0010000000 ∷ 0b0001000000 ∷ 0b0001000000 ∷ 0b0001000000 ∷ 0b0001000000
        ∷ 0b0001000000 ∷ 0b0010000000 ∷ 0b0010000000 ∷ 0b0000000000 ∷ [])
    ∷ []
