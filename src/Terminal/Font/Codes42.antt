-- ===== src/Terminal/Font/Codes42.antt =====
-- kernel/src/charset.c: the bitmaps of the character codes 42 to 51.
use j_oe_s.Base.{List, [], ◌∷◌}
use j_oe_s.Terminal.Font.Bitmap.{Glyph}

abbrev pub codes_42 : List Glyph
codes_42 =
    (0b0000000000 ∷ 0b0101010000 ∷ 0b0011100000 ∷ 0b0011100000 ∷ 0b0101010000 ∷ 0b0000000000
      ∷ 0b0000000000 ∷ 0b0000000000 ∷ 0b0000000000 ∷ 0b0000000000 ∷ [])
    ∷ (0b0000000000 ∷ 0b0000000000 ∷ 0b0001000000 ∷ 0b0001000000 ∷ 0b0111110000 ∷ 0b0001000000
        ∷ 0b0001000000 ∷ 0b0000000000 ∷ 0b0000000000 ∷ 0b0000000000 ∷ [])
    ∷ (0b0000000000 ∷ 0b0000000000 ∷ 0b0000000000 ∷ 0b0000000000 ∷ 0b0000000000 ∷ 0b0000000000
        ∷ 0b0000000000 ∷ 0b0010000000 ∷ 0b0010000000 ∷ 0b0010000000 ∷ [])
    ∷ (0b0000000000 ∷ 0b0000000000 ∷ 0b0000000000 ∷ 0b0000000000 ∷ 0b0000000000 ∷ 0b0011100000
        ∷ 0b0000000000 ∷ 0b0000000000 ∷ 0b0000000000 ∷ 0b0000000000 ∷ [])
    ∷ (0b0000000000 ∷ 0b0000000000 ∷ 0b0000000000 ∷ 0b0000000000 ∷ 0b0000000000 ∷ 0b0000000000
        ∷ 0b0000000000 ∷ 0b0010000000 ∷ 0b0000000000 ∷ 0b0000000000 ∷ [])
    ∷ (0b0000000000 ∷ 0b0000010000 ∷ 0b0000100000 ∷ 0b0000100000 ∷ 0b0001000000 ∷ 0b0001000000
        ∷ 0b0010000000 ∷ 0b0010000000 ∷ 0b0100000000 ∷ 0b0000000000 ∷ [])
    ∷ (0b0000000000 ∷ 0b0011100000 ∷ 0b0100010000 ∷ 0b0100010000 ∷ 0b0101010000 ∷ 0b0100010000
        ∷ 0b0100010000 ∷ 0b0011100000 ∷ 0b0000000000 ∷ 0b0000000000 ∷ [])
    ∷ (0b0000000000 ∷ 0b0111000000 ∷ 0b0001000000 ∷ 0b0001000000 ∷ 0b0001000000 ∷ 0b0001000000
        ∷ 0b0001000000 ∷ 0b0111110000 ∷ 0b0000000000 ∷ 0b0000000000 ∷ [])
    ∷ (0b0000000000 ∷ 0b0011100000 ∷ 0b0100010000 ∷ 0b0000010000 ∷ 0b0000110000 ∷ 0b0001100000
        ∷ 0b0010000000 ∷ 0b0111110000 ∷ 0b0000000000 ∷ 0b0000000000 ∷ [])
    ∷ (0b0000000000 ∷ 0b0011100000 ∷ 0b0100010000 ∷ 0b0000010000 ∷ 0b0011100000 ∷ 0b0000010000
        ∷ 0b0100010000 ∷ 0b0011100000 ∷ 0b0000000000 ∷ 0b0000000000 ∷ [])
    ∷ []
