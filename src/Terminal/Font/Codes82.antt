-- ===== src/Terminal/Font/Codes82.antt =====
-- kernel/src/charset.c: the bitmaps of the character codes 82 to 91.
use j_oe_s.Base.{List, [], ◌∷◌}
use j_oe_s.Terminal.Font.Bitmap.{Glyph}

abbrev pub codes_82 : List Glyph
codes_82 =
    (0b0000000000 ∷ 0b0111100000 ∷ 0b0100010000 ∷ 0b0100010000 ∷ 0b0111100000 ∷ 0b0100110000
      ∷ 0b0100010000 ∷ 0b0100001000 ∷ 0b0000000000 ∷ 0b0000000000 ∷ [])
    ∷ (0b0000000000 ∷ 0b0011100000 ∷ 0b0100010000 ∷ 0b0100000000 ∷ 0b0011100000 ∷ 0b0000010000
        ∷ 0b0100010000 ∷ 0b0011100000 ∷ 0b0000000000 ∷ 0b0000000000 ∷ [])
    ∷ (0b0000000000 ∷ 0b0111110000 ∷ 0b0001000000 ∷ 0b0001000000 ∷ 0b0001000000 ∷ 0b0001000000
        ∷ 0b0001000000 ∷ 0b0001000000 ∷ 0b0000000000 ∷ 0b0000000000 ∷ [])
    ∷ (0b0000000000 ∷ 0b0100010000 ∷ 0b0100010000 ∷ 0b0100010000 ∷ 0b0100010000 ∷ 0b0100010000
        ∷ 0b0100010000 ∷ 0b0011100000 ∷ 0b0000000000 ∷ 0b0000000000 ∷ [])
    ∷ (0b0000000000 ∷ 0b0100010000 ∷ 0b0100010000 ∷ 0b0010100000 ∷ 0b0010100000 ∷ 0b0010100000
        ∷ 0b0001000000 ∷ 0b0001000000 ∷ 0b0000000000 ∷ 0b0000000000 ∷ [])
    ∷ (0b0000000000 ∷ 0b1000010000 ∷ 0b1011010000 ∷ 0b1011010000 ∷ 0b0111100000 ∷ 0b0100100000
        ∷ 0b0100100000 ∷ 0b0100100000 ∷ 0b0000000000 ∷ 0b0000000000 ∷ [])
    ∷ (0b0000000000 ∷ 0b0100010000 ∷ 0b0010100000 ∷ 0b0010100000 ∷ 0b0001000000 ∷ 0b0010100000
        ∷ 0b0010100000 ∷ 0b0100010000 ∷ 0b0000000000 ∷ 0b0000000000 ∷ [])
    ∷ (0b0000000000 ∷ 0b0100010000 ∷ 0b0010100000 ∷ 0b0010100000 ∷ 0b0001000000 ∷ 0b0001000000
        ∷ 0b0001000000 ∷ 0b0001000000 ∷ 0b0000000000 ∷ 0b0000000000 ∷ [])
    ∷ (0b0000000000 ∷ 0b0111110000 ∷ 0b0000100000 ∷ 0b0000100000 ∷ 0b0001000000 ∷ 0b0010000000
        ∷ 0b0010000000 ∷ 0b0111110000 ∷ 0b0000000000 ∷ 0b0000000000 ∷ [])
    ∷ (0b0011000000 ∷ 0b0010000000 ∷ 0b0010000000 ∷ 0b0010000000 ∷ 0b0010000000 ∷ 0b0010000000
        ∷ 0b0010000000 ∷ 0b0010000000 ∷ 0b0011000000 ∷ 0b0000000000 ∷ [])
    ∷ []
