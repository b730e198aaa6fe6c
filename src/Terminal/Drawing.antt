-- ===== src/Terminal/Drawing.antt =====
-- kernel/src/framebuffer.c. The screen is the 32-bit cell at each index from the framebuffer's
-- address; the font of charset.c is a function of the character and the index into its bitmap.
use j_oe_s.Base.{ℕ, zero, suc, ◌+◌, ◌*◌, ◌/◌, ◌==◌, if◌then◌else◌}

-- Of `struct limine_framebuffer` what the code reads.
pub record Framebuffer : Type 0 where
  pub width : ℕ
  pub height : ℕ
  pub pitch : ℕ
  pub bpp : ℕ

abbrev pub Pixels : Type 0
Pixels = ℕ → ℕ

abbrev pub Charset : Type 0
Charset = ℕ → ℕ → ℕ

abbrev pub character_width : ℕ
character_width = 10

abbrev pub character_height : ℕ
character_height = 10

-- `framebuffer->pitch / (framebuffer->bpp / 8)`
abbrev pub stride : Framebuffer → ℕ
stride f = f.pitch / (f.bpp / 8)

abbrev pub plot : ℕ → ℕ → Pixels → Pixels
plot i color p = λ k. if k == i then color else p k

-- The inner and the outer loop of `framebuffer_clear`, with the rounds that are left.
unfoldable pub clear_row : ℕ → ℕ → ℕ → ℕ → Pixels → Pixels
clear_row zero x start color p = p
clear_row (suc left) x start color p = clear_row left (x + 1) start color (plot (start + x) color p)

unfoldable pub clear_rows : ℕ → ℕ → Framebuffer → ℕ → Pixels → Pixels
clear_rows zero y f color p = p
clear_rows (suc left) y f color p =
    clear_rows left (y + 1) f color (clear_row f.width 0 (y * stride f) color p)

unfoldable pub framebuffer_clear : Framebuffer → ℕ → Pixels → Pixels
framebuffer_clear f color p = clear_rows f.height 0 f color p

-- The loops of `framebuffer_draw_char`: a glyph, a row of its cell from `start` on.
unfoldable pub draw_row : ℕ → ℕ → ℕ → (ℕ → ℕ) → ℕ → ℕ → Pixels → Pixels
draw_row zero x y glyph start color p = p
draw_row (suc left) x y glyph start color p =
    draw_row left (x + 1) y glyph start color
      (if glyph (x / 2 + y / 2 * character_width) == 1 then plot (start + x) color p else p)

unfoldable pub draw_rows : ℕ → ℕ → Framebuffer → (ℕ → ℕ) → ℕ → ℕ → ℕ → Pixels → Pixels
draw_rows zero y f glyph start_x start_y color p = p
draw_rows (suc left) y f glyph start_x start_y color p =
    draw_rows left (y + 1) f glyph start_x start_y color
      (draw_row (character_width * 2) 0 y glyph ((start_y + y) * stride f + start_x) color p)

unfoldable pub framebuffer_draw_char : Charset → Framebuffer → ℕ → ℕ → ℕ → ℕ → Pixels → Pixels
framebuffer_draw_char charset f c start_x start_y color p =
    draw_rows (character_height * 2) 0 f (charset c) start_x start_y color p
