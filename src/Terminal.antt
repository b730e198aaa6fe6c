-- ===== src/Terminal.antt =====
-- kernel/src/terminal.c and kernel/include/terminal.h: the text terminal on the framebuffer.
pub mod Drawing
pub mod Cursor
pub mod Bounds
pub mod Font
mod Tests
use j_oe_s.Base.{
  ℕ, zero, suc, ◌+◌, ◌*◌, ◌%◌, ◌^◌, Bool, true, false, ◌||◌, Option, none, some, List, [], ◌∷◌, u8,
  ltb, ◌==◌, if◌then◌else◌,
}
use j_oe_s.Terminal.Drawing.{Framebuffer, Pixels, Charset, framebuffer_clear, framebuffer_draw_char}

-- `struct terminal`
pub record Terminal : Type 0 where
  pub cursor_x : ℕ
  pub cursor_y : ℕ
  pub char_w : ℕ
  pub char_h : ℕ
  pub fg_color : ℕ
  pub framebuffer : Framebuffer

-- The static variable and what is on the screen.
pub record Screen : Type 0 where
  pub terminal : Terminal
  pub pixels : Pixels

abbrev pub tab_width : ℕ
tab_width = 4

-- `terminal_init`
unfoldable pub terminal_init : Framebuffer → ℕ → ℕ → Terminal
terminal_init framebuffer char_w char_h = record {
  cursor_x = 0;
  cursor_y = 0;
  char_w = char_w;
  char_h = char_h;
  fg_color = 0xffffff;
  framebuffer = framebuffer;
}

abbrev pub terminal_set_color : ℕ → Terminal → Terminal
terminal_set_color color t = record t { fg_color = color }

-- The loop of the tab's case on the cursor, a `uint8_t`; `none` where `fuel` rounds were not enough.
unfoldable pub tab_loop : ℕ → ℕ → Option ℕ
tab_loop zero x = none
tab_loop (suc fuel) x =
    let x' = u8 (x + 1) in
    let rest = tab_loop fuel x' in if x' % tab_width == 0 then some x' else rest

-- What follows the switch: the next line, and the top of a cleared screen.
unfoldable pub wrap_line : Terminal → Terminal
wrap_line t =
    if ltb t.framebuffer.width ((t.cursor_x + 1) * t.char_w)
    then record t { cursor_x = 0; cursor_y = u8 (t.cursor_y + 1) }
    else t

unfoldable pub wrap_screen : Screen → Screen
wrap_screen s =
    let t = s.terminal in
    if ltb t.framebuffer.height ((t.cursor_y + 1) * t.char_h)
    then record {
      terminal = record t { cursor_x = 0; cursor_y = 0 };
      pixels = framebuffer_clear t.framebuffer 0 s.pixels;
    }
    else s

abbrev pub wrap_cursor : Screen → Screen
wrap_cursor s = wrap_screen (record s { terminal = wrap_line s.terminal })

abbrev pub move_right : Terminal → Terminal
move_right t = record t { cursor_x = u8 (t.cursor_x + 1) }

abbrev pub new_line : Terminal → Terminal
new_line t = record t { cursor_x = 0; cursor_y = u8 (t.cursor_y + 1) }

abbrev pub is_printable : ℕ → Bool
is_printable c = if ltb c 32 || ltb 126 c then false else true

module _ (charset : Charset) where
  -- The character is drawn where the cursor is; the products of bytes are 16-bit numbers.
  abbrev pub draw : ℕ → Screen → Pixels
  draw c s =
      let t = s.terminal in
      framebuffer_draw_char charset t.framebuffer c (t.cursor_x * t.char_w) (t.cursor_y * t.char_h)
        t.fg_color s.pixels

  -- The tab's case is given four rounds.
  unfoldable pub terminal_put_char : ℕ → Screen → Option Screen
  terminal_put_char c s =
      if c == 32
      then some (wrap_cursor (record s { terminal = move_right s.terminal }))
      else if c == 10
      then some (wrap_cursor (record s { terminal = new_line s.terminal }))
      else if c == 9
      then (elim (tab_loop tab_width s.terminal.cursor_x) [
        | none ↦ none
        | some x ↦ some (wrap_cursor (record s { terminal = record s.terminal { cursor_x = x } }))
      ])
      else if is_printable c
      then some (wrap_cursor (record { terminal = move_right s.terminal; pixels = draw c s }))
      else some s

  -- `terminal_write_string` of the first characters of a string, and `terminal_log_write`.
  unfoldable pub terminal_write_string : List ℕ → Screen → Option Screen
  terminal_write_string [] s = some s
  terminal_write_string (c ∷ rest) s = elim (terminal_put_char c s) [
    | none ↦ none
    | some s' ↦ terminal_write_string rest s'
  ]

  abbrev pub terminal_log_write : ℕ → Screen → Option Screen
  terminal_log_write c s = terminal_put_char c s
