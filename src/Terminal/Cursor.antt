-- ===== src/Terminal/Cursor.antt =====
-- Where the cursor is after each character.
use j_oe_s.Base.{
  ℕ, ◌+◌, ◌*◌, ◌/◌, ◌%◌, ◌<◌, ◌≤◌, ◌≡◌, refl, ◌∙◌, Bool, true, false, Option, some, List, [], ◌∷◌,
  ltb, ltb→le, ◌==◌, if◌then◌else◌, Bool-cases, inl, inr, arith,
}
use j_oe_s.Terminal.Drawing.{Pixels, Charset}
use j_oe_s.Terminal.{
  Terminal, Screen, tab_loop, wrap_line, wrap_screen, wrap_cursor, terminal_put_char,
  terminal_write_string, is_printable, draw, move_right, new_line,
}

-- A cell of the terminal's size fits on the screen.
abbrev pub Fits : Terminal → Type 0
Fits t = (t.char_w ≤ t.framebuffer.width) × (t.char_h ≤ t.framebuffer.height)

-- The cursor's cell is on the screen, and its coordinates are bytes.
pub record OnScreen (t : Terminal) : Type 0 where
  pub right : (t.cursor_x + 1) * t.char_w ≤ t.framebuffer.width
  pub bottom : (t.cursor_y + 1) * t.char_h ≤ t.framebuffer.height
  pub byte_x : t.cursor_x < 256
  pub byte_y : t.cursor_y < 256

-- Characters move the cursor and nothing else of the terminal.
abbrev pub SameSetup : Terminal → Terminal → Type 0
SameSetup t t' =
    (t'.char_w ≡ t.char_w)
    × (t'.char_h ≡ t.char_h)
    × (t'.fg_color ≡ t.fg_color)
    × (t'.framebuffer ≡ t.framebuffer)

-- Four rounds are enough for the tab: it stops at the next multiple of 4, or wraps to 0.
pub tab_loop_lem : (x : ℕ) → x < 256 → (x' : ℕ) × (tab_loop 4 x ≡ some x') × (x' < 256)
unfolding tab_loop
tab_loop_lem x h = ((x / 4 * 4 + 4) % 256, ground arith, omega arith)

module _ (t : Terminal) (fits : Fits t) where
  wrap_line-right : ((wrap_line t).cursor_x + 1) * t.char_w ≤ t.framebuffer.width
  unfolding wrap_line
  wrap_line-right = elim (Bool-cases (ltb t.framebuffer.width ((t.cursor_x + 1) * t.char_w))) [
    | inl over ↦ rw over (omega (arith, fits))
    | inr within ↦ rw within (ltb→le _ _ within)
  ]

  wrap_line-SameSetup : SameSetup t (wrap_line t)
  unfolding wrap_line
  wrap_line-SameSetup = ground arith

  wrap_line-bytes :
      t.cursor_x < 256
      → t.cursor_y < 256
      → ((wrap_line t).cursor_x < 256) × ((wrap_line t).cursor_y < 256)
  unfolding wrap_line
  wrap_line-bytes hx hy = ground arith

-- The cursor is on the screen again after the end of `terminal_put_char`.
wrap_screen-OnScreen :
    (s : Screen)
    → Fits s.terminal
    → (s.terminal.cursor_x + 1) * s.terminal.char_w ≤ s.terminal.framebuffer.width
    → s.terminal.cursor_x < 256
    → s.terminal.cursor_y < 256
    → OnScreen (wrap_screen s).terminal × SameSetup s.terminal (wrap_screen s).terminal
unfolding wrap_screen
wrap_screen-OnScreen s fits right hx hy =
    elim (Bool-cases
      (ltb s.terminal.framebuffer.height ((s.terminal.cursor_y + 1) * s.terminal.char_h))) [
        | inl over ↦ rw over (
          record {
            right = omega (arith, fits);
            bottom = omega (arith, fits);
            byte_x = omega arith;
            byte_y = omega arith;
          },
          (refl, refl, refl, refl),
        )
        | inr within ↦ rw within (
          record { right = right; bottom = ltb→le _ _ within; byte_x = hx; byte_y = hy },
          (refl, refl, refl, refl),
        )
      ]

wrap_cursor-OnScreen :
    (s : Screen)
    → Fits s.terminal
    → s.terminal.cursor_x < 256
    → s.terminal.cursor_y < 256
    → OnScreen (wrap_cursor s).terminal × SameSetup s.terminal (wrap_cursor s).terminal
wrap_cursor-OnScreen s fits hx hy =
    let same = wrap_line-SameSetup s.terminal fits in
    let bytes = wrap_line-bytes s.terminal fits hx hy in
    let (on, same') =
      wrap_screen-OnScreen (record s { terminal = wrap_line s.terminal })
        (rw (same.0, same.1, same.3) fits) (rw (same.0, same.3) (wrap_line-right s.terminal fits))
        bytes.0 bytes.1 in
    (on, (same'.0 ∙ same.0, same'.1 ∙ same.1, same'.2 ∙ same.2, same'.3 ∙ same.3))

module _ (charset : Charset) where
  -- The step for each character, by the cases of the switch.
  abbrev Stays : Screen → Option Screen → Type 0
  Stays s r =
      (s' : Screen) × (r ≡ some s') × OnScreen s'.terminal × SameSetup s.terminal s'.terminal

  if-Stays :
      (b : Bool) (s : Screen) {x y : Option Screen}
      → Stays s x
      → Stays s y
      → Stays s (if b then x else y)
  if-Stays true s here there = here
  if-Stays false s here there = there

  -- The end of every case, from a terminal whose cursor has been moved.
  moved-Stays :
      (s : Screen) (t : Terminal) (p : Pixels)
      → Fits s.terminal
      → t.cursor_x < 256
      → t.cursor_y < 256
      → SameSetup s.terminal t
      → Stays s (some (wrap_cursor (record { terminal = t; pixels = p })))
  moved-Stays s t p fits hx hy same =
      let (on, same') =
        wrap_cursor-OnScreen (record { terminal = t; pixels = p })
          (rw (same.0, same.1, same.3) fits) hx hy in
      (
        wrap_cursor (record { terminal = t; pixels = p }),
        refl,
        on,
        (same'.0 ∙ same.0, same'.1 ∙ same.1, same'.2 ∙ same.2, same'.3 ∙ same.3),
      )

  pub put_char-OnScreen :
      (c : ℕ) (s : Screen)
      → Fits s.terminal
      → OnScreen s.terminal
      → Stays s (terminal_put_char charset c s)
  unfolding terminal_put_char
  put_char-OnScreen c s fits on =
      let (x', tab, small) = tab_loop_lem s.terminal.cursor_x on.byte_x in
      let unchanged : SameSetup s.terminal s.terminal = (refl, refl, refl, refl) in
      if-Stays (c == 32) s
        (moved-Stays s (move_right s.terminal) s.pixels fits (omega arith) on.byte_y unchanged)
        (if-Stays (c == 10) s
          (moved-Stays s (new_line s.terminal) s.pixels fits (omega arith) (omega arith) unchanged)
          (if-Stays (c == 9) s
            (rw tab (
              moved-Stays s (record s.terminal { cursor_x = x' }) s.pixels fits small on.byte_y
                unchanged))
            (if-Stays (is_printable c) s
              (moved-Stays s (move_right s.terminal) (draw charset c s) fits (omega arith) on.byte_y
                unchanged)
              (s, refl, on, unchanged))))

  -- If a character cell fits on the screen and the cursor, whose coordinates are bytes, has its cell
  -- on it, then writing any string returns, the same holds of the cursor afterwards, and the cell
  -- size, the color and the framebuffer are as before.
  pub terminal_write_string-OnScreen :
      (string : List ℕ) (s : Screen)
      → Fits s.terminal
      → OnScreen s.terminal
      → (s' : Screen) × (terminal_write_string charset string s ≡ some s')
        × OnScreen s'.terminal
        × SameSetup s.terminal s'.terminal
  unfolding terminal_write_string
  terminal_write_string-OnScreen [] s fits on = (s, refl, on, (refl, refl, refl, refl))
  terminal_write_string-OnScreen (c ∷ rest) s fits on =
      let (s1, one, on1, same) = put_char-OnScreen c s fits on in
      let fits1 : Fits s1.terminal = rw (same.0, same.1, same.3) fits in
      let (s2, all, on2, same') = terminal_write_string-OnScreen rest s1 fits1 on1 in
      (
        s2,
        rw (one, terminal_write_string) all,
        on2,
        (same'.0 ∙ same.0, same'.1 ∙ same.1, same'.2 ∙ same.2, same'.3 ∙ same.3),
      )
