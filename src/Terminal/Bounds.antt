-- ===== src/Terminal/Bounds.antt =====
-- Which pixels a character changes.
use j_oe_s.Base.{
  ℕ, zero, suc, ◌+◌, ◌*◌, ◌/◌, ◌<◌, ◌≤◌, ◌≡◌, refl, ◌∙◌, subst, sym, Bool, true, false, Option,
  some, ltb, ◌==◌, if◌then◌else◌, Bool-cases, ==_iff, ◌⊎◌, inl, inr, arith,
}
use j_oe_s.Terminal.Drawing.{
  Framebuffer, Pixels, Charset, stride, plot, clear_row, clear_rows, framebuffer_clear, draw_row,
  draw_rows, framebuffer_draw_char,
}
use j_oe_s.Terminal.{
  Terminal, Screen, wrap_line, wrap_screen, wrap_cursor, terminal_put_char, is_printable, draw,
  move_right, new_line,
}
use j_oe_s.Terminal.Cursor.{tab_loop_lem}

-- Every pixel is the same or one of some.
pub record Only (P : ℕ → Type 0) (p p' : Pixels) : Type 0 where
  pub at : (k : ℕ) → (p' k ≡ p k) ⊎ P k

-- The index is that of a pixel of the framebuffer.
abbrev pub Inside : Framebuffer → ℕ → Type 0
Inside f k =
    (row : ℕ) × (column : ℕ) × (k ≡ row * stride f + column) × (row < f.height) × (column < f.width)

module _ {P : ℕ → Type 0} where
  Only-trans : {p p' p'' : Pixels} → Only P p p' → Only P p' p'' → Only P p p''
  Only-trans first second = record {
    at = λ k. elim (second.at k) [
      | inl same ↦ elim (first.at k) [ inl same' ↦ inl (same ∙ same') | inr hit ↦ inr hit ]
      | inr hit ↦ inr hit
    ];
  }

  Only-refl : {p : Pixels} → Only P p p
  Only-refl = record { at = λ k. inl refl }

  Only-plot : (i color : ℕ) (p : Pixels) → P i → Only P p (plot i color p)
  Only-plot i color p hit = record {
    at = λ k. elim (Bool-cases (k == i)) [
      | inl same ↦ inr (subst P (sym ((==_iff k i).0 same)) hit)
      | inr other ↦ inl (rw other refl)
    ];
  }

  Only-if :
      (b : Bool) {p x y : Pixels}
      → (b ≡ true → Only P p x)
      → (b ≡ false → Only P p y)
      → Only P p (if b then x else y)
  Only-if true here there = here refl
  Only-if false here there = there refl

  clear_row-Only :
      (left x start color : ℕ) (p : Pixels)
      → ((j : ℕ) → x ≤ j → j < x + left → P (start + j))
      → Only P p (clear_row left x start color p)
  unfolding clear_row
  clear_row-Only zero x start color p hit = Only-refl
  clear_row-Only (suc left) x start color p hit =
      Only-trans (Only-plot (start + x) color p (hit x (omega arith) (omega arith))) (
        clear_row-Only left (x + 1) start color (plot (start + x) color p)
          (λ j low high. hit j (omega arith) (omega arith)))

  draw_row-Only :
      (left x y : ℕ) (glyph : ℕ → ℕ) (start color : ℕ) (p : Pixels)
      → ((j : ℕ) → j < x + left → glyph (j / 2 + y / 2 * 10) ≡ 1 → P (start + j))
      → Only P p (draw_row left x y glyph start color p)
  unfolding draw_row
  draw_row-Only zero x y glyph start color p hit = Only-refl
  draw_row-Only (suc left) x y glyph start color p hit =
      Only-trans
        (Only-if (glyph (x / 2 + y / 2 * 10) == 1)
          (λ e. Only-plot (start + x) color p (hit x (omega arith) ((==_iff _ _).0 e)))
          (λ e. Only-refl))
        (draw_row-Only left (x + 1) y glyph start color _ (λ j lt. hit j (omega arith)))

clear_rows-Inside :
    (left y : ℕ) (f : Framebuffer) (color : ℕ) (p : Pixels)
    → y + left ≤ f.height
    → Only (Inside f) p (clear_rows left y f color p)
unfolding clear_rows
clear_rows-Inside zero y f color p le = Only-refl
clear_rows-Inside (suc left) y f color p le =
    Only-trans
      (clear_row-Only f.width 0 (y * stride f) color p
        (λ j low high. (y, j, refl, omega arith, omega arith)))
      (clear_rows-Inside left (y + 1) f color _ (omega arith))

-- The font's characters stay in a box of so many pixels.
abbrev pub Boxed : Charset → ℕ → ℕ → Type 0
Boxed charset width height =
    (c x y : ℕ) → x < 20 → y < 20 → charset c (x / 2 + y / 2 * 10) ≡ 1 → (x < width) × (y < height)

module _ (charset : Charset) (width height : ℕ) (boxed : Boxed charset width height)
    (f : Framebuffer) (start_x start_y : ℕ) (right : start_x + width ≤ f.width)
    (bottom : start_y + height ≤ f.height) where
  draw_rows-Inside :
      (left y c color : ℕ) (p : Pixels)
      → y + left ≤ 20
      → Only (Inside f) p (draw_rows left y f (charset c) start_x start_y color p)
  unfolding draw_rows
  draw_rows-Inside zero y c color p le = Only-refl
  draw_rows-Inside (suc left) y c color p le =
      Only-trans
        (draw_row-Only 20 0 y (charset c) ((start_y + y) * stride f + start_x) color p λ j lt set.
          let (in_x, in_y) = boxed c j y lt (omega arith) set in
          (start_y + y, start_x + j, omega arith, omega arith, omega arith))
        (draw_rows-Inside left (y + 1) c color _ (omega arith))

wrap_screen-Inside :
    (s : Screen) → Only (Inside s.terminal.framebuffer) s.pixels (wrap_screen s).pixels
unfolding wrap_screen framebuffer_clear
wrap_screen-Inside s =
    elim (Bool-cases
      (ltb s.terminal.framebuffer.height ((s.terminal.cursor_y + 1) * s.terminal.char_h))) [
        | inl over ↦ rw over (
            clear_rows-Inside s.terminal.framebuffer.height 0 s.terminal.framebuffer 0 s.pixels
              (omega arith))
        | inr within ↦ rw within Only-refl
      ]

wrap_line-framebuffer : (t : Terminal) → (wrap_line t).framebuffer ≡ t.framebuffer
unfolding wrap_line
wrap_line-framebuffer t = ground arith

wrap_cursor-Inside :
    (t : Terminal) (p : Pixels)
    → Only (Inside t.framebuffer) p (wrap_cursor (record { terminal = t; pixels = p })).pixels
wrap_cursor-Inside t p =
    subst (λ f. Only (Inside f) p (wrap_cursor (record { terminal = t; pixels = p })).pixels)
      (wrap_line-framebuffer t) (wrap_screen-Inside (record { terminal = wrap_line t; pixels = p }))

-- A character returns, and changes only cells of the framebuffer.
abbrev Draws : Screen → Option Screen → Type 0
Draws s r = (s' : Screen) × (r ≡ some s') × Only (Inside s.terminal.framebuffer) s.pixels s'.pixels

if-Draws :
    (b : Bool) (s : Screen) {x y : Option Screen}
    → Draws s x
    → Draws s y
    → Draws s (if b then x else y)
if-Draws true s here there = here
if-Draws false s here there = there

module _ (charset : Charset) (width height : ℕ) (boxed : Boxed charset width height) where
  draw-Inside :
      (c : ℕ) (s : Screen)
      → s.terminal.cursor_x * s.terminal.char_w + width ≤ s.terminal.framebuffer.width
      → s.terminal.cursor_y * s.terminal.char_h + height ≤ s.terminal.framebuffer.height
      → Only (Inside s.terminal.framebuffer) s.pixels (draw charset c s)
  unfolding framebuffer_draw_char
  draw-Inside c s right bottom =
      draw_rows-Inside charset width height boxed s.terminal.framebuffer _ _ right bottom 20 0 c
        s.terminal.fg_color s.pixels (omega arith)

  put_char-Draws :
      (c : ℕ) (s : Screen)
      → s.terminal.cursor_x < 256
      → s.terminal.cursor_x * s.terminal.char_w + width ≤ s.terminal.framebuffer.width
      → s.terminal.cursor_y * s.terminal.char_h + height ≤ s.terminal.framebuffer.height
      → Draws s (terminal_put_char charset c s)
  unfolding terminal_put_char
  put_char-Draws c s byte right bottom =
      let (x', tab, small) = tab_loop_lem s.terminal.cursor_x byte in
      if-Draws (c == 32) s (_, refl, wrap_cursor-Inside (move_right s.terminal) s.pixels)
        (if-Draws (c == 10) s (_, refl, wrap_cursor-Inside (new_line s.terminal) s.pixels)
          (if-Draws (c == 9) s
            (
              wrap_cursor (record s { terminal = record s.terminal { cursor_x = x' } }),
              rw tab refl,
              wrap_cursor-Inside (record s.terminal { cursor_x = x' }) s.pixels,
            )
            (if-Draws (is_printable c) s
              (
                _,
                refl,
                Only-trans (draw-Inside c s right bottom)
                    (wrap_cursor-Inside (move_right s.terminal) (draw charset c s)),
              )
              (s, refl, Only-refl))))

  -- With a font whose characters stay in a box, where that box, at the cursor, is inside the
  -- framebuffer, and the cursor's column is a byte, `terminal_put_char` returns for every character
  -- and changes no cell outside the framebuffer's rows and columns, also where it clears the screen.
  pub terminal_put_char-Inside :
      (c : ℕ) (s : Screen)
      → s.terminal.cursor_x < 256
      → s.terminal.cursor_x * s.terminal.char_w + width ≤ s.terminal.framebuffer.width
      → s.terminal.cursor_y * s.terminal.char_h + height ≤ s.terminal.framebuffer.height
      → (s' : Screen) × (terminal_put_char charset c s ≡ some s')
        × ((k : ℕ) → (s'.pixels k ≡ s.pixels k) ⊎ Inside s.terminal.framebuffer k)
  terminal_put_char-Inside c s byte right bottom =
      let (s', e, only) = put_char-Draws c s byte right bottom in (s', e, only.at)
