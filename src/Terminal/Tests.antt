-- ===== src/Terminal/Tests.antt =====
-- A run of the terminal.
use j_oe_s.Base.{ℕ, ◌≡◌, ◌⊎◌, some, [], ◌∷◌, arith}
use j_oe_s.Terminal.Drawing.{Framebuffer}
use j_oe_s.Terminal.{Screen, terminal_init, terminal_put_char, terminal_write_string}
use j_oe_s.Terminal.Cursor.{Fits, OnScreen, SameSetup, terminal_write_string-OnScreen}
use j_oe_s.Terminal.Font.{charset, charset-Boxed}
use j_oe_s.Terminal.Bounds.{Inside, terminal_put_char-Inside}

abbrev monitor : Framebuffer
monitor = record { width = 1280; height = 800; pitch = 5120; bpp = 32 }

abbrev blank : Screen
blank = record { terminal = terminal_init monitor 13 22; pixels = λ i. 0 }

blank-OnScreen : OnScreen blank.terminal
unfolding terminal_init
blank-OnScreen = record {
  right = omega arith;
  bottom = omega arith;
  byte_x = omega arith;
  byte_y = omega arith;
}

blank-Fits : Fits blank.terminal
unfolding terminal_init
blank-Fits = (omega arith, omega arith)

terminal_write_string_example :
    (s' : Screen) × (terminal_write_string charset (b'O' ∷ b'K' ∷ 10 ∷ []) blank ≡ some s')
    × OnScreen s'.terminal
    × SameSetup blank.terminal s'.terminal
terminal_write_string_example =
    terminal_write_string-OnScreen charset (b'O' ∷ b'K' ∷ 10 ∷ []) blank blank-Fits blank-OnScreen

terminal_put_char_example :
    (s' : Screen) × (terminal_put_char charset b'O' blank ≡ some s')
    × ((k : ℕ) → (s'.pixels k ≡ blank.pixels k) ⊎ Inside blank.terminal.framebuffer k)
unfolding terminal_init
terminal_put_char_example =
    terminal_put_char-Inside charset 14 20 charset-Boxed b'O' blank (omega arith) (omega arith)
      (omega arith)
