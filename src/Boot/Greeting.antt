-- ===== src/Boot/Greeting.antt =====
-- The greeting that `kmain` writes to the terminal.
use j_oe_s.Base.{ℕ, ◌≡◌, Option, some, List, [], ◌∷◌, refl, ap, ◌∙◌}
use j_oe_s.Terminal.{Screen, terminal_put_char, terminal_write_string}
use j_oe_s.Terminal.Drawing.{Charset}
use j_oe_s.Terminal.Cursor.{
  Fits, OnScreen, SameSetup, put_char-OnScreen, terminal_write_string-OnScreen,
}
use j_oe_s.Boot.{greet, then_screen, colored}

-- A screen that characters can be written to.
abbrev pub Ready : Screen → Type 0
Ready s = Fits s.terminal × OnScreen s.terminal

-- One part of the greeting, and the rest of it.
then_writes :
    (o : Option Screen) (next : Screen → Option Screen)
    → ((s1 : Screen) × (o ≡ some s1) × Ready s1)
    → ((s1 : Screen) → Ready s1 → (s' : Screen) × (next s1 ≡ some s') × Ready s')
    → (s' : Screen) × (then_screen o next ≡ some s') × Ready s'
then_writes o next (s1, e, ready) rest =
    let (s', e', ready') = rest s1 ready in (s', ap (λ q. then_screen q next) e ∙ e', ready')

stays :
    (s : Screen) (o : Option Screen)
    → Fits s.terminal
    → (s1 : Screen) × (o ≡ some s1) × OnScreen s1.terminal × SameSetup s.terminal s1.terminal
    → (s1 : Screen) × (o ≡ some s1) × Ready s1
stays s o fits (s1, e, on, same) = (s1, e, (rw (same.0, same.1, same.3) fits, on))

puts :
    (charset : Charset) (c : ℕ) (s : Screen)
    → Ready s
    → (s1 : Screen) × (terminal_put_char charset c s ≡ some s1) × Ready s1
puts charset c s (fits, on) = stays s _ fits (put_char-OnScreen charset c s fits on)

paint : (color : ℕ) (s : Screen) → Ready s → Ready (colored color s)
paint color s (fits, on) =
    (fits, record { right = on.right; bottom = on.bottom; byte_x = on.byte_x; byte_y = on.byte_y })

-- The greeting is written where a character cell fits on the screen.
pub greet_lem :
    (charset : Charset) (s : Screen)
    → Ready s
    → (s' : Screen) × (greet charset s ≡ some s') × Ready s'
unfolding greet
greet_lem charset s (fits, on) =
    then_writes _ _
      (stays s _ fits
        (terminal_write_string-OnScreen charset (b'J' ∷ b'o' ∷ b'e' ∷ 10 ∷ []) s fits on))
      (λ s1 ready1.
        then_writes _ _ (puts charset b'o' (colored 0xaa0000 s1) (paint 0xaa0000 s1 ready1))
          (λ s2 ready2. then_writes _ _ (puts charset 9 s2 ready2) (λ s3 ready3.
            then_writes _ _ (puts charset b'o' (colored 0xaa00aa s3) (paint 0xaa00aa s3 ready3))
              (λ s4 ready4.
                then_writes _ _ (puts charset 10 s4 ready4)
                  (λ s5 ready5. (colored 0xffffff s5, refl, paint 0xffffff s5 ready5))))))

-- A text is written to such a screen.
pub writes_text :
    (charset : Charset) (text : List ℕ) (s : Screen)
    → Ready s
    → (s' : Screen) × (terminal_write_string charset text s ≡ some s')
writes_text charset text s (fits, on) =
    let (s', e, on', same) = terminal_write_string-OnScreen charset text s fits on in (s', e)
