-- ===== src/Cpu/Interrupts/Typing.antt =====
-- From the bytes of a key to its characters: the keyboard's interrupts, one for each byte, and the
-- timer's interrupt after them.
use j_oe_s.Base.{ℕ, ◌≡◌, refl, ◌∙◌, ap, ap₂, sym, eq_of_some, some, List, [], ◌∷◌, ◌++◌}
use mathlib.Core.List.{append-nil}
use j_oe_s.Keyboard.Event.{key_event_to_ascii}
use j_oe_s.Keyboard.Buffer.Queue.{IsValid, contents, push, append_key_event_refines}
use j_oe_s.Keyboard.Modifiers.{set_modifiers}
use j_oe_s.Keyboard.Irq.{normal, irq_callback, receive}
use j_oe_s.Keyboard.Irq.Sequences.{ScanCode, IsCode, encode, event_of, receive-encode}
use j_oe_s.Drivers.Port.{Bus, Machine}
use j_oe_s.Drivers.Ps2.{Ps2Error, ps2_receive_byte}
use j_oe_s.Drivers.Serial.Log.{IsReady}
use j_oe_s.Cpu.Interrupts.{System, keyboard_case, timer_case, end_irq}
use j_oe_s.Cpu.Interrupts.Drain.{text_of, timer_case-drain}

module _ {D : Type 0} (bus : Bus D) (wait : ℕ) where
  -- Several interrupts of the keyboard, in each of which the device has one byte.
  pub data Delivered : System D → List ℕ → System D → Type 0 where
    nothing : (s : System D) → Delivered s [] s
    interrupt :
        (s s1 s2 : System D) (code : Ps2Error) (byte : ℕ) (bytes : List ℕ) (m : Machine D)
        → ps2_receive_byte bus s.machine ≡ some ((code, byte), m)
        → keyboard_case bus wait s ≡ some s1
        → Delivered s1 bytes s2
        → Delivered s (byte ∷ bytes) s2

  -- The system after one interrupt of the keyboard.
  abbrev received_by : System D → Machine D → ℕ → System D
  received_by s m byte =
      end_irq bus wait 1 (record s { machine = m; keyboard = irq_callback s.keyboard byte })

  keyboard_case-received :
      (s s1 : System D) (code : Ps2Error) (byte : ℕ) (m : Machine D)
      → ps2_receive_byte bus s.machine ≡ some ((code, byte), m)
      → keyboard_case bus wait s ≡ some s1
      → s1 ≡ received_by s m byte
  unfolding keyboard_case
  keyboard_case-received s s1 code byte m received one =
      let computed : keyboard_case bus wait s ≡ some (received_by s m byte) =
        rw (received, keyboard_case) refl in
      eq_of_some (sym one ∙ computed)

  -- The keyboard driver receives the bytes, and the terminal is as before.
  Delivered-receive :
      {s s' : System D} {bytes : List ℕ}
      → Delivered s bytes s'
      → (s'.keyboard ≡ receive s.keyboard bytes) × (s'.terminal ≡ s.terminal)
  unfolding receive
  Delivered-receive (nothing s) = (refl, refl)
  Delivered-receive (interrupt s s1 s2 code byte bytes m received one rest) =
      let (keyboard, terminal) = Delivered-receive rest in
      let after = keyboard_case-received s s1 code byte m received one in
      (keyboard ∙ ap (λ t. receive t.keyboard bytes) after, terminal ∙ ap (λ t. t.terminal) after)

  -- With a serial port that gets ready in the rounds given: from the keyboard driver's normal state and with a valid and empty key buffer, let the
  -- keyboard's interrupts deliver the bytes of one scan code. Then the timer's interrupt puts exactly
  -- the characters of that scan code's key event, with the modifiers that the driver has set, on the
  -- terminal, and leaves the buffer valid and empty.
  pub timer_case-Delivered :
      (s s' : System D) (code : ScanCode)
      → IsReady bus wait
      → s.keyboard.state ≡ normal
      → IsValid s.keyboard.buffer
      → contents s.keyboard.buffer ≡ []
      → IsCode code
      → Delivered s (encode code) s'
      → (s'' : System D) × (timer_case bus wait 33 s' ≡ some s'')
        × (s''.terminal
            ≡ s.terminal
              ++ key_event_to_ascii (set_modifiers s.keyboard.modifiers (event_of code)).1)
        × IsValid s''.keyboard.buffer
        × (contents s''.keyboard.buffer ≡ [])
  timer_case-Delivered s s' code ready state valid empty is_code delivered =
      let (keyboard, terminal) = Delivered-receive delivered in
      let event = (set_modifiers s.keyboard.modifiers (event_of code)).1 in
      let handled = keyboard ∙ receive-encode s.keyboard code state is_code in
      let (pushed, valid') = append_key_event_refines s.keyboard.buffer event valid in
      let valid'' : IsValid s'.keyboard.buffer = rw handled valid' in
      let one : contents s'.keyboard.buffer ≡ event ∷ [] =
        ap (λ k. contents k.buffer) handled ∙ pushed ∙ ap (λ q. push q event) empty in
      let (s'', d, run) = timer_case-drain bus wait ready s' valid'' in
      (
        end_irq bus wait 0 s'',
        run,
        d.printed
            ∙ ap₂ (λ t q. t ++ text_of q) terminal one
            ∙ ap (λ t. s.terminal ++ t) (append-nil (key_event_to_ascii event)),
        d.valid,
        d.empty,
      )
