-- ===== src/Keyboard/Irq/Sequences.antt =====
-- The scan codes of more than one byte, and what the state machine does with any bytes.
use j_oe_s.Base.{
  ℕ, ◌+◌, ◌%◌, ◌<◌, ◌≡◌, ◌≢◌, inl, inr, Bool, true, false, List, [], ◌∷◌, ◌++◌, none, some, ltb,
  ne→==, refl, arith, ap, sym, subst, Option-cases,
}
use j_oe_s.Keyboard.KeyCode.{key_print_screen, key_pause}
use j_oe_s.Keyboard.Scancodes.{scancode_set_1}
use j_oe_s.Keyboard.Event.{KeyEvent}
use j_oe_s.Keyboard.Buffer.{KeyBuffer, append_key_event}
use j_oe_s.Keyboard.Modifiers.{Modifiers, set_modifiers}
use j_oe_s.Keyboard.Irq.{
  State, uninitialized, normal, prefix_e0, prefix_e02a, prefix_e02ae0, prefix_e0b7, prefix_e0b7e0,
  prefix_e1, prefix_e11d, prefix_e11d45, prefix_e11d45e1, prefix_e11d45e19d, invalid, Keyboard,
  switch, decode, complete, irq_callback, receive,
}
use j_oe_s.Keyboard.Irq.Decode.{key_event, decode_lem}

-- The scan codes of set 1: one byte, a byte after 0xe0, and the two long ones.
pub data ScanCode : Type 0 where
  plain : ℕ → ScanCode
  extended : ℕ → ScanCode
  print_screen_pressed : ScanCode
  pause : ScanCode

-- The byte is one that starts no other scan code.
abbrev pub IsCode : ScanCode → Type 0
IsCode (plain c) = (c < 256) × (c ≢ 0xe0) × (c ≢ 0xe1)
IsCode (extended c) = (c < 256) × (c ≢ 0x2a) × (c ≢ 0xb7)
IsCode _ = Unit {0}

abbrev pub encode : ScanCode → List ℕ
encode (plain c) = c ∷ []
encode (extended c) = 0xe0 ∷ c ∷ []
encode print_screen_pressed = 0xe0 ∷ 0x2a ∷ 0xe0 ∷ 0x37 ∷ []
encode pause = 0xe1 ∷ 0x1d ∷ 0x45 ∷ 0xe1 ∷ 0x9d ∷ 0xc5 ∷ []

-- The key event that a scan code stands for.
abbrev pub event_of : ScanCode → KeyEvent
event_of (plain c) = key_event (scancode_set_1 (c % 128)) (ltb c 128)
event_of (extended c) = key_event (scancode_set_1 (c % 128 + 128)) (ltb c 128)
event_of print_screen_pressed = key_event key_print_screen true
event_of pause = key_event key_pause false

-- The driver's state after one more key event, with its modifiers set and appended to the buffer.
abbrev pub handle : Keyboard → KeyEvent → Keyboard
handle k e =
    let (modifiers', e') = set_modifiers k.modifiers e in
    record { state = normal; modifiers = modifiers'; buffer = append_key_event k.buffer e' }

complete_lem :
    (k : Keyboard) (raw : ℕ) (e : KeyEvent) → decode k.state raw ≡ e → complete k raw ≡ handle k e
unfolding complete
complete_lem k raw e h = rw h

irq_callback_moves :
    (k : Keyboard) (raw : ℕ) (state' : State)
    → switch k.state raw ≡ some state'
    → irq_callback k raw ≡ record k { state = state' }
unfolding irq_callback
irq_callback_moves k raw state' h = rw (h, irq_callback)

irq_callback_completes :
    (k : Keyboard) (raw : ℕ) (e : KeyEvent)
    → switch k.state raw ≡ none
    → decode k.state raw ≡ e
    → irq_callback k raw ≡ handle k e
unfolding irq_callback
irq_callback_completes k raw e h d = rw (h, irq_callback) (complete_lem k raw e d)

-- The driver in the normal state, with these modifiers and this buffer.
abbrev driver : State → Modifiers → KeyBuffer → Keyboard
driver state m b = record { state = state; modifiers = m; buffer = b }

switch_single : (c : ℕ) → c ≢ 0xe0 → c ≢ 0xe1 → switch normal c ≡ none
unfolding switch
switch_single c h h' = rw (ne→== c 0xe0 h, ne→== c 0xe1 h')

switch_e0 : (c : ℕ) → c ≢ 0x2a → c ≢ 0xb7 → switch prefix_e0 c ≡ none
unfolding switch
switch_e0 c h h' = rw (ne→== c 0x2a h, ne→== c 0xb7 h')

receive_from_normal :
    (m : Modifiers) (b : KeyBuffer) (s : ScanCode)
    → IsCode s
    → receive (driver normal m b) (encode s) ≡ handle (driver normal m b) (event_of s)
unfolding receive irq_callback switch scancode_set_1
receive_from_normal m b (plain c) (lt, e0, e1) =
    irq_callback_completes (driver normal m b) c (event_of (plain c)) (switch_single c e0 e1)
      (decode_lem normal c lt)
receive_from_normal m b (extended c) (lt, e02a, e0b7) =
    irq_callback_completes (driver prefix_e0 m b) c (event_of (extended c)) (switch_e0 c e02a e0b7)
      (decode_lem prefix_e0 c lt)
receive_from_normal m b print_screen_pressed h =
    complete_lem (driver prefix_e02ae0 m b) 0x37 (event_of print_screen_pressed)
      (decode_lem prefix_e02ae0 0x37 (omega arith))
receive_from_normal m b pause h =
    complete_lem (driver prefix_e11d45e19d m b) 0xc5 (event_of pause)
      (decode_lem prefix_e11d45e19d 0xc5 (omega arith))

-- From the normal state, the bytes of a scan code make exactly its one key event, and the driver is
-- in the normal state again.
pub receive-encode :
    (k : Keyboard) (s : ScanCode)
    → k.state ≡ normal
    → IsCode s
    → receive k (encode s) ≡ handle k (event_of s)
receive-encode k s n h =
    let r = receive_from_normal k.modifiers k.buffer s h in
    subst (λ state. receive (driver state k.modifiers k.buffer) (encode s) ≡ handle k (event_of s))
      (sym n) r

-- From the normal state, the bytes of the release of Print Screen leave the whole driver as it
-- was, and their first three lead to the same state as those of Print Screen pressed.
pub print_screen_release_lost :
    (k : Keyboard)
    → k.state ≡ normal
    → (receive k (0xe0 ∷ 0xb7 ∷ 0xe0 ∷ 0xaa ∷ []) ≡ k)
      × (receive k (0xe0 ∷ 0xb7 ∷ 0xe0 ∷ []) ≡ receive k (0xe0 ∷ 0x2a ∷ 0xe0 ∷ []))
unfolding receive irq_callback switch
print_screen_release_lost k n =
    let eta = ap (λ state. driver state k.modifiers k.buffer) n in
    subst
      (λ j.
        (receive j (0xe0 ∷ 0xb7 ∷ 0xe0 ∷ 0xaa ∷ []) ≡ j)
        × (receive j (0xe0 ∷ 0xb7 ∷ 0xe0 ∷ []) ≡ receive j (0xe0 ∷ 0x2a ∷ 0xe0 ∷ [])))
      (sym eta) (refl, refl)

abbrev is_e0b7e0 : State → Bool
is_e0b7e0 prefix_e0b7e0 = true
is_e0b7e0 _ = false

switch_unreached :
    (state : State) (raw : ℕ) (state' : State)
    → switch state raw ≡ some state'
    → is_e0b7e0 state' ≡ false
unfolding switch
switch_unreached normal raw state' h = ground (arith, h)
switch_unreached prefix_e0 raw state' h = ground (arith, h)
switch_unreached prefix_e02a raw state' h = ground (arith, h)
switch_unreached prefix_e02ae0 raw state' h = ground (arith, h)
switch_unreached prefix_e0b7 raw state' h = ground (arith, h)
switch_unreached prefix_e0b7e0 raw state' h = ground (arith, h)
switch_unreached prefix_e1 raw state' h = ground (arith, h)
switch_unreached prefix_e11d raw state' h = ground (arith, h)
switch_unreached prefix_e11d45 raw state' h = ground (arith, h)
switch_unreached prefix_e11d45e1 raw state' h = ground (arith, h)
switch_unreached prefix_e11d45e19d raw state' h = ground (arith, h)
switch_unreached invalid raw state' h = ground (arith, h)
switch_unreached uninitialized raw state' h = ground (arith, h)

irq_callback_unreached : (k : Keyboard) (raw : ℕ) → is_e0b7e0 (irq_callback k raw).state ≡ false
unfolding irq_callback complete
irq_callback_unreached k raw = elim (Option-cases (switch k.state raw)) [
  | inl e ↦ rw (e, irq_callback)
  | inr (state', e) ↦ rw (e, irq_callback) (switch_unreached k.state raw state' e)
]

-- From any other state, no sequence of bytes leads to the state that the release of the print
-- screen key is decoded in.
pub state_unreached :
    (bytes : List ℕ) (k : Keyboard)
    → k.state ≢ prefix_e0b7e0
    → (receive k bytes).state ≢ prefix_e0b7e0
unfolding receive
state_unreached [] k h = h
state_unreached (raw ∷ rest) k h =
    state_unreached rest (irq_callback k raw) (λ e. ground (arith, irq_callback_unreached k raw, e))

resynchronise_from :
    (state : State) (m : Modifiers) (b : KeyBuffer)
    → (receive (driver state m b) (0xc5 ∷ 0xc5 ∷ [])).state ≡ normal
unfolding receive irq_callback switch complete
resynchronise_from uninitialized m b = refl
resynchronise_from normal m b = refl
resynchronise_from prefix_e0 m b = refl
resynchronise_from prefix_e02a m b = refl
resynchronise_from prefix_e02ae0 m b = refl
resynchronise_from prefix_e0b7 m b = refl
resynchronise_from prefix_e0b7e0 m b = refl
resynchronise_from prefix_e1 m b = refl
resynchronise_from prefix_e11d m b = refl
resynchronise_from prefix_e11d45 m b = refl
resynchronise_from prefix_e11d45e1 m b = refl
resynchronise_from prefix_e11d45e19d m b = refl
resynchronise_from invalid m b = refl

-- Whatever the bytes before were, two bytes 0xc5 bring the state machine to the normal state.
pub resynchronise :
    (k : Keyboard) (bytes : List ℕ) → (receive k (bytes ++ (0xc5 ∷ 0xc5 ∷ []))).state ≡ normal
unfolding receive
resynchronise k [] = resynchronise_from k.state k.modifiers k.buffer
resynchronise k (raw ∷ rest) = resynchronise (irq_callback k raw) rest
