-- ===== src/Cpu/Interrupts.antt =====
-- kernel/src/cpu/interrupt_handler.c and kernel/include/cpu/interrupt_handler.h. What `printf` sends
-- to the terminal is kept as its bytes. The messages of the log go to the serial port, as `kmain` has
-- set before it enables interrupts; `wait` bounds the rounds that each byte waits for it. `hcf`, which
-- does not return, sets a flag. `none` is also a read of a string or an argument that is not there.
pub mod Descriptions
pub mod Drain
pub mod Eoi
pub mod Faults
pub mod Typing
use j_oe_s.Base.{
  ℕ, zero, suc, ◌+◌, ◌-◌, ◌<◌, Bool, true, false, ◌&&◌, ◌||◌, Option, none, some, List, [], ◌∷◌,
  ◌++◌, ltb, leb, ◌==◌, if◌then◌else◌,
}
use j_oe_s.Keyboard.Event.{KeyEvent, key_event_to_ascii}
use j_oe_s.Keyboard.Buffer.{KeyBuffer, get_key_event}
use j_oe_s.Keyboard.Irq.{Keyboard, irq_callback}
use j_oe_s.Cpu.Interrupts.Descriptions.{description_of}
use j_oe_s.Format.{Argument, a_number, a_string}
use j_oe_s.Format.Logging.{level_debug, level_info, level_error}
use j_oe_s.Drivers.Port.{Bus, Machine}
use j_oe_s.Drivers.Pic.{pic_send_eoi}
use j_oe_s.Drivers.Ps2.{ps2_receive_byte}
use j_oe_s.Drivers.Serial.Log.{Site, log_msg}

-- Of `struct interrupt_stack_frame` what the handler reads, and the register CR2.
pub record Frame : Type 0 where
  pub interrupt_vector : ℕ
  pub error_code : ℕ
  pub cr2 : ℕ

pub record System (D : Type 0) : Type 0 where
  pub machine : Machine D
  pub keyboard : Keyboard
  pub terminal : List ℕ
  pub site : Site
  pub halted : Bool

-- `INT_DESCRIPTION_UNKNOWN_EXCEPTION`, and the vectors at which groups begin.
abbrev pub unknown_exception : ℕ
unknown_exception = 24

abbrev pub page_fault : ℕ
page_fault = 14

abbrev pub ext_int0 : ℕ
ext_int0 = 32

-- The cases whose exceptions have an error code: 8, 10 to 13, 17 and 21.
abbrev pub has_error_code : ℕ → Bool
has_error_code v = v == 8 || ((leb 10 v && leb v 13) || (v == 17 || v == 21))

abbrev pub ext : ℕ → List ℕ → List ℕ
ext digit rest = b'E' ∷ b'X' ∷ b'T' ∷ digit ∷ rest

-- The strings "EXT2\n" to "EXT15\n".
abbrev pub ext_text : ℕ → List ℕ
ext_text irq =
    if ltb irq 10 then ext (b'0' + irq) (10 ∷ []) else ext b'1' ((b'0' + (irq - 10)) ∷ 10 ∷ [])

-- "%s"
abbrev pub string_format : List ℕ
string_format = b'%' ∷ b's' ∷ []

-- What the exceptions pass to their description.
abbrev pub arguments_of : Frame → List Argument
arguments_of f =
    if f.interrupt_vector == page_fault
    then a_number f.error_code ∷ a_number f.cr2 ∷ []
    else if has_error_code f.interrupt_vector
    then a_number f.error_code ∷ []
    else []

module _ {D : Type 0} (bus : Bus D) (wait : ℕ) where
  -- A message of the log.
  unfoldable pub logged : ℕ → List ℕ → List Argument → System D → Option (System D)
  logged level msg arguments s = elim (log_msg bus wait s.site level msg arguments s.machine) [
    | none ↦ none
    | some (done, m) ↦ some (record s { machine = m })
  ]

  -- `LOG_ERROR` of a description, and `hcf`.
  unfoldable pub halt_with : ℕ → List Argument → System D → Option (System D)
  halt_with description arguments s = elim (description_of description) [
    | none ↦ none
    | some msg ↦ elim (logged level_error msg arguments s) [
      | none ↦ none
      | some s' ↦ some (record s' { halted = true })
    ]
  ]

  -- `printf` and `LOG_INFO` of an event's characters.
  unfoldable pub show_event : KeyEvent → KeyBuffer → System D → Option (System D)
  show_event e b s =
      logged level_info string_format (a_string (key_event_to_ascii e) ∷ []) (record s {
        keyboard = record s.keyboard { buffer = b };
        terminal = s.terminal ++ key_event_to_ascii e;
      })

  -- The loop of the timer's case; `none` also for an event read out of range.
  unfoldable pub drain : ℕ → System D → Option (System D)
  drain zero s = none
  drain (suc fuel) s = elim (get_key_event s.keyboard.buffer) [
    | none ↦ some s
    | some (none, b) ↦ none
    | some (some e, b) ↦ elim (show_event e b s) [ none ↦ none | some s' ↦ drain fuel s' ]
  ]

  abbrev pub end_irq : ℕ → System D → System D
  end_irq irq s = record s { machine = pic_send_eoi bus irq s.machine }

  unfoldable pub timer_case : ℕ → System D → Option (System D)
  timer_case fuel s = elim (drain fuel s) [ none ↦ none | some s' ↦ some (end_irq 0 s') ]

  -- `ps2_kbd_irq_callback` begins with `ps2_receive_byte`, whose error code it drops.
  unfoldable pub keyboard_case : System D → Option (System D)
  keyboard_case s = elim (ps2_receive_byte bus s.machine) [
    | none ↦ none
    | some (answer, m) ↦
        some (end_irq 1 (record s { machine = m; keyboard = irq_callback s.keyboard answer.1 }))
  ]

  unfoldable pub external_case : ℕ → ℕ → System D → Option (System D)
  external_case fuel zero s = timer_case fuel s
  external_case fuel (suc zero) s = keyboard_case s
  external_case fuel irq s = elim (logged level_debug (ext_text irq) [] s) [
    | none ↦ none
    | some s' ↦ some (end_irq irq s')
  ]

  unfoldable pub interrupt_handler : ℕ → Frame → System D → Option (System D)
  interrupt_handler fuel f s =
      let v = f.interrupt_vector in
      if ltb v ext_int0
      then halt_with v (arguments_of f) s
      else if ltb v (ext_int0 + 16)
      then external_case fuel (v - ext_int0) s
      else halt_with unknown_exception (a_number v ∷ a_number f.error_code ∷ []) s
