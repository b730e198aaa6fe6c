-- ===== src/Cpu/Tests.antt =====
-- Concrete runs of the descriptor tables and of the interrupt handler.
use j_oe_s.Base.{
  ==→ne, ◌==◌, if◌then◌else◌, none, ◌++◌, ◌∷◌, ℕ, ◌+◌, ◌*◌, ◌%◌, ◌^◌, ◌<◌, ◌≤◌, ◌≡◌, refl, ◌-◌, ◌⊎◌,
  [], some, false, arith,
}
use j_oe_s.Cpu.Gdt.{
  create_segment_descriptor, create_segment_descriptor_lem, base_of, limit_of, flags_of,
}
use j_oe_s.Keyboard.KeyCode.{key_a}
use j_oe_s.Keyboard.Event.{pressed, key_event_to_ascii}
use j_oe_s.Keyboard.Buffer.{KeyBuffer, empty_buffer, append_key_event}
use j_oe_s.Keyboard.Buffer.Queue.{IsValid, contents, append_key_event-IsValid}
use j_oe_s.Keyboard.Modifiers.{no_modifiers, set_modifiers}
use j_oe_s.Keyboard.Irq.{normal, irq_callback}
use j_oe_s.Keyboard.Irq.Sequences.{plain, encode, event_of}
use j_oe_s.Drivers.Ps2.{ps2_ok, ps2_receive_byte, wait_bounded}
use j_oe_s.Cpu.Interrupts.Typing.{Delivered, nothing, interrupt, timer_case-Delivered}
use j_oe_s.Drivers.Port.{Bus, Machine, was_read, port_read_byte}
use j_oe_s.Cpu.Interrupts.{System, Frame, timer_case, keyboard_case, end_irq, interrupt_handler}
use j_oe_s.Drivers.Port.Io.{wait_while}
use j_oe_s.Drivers.Serial.Log.{Site, IsReady}
use j_oe_s.Format.Logging.{initial_backend}
use j_oe_s.Cpu.Interrupts.Eoi.{Signals, Halts, IsFaulty, interrupt_handler_lem}
use j_oe_s.Cpu.Interrupts.Faults.{IsReported}
use j_oe_s.Cpu.Idt.{Table, Gates, idt_init, idt_init-Gates}

create_segment_descriptor_example :
    (base_of (create_segment_descriptor 0x12345678 0xfffff 0x9a 0xa) ≡ 0x12345678)
    × (limit_of (create_segment_descriptor 0x12345678 0xfffff 0x9a 0xa) ≡ 0xfffff)
    × (flags_of (create_segment_descriptor 0x12345678 0xfffff 0x9a 0xa) ≡ 0xa)
    × ((create_segment_descriptor 0x12345678 0xfffff 0x9a 0xa).access ≡ 0x9a)
create_segment_descriptor_example =
    create_segment_descriptor_lem 0x12345678 0xfffff 0x9a 0xa (omega arith) (omega arith)
      (omega arith)

-- Stubs of 16 bytes each in the upper half of the address space.
abbrev stubs : ℕ → ℕ
stubs v = (2 ^ 63 + v * 16) % 2 ^ 64

abbrev no_gates : Table
no_gates _ = record {
  offset_low = 0;
  segment_selector = 0;
  ist = 0;
  type_attributes = 0;
  offset_mid = 0;
  offset_high = 0;
  reserved = 0;
}

stubs-lt : (v : ℕ) → stubs v < 2 ^ 64
stubs-lt v = omega arith

idt_init_example :
    ((v : ℕ) → v < 256 → Gates (stubs v) (idt_init stubs no_gates v))
    × ((v : ℕ) → 256 ≤ v → idt_init stubs no_gates v ≡ no_gates v)
idt_init_example = idt_init-Gates stubs no_gates stubs-lt

-- A bus that answers 0x1f, the key of the letter s, but for a serial port that is always ready.
abbrev letters : Bus (Unit {0})
letters = record {
  read = λ port d. if port == 0x3fd then (0x20, d) else (0x1f, d);
  write = λ port v d. d;
}

letters-IsReady : IsReady letters 1
unfolding wait_while port_read_byte
letters-IsReady m = (_, refl)

-- The messages of interrupt_handler.c.
abbrev site : Site
site = record {
  memory = λ a. 0;
  buffer = 64;
  file = b'c' ∷ [];
  logging_file = b'l' ∷ [];
  backend = initial_backend;
}

abbrev one_event : KeyBuffer
one_event =
    append_key_event empty_buffer (record { keycode = key_a; pressed = pressed; modifiers = 0 })

empty_buffer-IsValid : IsValid empty_buffer
empty_buffer-IsValid = record {
  stored = refl;
  full_capacity = refl;
  front_in = omega arith;
  size_in = omega arith;
}

one_event-IsValid : IsValid one_event
one_event-IsValid = append_key_event-IsValid empty_buffer _ empty_buffer-IsValid

abbrev running : System (Unit {0})
running = record {
  machine = record { device = tt; log = []; interrupts = false };
  keyboard = record { state = normal; modifiers = no_modifiers; buffer = one_event };
  terminal = [];
  site = site;
  halted = false;
}

abbrev timer_frame : Frame
timer_frame = record { interrupt_vector = 32; error_code = 0; cr2 = 0 }

interrupt_handler_example :
    ((32 ≤ 32)
      × (32 < 48)
      × ((s' : System (Unit {0})) × (interrupt_handler letters 1 33 timer_frame running ≡ some s')
          × Signals letters (32 - 32) running s'))
    ⊎ ((IsReported 32
          × ((s' : System (Unit {0})) × (interrupt_handler letters 1 33 timer_frame running
                ≡ some s')
              × Halts letters running s'))
        ⊎ (IsFaulty 32 × (interrupt_handler letters 1 33 timer_frame running ≡ none)))
interrupt_handler_example =
    interrupt_handler_lem letters 1 letters-IsReady timer_frame running one_event-IsValid
      (omega arith) (omega arith) (omega arith)

-- The same system with nothing in its buffer, and the one after a key's byte.
abbrev quiet : System (Unit {0})
quiet = record running {
  keyboard = record { state = normal; modifiers = no_modifiers; buffer = empty_buffer };
}

abbrev polled : Machine (Unit {0})
polled = record {
  device = tt;
  log = was_read 0x60 0x1f ∷ was_read 0x64 0x1f ∷ [];
  interrupts = false;
}

abbrev pressed_s : System (Unit {0})
pressed_s =
    end_irq letters 1 1
      (record quiet { machine = polled; keyboard = irq_callback quiet.keyboard 0x1f })

s_Delivered : Delivered letters 1 quiet (encode (plain 0x1f)) pressed_s
unfolding ps2_receive_byte wait_bounded port_read_byte keyboard_case
s_Delivered =
    interrupt quiet pressed_s pressed_s ps2_ok 0x1f [] polled refl refl (nothing pressed_s)

timer_case-Delivered_example :
    (s'' : System (Unit {0})) × (timer_case letters 1 33 pressed_s ≡ some s'')
    × (s''.terminal
        ≡ [] ++ key_event_to_ascii (set_modifiers no_modifiers (event_of (plain 0x1f))).1)
    × IsValid s''.keyboard.buffer
    × (contents s''.keyboard.buffer ≡ [])
timer_case-Delivered_example =
    timer_case-Delivered letters 1 quiet pressed_s (plain 0x1f) letters-IsReady refl
      empty_buffer-IsValid refl (omega arith, ==→ne 0x1f 0xe0 refl, ==→ne 0x1f 0xe1 refl)
      s_Delivered
