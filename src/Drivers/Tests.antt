-- ===== src/Drivers/Tests.antt =====
-- Concrete devices, and runs of the drivers at them.
use j_oe_s.Base.{
  ℕ, ◌+◌, ◌-◌, ◌*◌, ◌/◌, ◌<◌, ◌≤◌, ◌≡◌, ◌⊎◌, min, refl, Bool, true, false, List, [], ◌∷◌, some,
  ◌==◌, if◌then◌else◌, u8, arith,
}
use j_oe_s.Libc.{Memory}
use j_oe_s.Keyboard.Buffer.{empty_buffer}
use j_oe_s.Keyboard.Modifiers.{no_modifiers}
use j_oe_s.Keyboard.Irq.{uninitialized}
use j_oe_s.Drivers.Port.{Bus, Machine, Access, wrote, port_read_byte}
use j_oe_s.Drivers.Serial.Log.{IsReady}
use j_oe_s.Drivers.Port.Io.{◌>>=◌, wait_while}
use j_oe_s.Drivers.Pic.{pic_enable_irq, pic_disable_irq, pic1_data, pic2_data}
use j_oe_s.Drivers.Pic.Mask.{MaskRegisters, masked, pic_enable_irq-pic_disable_irq-masked}
use j_oe_s.Drivers.Pit.{
  pit_ok, frequency_out_of_bounds, pit_init_channel, pit_init_channel_lem, control_word,
}
use j_oe_s.Drivers.Serial.{serial_read_byte, serial_read_line}
use j_oe_s.Drivers.Serial.Line.{serial_read_line_lem}
use j_oe_s.Drivers.Ps2.{
  Ps2Error, ps2_ok, no_ack, input_buffer_full, ps2_send_byte, flush_loop, ps2_command,
}
use j_oe_s.Drivers.Ps2.Send.{writes, Acknowledged, ps2_send_byte_lem}
use j_oe_s.Drivers.Ps2.Quiet.{masks, Responsive}
use j_oe_s.Drivers.Ps2.Controller.{Controller, Result, ps2_init_controller}
use j_oe_s.Drivers.Ps2.Controller.Outcome.{Usable, Failed}
use j_oe_s.Drivers.Ps2.Controller.Init.{ps2_init_controller_lem}

-- Two interrupt controllers that hold their mask registers.
abbrev masks_bus : Bus (ℕ × ℕ)
masks_bus = record {
  read = λ port d. (if port == pic1_data then u8 d.0 else u8 d.1, d);
  write =
      λ port v d. if port == pic1_data then (v, d.1) else if port == pic2_data then (d.0, v) else d;
}

abbrev mask_registers : MaskRegisters masks_bus
mask_registers = record {
  mask1 = λ d. u8 d.0;
  mask2 = λ d. u8 d.1;
  small1 = λ d. omega arith;
  small2 = λ d. omega arith;
  read1 = λ d. refl;
  read2 = λ d. refl;
  write1 = λ v d h. omega arith;
  write2 = λ v d h. omega arith;
  keep1 = λ v d. refl;
  keep2 = λ v d. refl;
}

abbrev all_masked : Machine (ℕ × ℕ)
all_masked = record { device = (255, 255); log = []; interrupts = false }

pic_masked_example :
    (masked mask_registers (pic_enable_irq masks_bus 12 all_masked) 4
      ≡ (if 12 == 4 then false else masked mask_registers all_masked 4))
    × (masked mask_registers (pic_disable_irq masks_bus 12 all_masked) 4
        ≡ (if 12 == 4 then true else masked mask_registers all_masked 4))
pic_masked_example =
    pic_enable_irq-pic_disable_irq-masked mask_registers 12 4 all_masked (omega arith) (omega arith)

pit_init_channel_example :
    let (r, m') = pit_init_channel masks_bus 0x40 18 4 all_masked in
    ((r ≡ frequency_out_of_bounds)
      × ((18 < 18) ⊎ (1193182 < 18))
      × (m' ≡ record all_masked { interrupts = false }))
    ⊎ ((r ≡ pit_ok)
        × (18 ≤ 18)
        × (18 ≤ 1193182)
        × (m'.interrupts ≡ true)
        × ((low : ℕ) × (high : ℕ) × (m'.log
              ≡ wrote 0x40 high ∷ wrote 0x40 low ∷ wrote 0x43 (u8 (control_word 0x40 4)) ∷ [])
            × (low + high * 256 ≡ min (1193182 / 18) 65535)
            × (1 ≤ low + high * 256)))
pit_init_channel_example = pit_init_channel_lem masks_bus 0x40 18 4 all_masked (omega arith)

-- A serial port whose other end counts.
abbrev counting : Bus ℕ
counting = record {
  read = λ port n. if port == 0x3fd then (0x21, n) else (n, n + 1);
  write = λ port v n. n;
}

counting-answers :
    (m : Machine ℕ)
    → (v : ℕ) × (m' : Machine ℕ) × (serial_read_byte counting 1 0x3f8 m ≡ some (v, m'))
unfolding serial_read_byte ◌>>=◌ wait_while port_read_byte
counting-answers m = (_, _, refl)

abbrev from_two : Machine ℕ
from_two = record { device = 2; log = []; interrupts = true }

abbrev blank : Memory
blank _ = 7

serial_read_line_example :
    (memory' : Memory) × (m' : Machine ℕ) × (n : ℕ) × (serial_read_line counting 1 0x3f8 100 4 blank
        from_two
      ≡ some (memory', m'))
    × (2 ≤ n)
    × (n ≤ 4)
    × (memory' (100 + n) ≡ 0)
    × ((memory' (100 + (n - 1)) ≡ 10)
        ⊎ ((n ≡ 4) × (memory' (100 + (n - 1)) ≡ blank (100 + (n - 1)))))
    × ((x : ℕ) → (x < 100) ⊎ (100 + n < x) → memory' x ≡ blank x)
serial_read_line_example =
    serial_read_line_lem counting 1 0x3f8 counting-answers 100 4 blank from_two (omega arith)

-- What a keyboard controller has in its output buffer, and its answers.
pub data Pending : Type 0 where
  empty : Pending
  one : ℕ → Pending

abbrev answer_of : ℕ → Pending
answer_of command =
    if command == 0xaa then one 0x55 else if command == 0xab then one 0 else one 0x47

abbrev status_of : Pending → ℕ
status_of empty = 0
status_of (one v) = 1

abbrev byte_of : Pending → ℕ
byte_of empty = 0
byte_of (one v) = v

abbrev pub controller_bus : Bus Pending
controller_bus = record {
  read = λ port d.
      if port == 0x64
      then (status_of d, d)
      else if port == 0x3fd
      then (0x20, d)
      else (byte_of d, empty);
  write = λ port v d. if port == 0x64 then answer_of v else if port == 0x60 then one 0xfa else d;
}

abbrev pub machine_of : Pending → List Access → Bool → Machine Pending
machine_of d log interrupts = record { device = d; log = log; interrupts = interrupts }

takes_all :
    (d : Pending) (log : List Access) (interrupts : Bool)
    → (m' : Machine Pending) × (wait_while controller_bus 2 input_buffer_full ps2_command
          (machine_of d log interrupts)
        ≡ some (tt, m'))
unfolding wait_while port_read_byte
takes_all empty log interrupts = (_, refl)
takes_all (one v) log interrupts = (_, refl)

drains_all :
    (d : Pending) (log : List Access) (interrupts : Bool)
    → (m' : Machine Pending) × (flush_loop controller_bus 2 (machine_of d log interrupts)
        ≡ some (tt, m'))
unfolding flush_loop port_read_byte
drains_all empty log interrupts = (_, refl)
drains_all (one v) log interrupts = (_, refl)

pub controller-Responsive : Responsive controller_bus 2
controller-Responsive = record {
  takes = λ m. takes_all m.device m.log m.interrupts;
  drains = λ m. drains_all m.device m.log m.interrupts;
}

abbrev pub idle : Machine Pending
idle = record { device = empty; log = []; interrupts = false }

ps2_send_byte_example :
    (r : Ps2Error) × (m' : Machine Pending) × (ps2_send_byte controller_bus 2 1 0xf4 idle
      ≡ some (r, m'))
    × (writes m'.log ≤ writes [] + 5)
    × (((r ≡ ps2_ok) × Acknowledged 0xf4 m'.log) ⊎ (r ≡ no_ack))
ps2_send_byte_example = ps2_send_byte_lem controller_bus 2 1 0xf4 (omega arith) idle

abbrev pub fresh : Controller
fresh = record {
  port_2_supported = false;
  port_1_works = false;
  port_2_works = false;
  port_1_populated = false;
  device_type_port_1 = 0;
  port_2_populated = false;
  device_type_port_2 = 0;
  driver = record {
    port = 0;
    keyboard = record { state = uninitialized; modifiers = no_modifiers; buffer = empty_buffer };
  };
}

ps2_init_controller_example :
    (r : Result) × (m' : Machine Pending) × (ps2_init_controller controller_bus 2 fresh idle
      ≡ some (r, m'))
    × (((r.0 ≡ ps2_ok) × Usable r.1 × (masks m'.log ≡ masks [] + 1))
        ⊎ (Failed r × (masks m'.log ≡ masks [])))
ps2_init_controller_example = ps2_init_controller_lem controller-Responsive fresh idle

pub controller-IsReady : IsReady controller_bus 2
unfolding wait_while port_read_byte
controller-IsReady m = (_, refl)
