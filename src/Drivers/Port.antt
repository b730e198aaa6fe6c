-- ===== src/Drivers/Port.antt =====
-- kernel/include/cpu/port_io.h: the I/O ports. What is behind them is a parameter: a device of any
-- type, with the answer that it gives to `in` and the change that `out` makes. The machine also
-- keeps the interrupt flag, which `cli` and `sti` write, and a record of the accesses, newest first.
pub mod Io
pub mod Total
use j_oe_s.Base.{ℕ, Bool, true, false, Option, none, some, List, [], ◌∷◌, u8, u16}

pub data Access : Type 0 where
  was_read wrote : ℕ → ℕ → Access

pub record Bus (D : Type 0) : Type 0 where
  pub read : ℕ → D → ℕ × D
  pub write : ℕ → ℕ → D → D

pub record Machine (D : Type 0) : Type 0 where
  pub device : D
  pub log : List Access
  pub interrupts : Bool

module _ {D : Type 0} (bus : Bus D) where
  -- `port_write_byte`
  unfoldable pub port_write_byte : ℕ → ℕ → Machine D → Machine D
  port_write_byte port data' m = record m {
    device = bus.write (u16 port) (u8 data') m.device;
    log = wrote (u16 port) (u8 data') ∷ m.log;
  }

  -- `port_read_byte`
  unfoldable pub port_read_byte : ℕ → Machine D → ℕ × Machine D
  port_read_byte port m =
      let (answer, device') = bus.read (u16 port) m.device in
      (u8 answer, record m { device = device'; log = was_read (u16 port) (u8 answer) ∷ m.log })

module _ {D : Type 0} where
  -- `asm("cli")` and `asm("sti")`
  abbrev pub cli : Machine D → Machine D
  cli m = record m { interrupts = false }

  abbrev pub sti : Machine D → Machine D
  sti m = record m { interrupts = true }
