-- ===== src/Boot/Main.antt =====
-- `kmain` up to the page tables: it stops at the first thing that is missing, or all is prepared.
use j_oe_s.Base.{
  ℕ, ◌≤◌, ◌≡◌, ◌⊎◌, inl, inr, Option, some, List, [], ◌∷◌, Bool-cases, Option-cases, refl, ap, sym,
  ◌∙◌, arith, subst,
}
use j_oe_s.Drivers.Port.{Bus, Machine}
use j_oe_s.Drivers.Serial.{serial_init}
use j_oe_s.Cpu.Idt.{idt_init}
use j_oe_s.Format.Logging.{logging_set_backend}
use j_oe_s.Terminal.{terminal_init}
use j_oe_s.Terminal.Drawing.{Framebuffer, Charset}
use j_oe_s.Memory.Pmm.{MemmapEntry}
use j_oe_s.Boot.{
  Responses, Addresses, Stop, no_revision, no_framebuffer, no_serial, Kernel, cell_width,
  cell_height, find_memory, start_serial, start_tables, start_terminal, kmain, note,
  logged_on_terminal,
}
use j_oe_s.Boot.Messages.{serial_failed, level_of, string_of, string_of-plain}
use j_oe_s.Drivers.Serial.Log.{IsReady, com1, logging_log_msg-plain}
use j_oe_s.Boot.Greeting.{Ready, greet_lem, writes_text}
use j_oe_s.Boot.Early.{
  IsMemoryMap, HasScreen, Untouched, Halts, Prepared, Outcome, serial_init_lem, find_memory_lem,
}

module _ {D : Type 0} (bus : Bus D) (fuel : ℕ) (charset : Charset) (isr : ℕ → ℕ)
    (addresses : Addresses) (r : Responses) where
  module _ (ready : IsReady bus fuel)
      (map : (entries : List MemmapEntry) → r.memmap ≡ some entries → IsMemoryMap entries)
      (k0 : Kernel D) where
    abbrev Reached : Option (Stop × Kernel D) → Type 0
    Reached result = Outcome bus fuel charset isr addresses r ready map k0 result

    abbrev loaded : Kernel D → Kernel D
    loaded k = start_tables bus fuel charset isr addresses r k

    -- The steps between the terminal and the serial port leave the machine alone.
    start_serial_lem :
        (k : Kernel D)
        → HasScreen bus fuel charset isr addresses r
        → Ready k.screen
        → k.machine ≡ k0.machine
        → k.cr3 ≡ k0.cr3
        → k.controller ≡ k0.controller
        → k.idt ≡ k0.idt
        → Reached (start_serial bus fuel charset isr addresses r (loaded k))
    unfolding start_serial logged_on_terminal
    start_serial_lem k found on machine cr3 controller idt =
        let (m', same, cases) = serial_init_lem bus fuel charset isr addresses r k0.machine in
        let init_at = λ (m : Machine D). serial_init bus fuel com1 38400 3 m in
        elim cases [
          | inr e ↦
              let (text, made) =
                logging_log_msg-plain k.site (level_of serial_failed) (string_of serial_failed) []
                  (string_of-plain serial_failed) in
              let (screen, shown) = writes_text charset text k.screen on in
              inl (record {
                stop = no_serial;
                after = note serial_failed (record (loaded k) { machine = m'; screen = screen });
                returns =
                    rw (ap init_at machine ∙ e, start_serial, logged_on_terminal, made, shown) refl;
                blames = (found, (m', e));
                untouched = record {
                  same_interrupts = same;
                  same_cr3 = cr3;
                  same_controller = controller;
                };
              })
          | inl e ↦
              let k' = record (loaded k) {
                machine = m';
                backend =
                    logging_set_backend addresses.serial_log_write addresses.serial_config
                      k.backend;
              } in
              let eq : start_serial bus fuel charset isr addresses r (loaded k)
                  ≡ find_memory bus fuel charset isr addresses r k' =
                rw (ap init_at machine ∙ e, start_serial) refl in
              subst Reached (sym eq) (
                find_memory_lem bus fuel charset isr addresses r ready map k0 k' (record {
                  found = (found, (m', e));
                  gdt_made = refl;
                  gdt_loaded = refl;
                  idt_made = ap (idt_init isr) idt;
                  idt_loaded = refl;
                  logs = refl;
                  untouched = record {
                    same_interrupts = same;
                    same_cr3 = cr3;
                    same_controller = controller;
                  };
                }))
        ]

    start_terminal_lem :
        (f : Framebuffer)
        → HasScreen bus fuel charset isr addresses r
        → cell_width ≤ f.width
        → cell_height ≤ f.height
        → Reached (start_terminal bus fuel charset isr addresses r f k0)
    unfolding start_terminal terminal_init
    start_terminal_lem f found wide high =
        let (s', e, on) =
          greet_lem charset (record k0.screen { terminal = terminal_init f cell_width cell_height })
            (
              (wide, high),
              record {
                right = omega (arith, wide);
                bottom = omega (arith, high);
                byte_x = omega arith;
                byte_y = omega arith;
              },
            ) in
        let k' = record k0 {
          screen = s';
          backend = logging_set_backend addresses.terminal_log_write 0 k0.backend;
        } in
        let eq : start_terminal bus fuel charset isr addresses r f k0
            ≡ start_serial bus fuel charset isr addresses r (loaded k') =
          rw (e, start_terminal) refl in
        subst Reached (sym eq) (start_serial_lem k' found on refl refl refl refl)

  unchanged : (k : Kernel D) → Untouched k k
  unchanged k = record { same_interrupts = refl; same_cr3 = refl; same_controller = refl }

  -- With a serial port that gets ready in the rounds given, on a screen that has room for a character
  -- cell, and with a memory map of fewer than 2^32 entries that start at different addresses, end below
  -- 2^64 and, where they are usable, are multiples of eight pages long, if the bootloader gives one:
  -- `kmain` stops at the first thing that is missing, with all before it in order (the revision, a
  -- framebuffer, the loopback of the serial port, the memory map, the offset of the direct map, room
  -- for the metadata of the memory manager), and with interrupts, page table and PS/2 controller as they
  -- were; or all of them are in order, and it goes on to the page tables with a valid memory manager,
  -- with the descriptor tables made and loaded, the log on the serial port, and interrupts, page table
  -- and controller as they were.
  pub kmain-Outcome :
      (k : Kernel D)
      → IsReady bus fuel
      → ((f : Framebuffer) (rest : List Framebuffer)
          → r.framebuffers ≡ some (f ∷ rest)
          → (cell_width ≤ f.width) × (cell_height ≤ f.height))
      → ((entries : List MemmapEntry) → r.memmap ≡ some entries → IsMemoryMap entries)
      → Halts bus fuel charset isr addresses r k (kmain bus fuel charset isr addresses r k)
        ⊎ Prepared bus fuel charset isr addresses r k (kmain bus fuel charset isr addresses r k)
  unfolding kmain start_terminal start_serial find_memory
  kmain-Outcome k ready screen map = elim (Bool-cases r.revision_supported) [
    | inr old ↦ inl (record {
      stop = no_revision;
      after = k;
      returns = rw (old, kmain) refl;
      blames = old;
      untouched = unchanged k;
    })
    | inl new ↦ elim (Option-cases r.framebuffers) [
      | inl absent ↦ inl (record {
        stop = no_framebuffer;
        after = k;
        returns = rw (new, kmain, absent) refl;
        blames = (new, inl absent);
        untouched = unchanged k;
      })
      | inr ([], e) ↦ inl (record {
        stop = no_framebuffer;
        after = k;
        returns = rw (new, kmain, e) refl;
        blames = (new, inr e);
        untouched = unchanged k;
      })
      | inr (f ∷ rest, e) ↦
          let fits = screen f rest e in
          let eq : kmain bus fuel charset isr addresses r k
              ≡ start_terminal bus fuel charset isr addresses r f k =
            rw (new, kmain, e) refl in
          subst
            (λ o.
              Halts bus fuel charset isr addresses r k o
              ⊎ Prepared bus fuel charset isr addresses r k o)
            (sym eq) (start_terminal_lem ready map k f (new, (f, rest, e)) fits.0 fits.1)
    ]
  ]
