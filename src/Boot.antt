-- ===== src/Boot.antt =====
-- kernel/src/main.c: `kmain`, over the models of the parts that it sets up. What the bootloader answers,
-- the device behind the ports, the memory, and the addresses of the stubs and variables are parameters.
-- Every way ends in `hcf`: the result is the one that is reached, with the state there.
pub mod Messages
pub mod Logged
pub mod Greeting
pub mod Early
pub mod Main
pub mod Mapping
mod Tests
use j_oe_s.Base.{
  ℕ, ◌+◌, ◌-◌, ◌%◌, ◌^◌, Bool, true, false, Option, none, some, List, [], ◌∷◌, ◌++◌, bit_or, add64,
  sub64, if◌then◌else◌,
}
use j_oe_s.Drivers.Port.{Bus, Machine, sti}
use j_oe_s.Drivers.Pic.{pic_init, pic_enable_irq}
use j_oe_s.Drivers.Pit.{pit_init_channel, pit_channel_0}
use j_oe_s.Drivers.Serial.{SerialError, serial_ok, serial_init}
use j_oe_s.Drivers.Ps2.Controller.{Controller, ps2_init_controller}
use j_oe_s.Cpu.Gdt.{SegmentDescriptor, TablePointer, gdt_init, gdt_pointer}
use j_oe_s.Cpu.Idt.{Table, idt_init, idt_pointer}
use j_oe_s.Drivers.Serial.Log.{Site, com1, message_text, log_msg}
use j_oe_s.Boot.Messages.{
  KernelMessage, serial_failed, no_map_message, no_hhdm_message, clone_failed, cloned, before_cr3,
  after_cr3, testing, map_failed, unmap_failed, no_errors, level_of, string_of,
}
use j_oe_s.Format.Logging.{Backend, logging_set_backend}
use j_oe_s.Terminal.{
  Screen, terminal_init, terminal_set_color, terminal_put_char, terminal_write_string,
}
use j_oe_s.Terminal.Drawing.{Framebuffer, Charset}
use j_oe_s.Memory.Pmm
use j_oe_s.Memory.Pmm.{MemmapEntry, ok}
use j_oe_s.Memory.Pmm.Setup
use j_oe_s.Memory.Paging.{Paging, PagingStatus, paging_ok, paging_error, map_page}
use j_oe_s.Memory.Paging.Entry.{size_4kb, flag_present, flag_writable}
use j_oe_s.Memory.Paging.Unmap.{unmap_page}
use j_oe_s.Memory.Paging.Clone.{clone_page_table}

-- What the bootloader answers to the requests; `none` is a response that is NULL.
pub record Responses : Type 0 where
  pub revision_supported : Bool
  pub framebuffers : Option (List Framebuffer)
  pub memmap : Option (List MemmapEntry)
  pub hhdm : Option ℕ

-- The addresses that the code takes: of the write functions, of a variable, and of the two tables.
pub record Addresses : Type 0 where
  pub terminal_log_write : ℕ
  pub serial_log_write : ℕ
  pub serial_config : ℕ
  pub gdt : ℕ
  pub idt : ℕ

-- The `hcf` that is reached.
pub data Stop : Type 0 where
  no_revision no_framebuffer no_serial no_memory_map no_hhdm no_memory no_clone finished : Stop

pub record Kernel (D : Type 0) : Type 0 where
  pub machine : Machine D
  pub screen : Screen
  pub backend : Backend
  pub messages : List KernelMessage
  pub site : Site
  pub gdt : List SegmentDescriptor
  pub gdtr : Option TablePointer
  pub idt : Table
  pub idtr : Option TablePointer
  pub paging : Paging
  pub cr3 : ℕ
  pub controller : Controller

-- `CHARACTER_WIDTH * 1.3` and `CHARACTER_HEIGHT * 2.2`
abbrev pub cell_width : ℕ
cell_width = 13

abbrev pub cell_height : ℕ
cell_height = 22

abbrev pub then_screen : Option Screen → (Screen → Option Screen) → Option Screen
then_screen none next = none
then_screen (some s) next = next s

abbrev pub colored : ℕ → Screen → Screen
colored color s = record s { terminal = terminal_set_color color s.terminal }

-- The greeting.
unfoldable pub greet : Charset → Screen → Option Screen
greet charset s =
    then_screen (terminal_write_string charset (b'J' ∷ b'o' ∷ b'e' ∷ 10 ∷ []) s) (λ s1.
      then_screen (terminal_put_char charset b'o' (colored 0xaa0000 s1)) (λ s2.
        then_screen (terminal_put_char charset 9 s2) (λ s3.
          then_screen (terminal_put_char charset b'o' (colored 0xaa00aa s3)) (λ s4.
            then_screen (terminal_put_char charset 10 s4) (λ s5. some (colored 0xffffff s5))))))

-- `paging_init`
abbrev pub paging_init : ℕ → Paging → Paging
paging_init hhdm_offset s = record s { hhdm_offset = hhdm_offset }

-- The page table of the bootloader; the mask leaves out the lowest eleven bits of CR3.
abbrev pub old_pml4 : ℕ → ℕ → ℕ
old_pml4 cr3 hhdm_offset = add64 (cr3 - cr3 % 2 ^ 11) hhdm_offset

abbrev pub pointer_of : Option ℕ → ℕ
pointer_of none = 0
pointer_of (some table) = table

abbrev pub write_text : Charset → Option (List ℕ) → Screen → Option Screen
write_text charset none s = none
write_text charset (some text) s = terminal_write_string charset text s

module _ {D : Type 0} where
  -- The messages so far, in order.
  abbrev pub note : KernelMessage → Kernel D → Kernel D
  note message k = record k { messages = k.messages ++ (message ∷ []) }

  abbrev pub then_kernel :
      Option (Kernel D) → (Kernel D → Option (Stop × Kernel D)) → Option (Stop × Kernel D)
  then_kernel none next = none
  then_kernel (some k) next = next k

  -- A message while the backend is the terminal.
  unfoldable pub logged_on_terminal : Charset → KernelMessage → Kernel D → Option (Kernel D)
  logged_on_terminal charset message k =
      elim (write_text charset (message_text k.site (level_of message) (string_of message) [])
        k.screen) [ none ↦ none | some screen ↦ some (note message (record k { screen = screen })) ]

  module _ (bus : Bus D) (fuel : ℕ) where
    -- A message once the backend is the serial port: its bytes are sent to COM1.
    unfoldable pub logged : KernelMessage → Kernel D → Option (Kernel D)
    logged message k =
        elim (log_msg bus fuel k.site (level_of message) (string_of message) [] k.machine) [
          | none ↦ none
          | some (done, m) ↦ some (note message (record k { machine = m }))
        ]

    -- The message where a call has not returned PAGING_OK.
    abbrev pub report : PagingStatus → KernelMessage → Kernel D → Option (Kernel D)
    report paging_ok message k = some k
    report paging_error message k = logged message k

    abbrev pub stop_with : Stop → KernelMessage → Kernel D → Option (Stop × Kernel D)
    stop_with stop message k = then_kernel (logged message k) (λ k'. some (stop, k'))

    unfoldable pub try_unmapping : ℕ → Kernel D → Option (Stop × Kernel D)
    try_unmapping root k = elim (unmap_page k.paging root 0x7fb000 size_4kb) [
      | none ↦ none
      | some (status, s) ↦
          then_kernel (report status unmap_failed (record k { paging = s }))
            (stop_with finished no_errors)
    ]

    unfoldable pub try_mapping : ℕ → Kernel D → Option (Stop × Kernel D)
    try_mapping root k =
        elim (map_page k.paging root 0x7fb000 0x7fb000 size_4kb
          (bit_or flag_present flag_writable)) [
            | none ↦ none
            | some (status, s) ↦
                then_kernel (report status map_failed (record k { paging = s }))
                  (try_unmapping root)
          ]

    -- The test of a mapping, and the last `hcf`.
    unfoldable pub test_mapping : ℕ → Kernel D → Option (Stop × Kernel D)
    test_mapping root k = then_kernel (logged testing k) (try_mapping root)

    -- The interrupt controllers, the timer and the PS/2 controller.
    unfoldable pub start_devices : Kernel D → Option (Kernel D)
    start_devices k =
        let m1 = sti (pic_init bus 0x20 0x28 k.machine) in
        let m2 = (pit_init_channel bus pit_channel_0 1000 6 m1).1 in
        elim (ps2_init_controller bus fuel k.controller (pic_enable_irq bus 0 m2)) [
          | none ↦ none
          | some ((error, c), m3) ↦ some (record k { machine = m3; controller = c })
        ]

    -- From the new page table on.
    unfoldable pub run : ℕ → ℕ → Kernel D → Option (Stop × Kernel D)
    run hhdm_offset root k = then_kernel (logged cloned k) (λ k1.
        then_kernel (logged before_cr3 k1) (λ k2.
          then_kernel (logged after_cr3 (record k2 { cr3 = sub64 root hhdm_offset }))
            (λ k3. then_kernel (start_devices k3) (test_mapping root))))

    unfoldable pub start_paging : ℕ → Kernel D → Option (Stop × Kernel D)
    start_paging hhdm_offset k =
        let s = paging_init hhdm_offset k.paging in
        elim (clone_page_table s (old_pml4 k.cr3 hhdm_offset) none) [
          | none ↦ none
          | some (paging_error, root, s') ↦
              stop_with no_clone clone_failed (record k { paging = s' })
          | some (paging_ok, root, s') ↦
              run hhdm_offset (pointer_of root) (record k { paging = s' })
        ]

    unfoldable pub start_memory : List MemmapEntry → ℕ → Kernel D → Option (Stop × Kernel D)
    start_memory entries hhdm_offset k = elim (Setup.init entries hhdm_offset) [
      | none ↦ none
      | some (ok, pmm) ↦
          start_paging hhdm_offset (record k { paging = record k.paging { pmm = pmm } })
      | some (_, pmm) ↦ some (no_memory, record k { paging = record k.paging { pmm = pmm } })
    ]

    module _ (charset : Charset) (isr : ℕ → ℕ) (addresses : Addresses) (r : Responses) where
      unfoldable pub find_memory : Kernel D → Option (Stop × Kernel D)
      find_memory k = elim r.memmap [
        | none ↦ stop_with no_memory_map no_map_message k
        | some entries ↦ elim r.hhdm [
          | none ↦ stop_with no_hhdm no_hhdm_message k
          | some hhdm_offset ↦ start_memory entries hhdm_offset k
        ]
      ]

      unfoldable pub start_serial : Kernel D → Option (Stop × Kernel D)
      start_serial k = elim (serial_init bus fuel com1 38400 3 k.machine) [
        | none ↦ none
        | some (serial_ok, m) ↦ find_memory (record k {
          machine = m;
          backend =
              logging_set_backend addresses.serial_log_write addresses.serial_config k.backend;
        })
        | some (_, m) ↦
            then_kernel (logged_on_terminal charset serial_failed (record k { machine = m }))
              (λ k'. some (no_serial, k'))
      ]

      -- The descriptor tables.
      abbrev pub start_tables : Kernel D → Kernel D
      start_tables k = record k {
        gdt = gdt_init;
        gdtr = some (gdt_pointer addresses.gdt);
        idt = idt_init isr k.idt;
        idtr = some (idt_pointer addresses.idt);
      }

      unfoldable pub start_terminal : Framebuffer → Kernel D → Option (Stop × Kernel D)
      start_terminal framebuffer k =
          elim (greet charset
            (record k.screen { terminal = terminal_init framebuffer cell_width cell_height })) [
              | none ↦ none
              | some screen ↦ start_serial (
                  start_tables (record k {
                    screen = screen;
                    backend = logging_set_backend addresses.terminal_log_write 0 k.backend;
                  }))
            ]

      -- `kmain`
      unfoldable pub kmain : Kernel D → Option (Stop × Kernel D)
      kmain k =
          if r.revision_supported
          then (elim r.framebuffers [
            | none ↦ some (no_framebuffer, k)
            | some [] ↦ some (no_framebuffer, k)
            | some (framebuffer ∷ rest) ↦ start_terminal framebuffer k
          ])
          else some (no_revision, k)
