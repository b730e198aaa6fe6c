-- ===== src/Boot/Early.antt =====
-- `kmain` from the serial port to the memory manager: what can be missing, and what is prepared.
use j_oe_s.Base.{
  ℕ, ◌/◌, ◌^◌, ◌<◌, ◌≡◌, ◌⊎◌, inl, inr, Bool, true, false, Option, none, some, List, [], ◌∷◌, ◌≢◌,
  ◌∙◌, length, get_elem?, ◌==◌, Bool-cases, Option-cases, ==_iff, ==→ne, if◌then◌else◌, refl, sym,
  subst,
}
use j_oe_s.Drivers.Port.{Bus, Machine, port_write_byte, port_read_byte}
use j_oe_s.Drivers.Port.Io.{◌>>=◌}
use j_oe_s.Drivers.Serial.{SerialError, serial_ok, loopback_failed, serial_init, serial_test}
use j_oe_s.Cpu.Gdt.{gdt_init, gdt_pointer}
use j_oe_s.Cpu.Idt.{idt_init, idt_pointer}
use j_oe_s.Terminal.Drawing.{Charset, Framebuffer}
use j_oe_s.Memory.Region.{page_size_byte}
use j_oe_s.Memory.Pmm.{Pmm, MemmapEntry, error_init_failed}
use j_oe_s.Memory.Pmm.State
use j_oe_s.Memory.Pmm.Setup
use j_oe_s.Memory.Pmm.Setup.{find_space}
use j_oe_s.Memory.Pmm.Setup.Metadata.{IsFine}
use j_oe_s.Memory.Pmm.Setup.Init.{IsDistinct, metadata_pages, init-IsValid}
use j_oe_s.Boot.{
  Responses, Addresses, Stop, no_revision, no_framebuffer, no_serial, no_memory_map, no_hhdm,
  no_memory, no_clone, finished, Kernel, start_paging, start_memory, find_memory, note,
}
use j_oe_s.Boot.Messages.{no_map_message, no_hhdm_message}
use j_oe_s.Boot.Logged.{logged_lem}
use j_oe_s.Drivers.Serial.Log.{IsReady, com1}

-- The memory map is one that `pmm_init` can take.
pub record IsMemoryMap (entries : List MemmapEntry) : Type 0 where
  pub few : length entries < 2 ^ 32
  pub fine : (i : ℕ) (e : MemmapEntry) → get_elem? entries i ≡ some e → IsFine e
  pub distinct : IsDistinct entries

-- Without room for the metadata, `pmm_init` returns an error.
init_fails :
    (entries : List MemmapEntry) (hhdm_offset : ℕ)
    → find_space entries (metadata_pages entries) ≡ 0
    → (pmm : Pmm) × (Setup.init entries hhdm_offset ≡ some (error_init_failed, pmm))
unfolding Setup.init Setup.detect_memory
init_fails entries hhdm_offset none_fits = (
  Setup.initial (Setup.sum_lengths entries 0 / page_size_byte) (length entries) hhdm_offset [],
  rw (none_fits, Setup.init) refl,
)

-- What the early steps leave alone.
pub record Untouched {D : Type 0} (k k' : Kernel D) : Type 0 where
  pub same_interrupts : k'.machine.interrupts ≡ k.machine.interrupts
  pub same_cr3 : k'.cr3 ≡ k.cr3
  pub same_controller : k'.controller ≡ k.controller

module _ {D : Type 0} (bus : Bus D) (fuel : ℕ) (charset : Charset) (isr : ℕ → ℕ)
    (addresses : Addresses) (r : Responses) where
  -- What has been found in order.
  abbrev pub HasScreen : Type 0
  HasScreen =
      (r.revision_supported ≡ true)
      × ((f : Framebuffer) × (rest : List Framebuffer) × (r.framebuffers ≡ some (f ∷ rest)))

  abbrev pub HasSerial : Kernel D → Type 0
  HasSerial k =
      HasScreen
      × ((m : Machine D) × (serial_init bus fuel com1 38400 3 k.machine ≡ some (serial_ok, m)))

  abbrev pub HasMap : Kernel D → List MemmapEntry → Type 0
  HasMap k entries = HasSerial k × (r.memmap ≡ some entries)

  -- What is missing where `kmain` stops, with all before it in order.
  abbrev pub Blames : Kernel D → Stop → Type 0
  Blames k no_revision = r.revision_supported ≡ false
  Blames k no_framebuffer =
      (r.revision_supported ≡ true) × ((r.framebuffers ≡ none) ⊎ (r.framebuffers ≡ some []))
  Blames k no_serial =
      HasScreen
      × ((m : Machine D) × (serial_init bus fuel com1 38400 3 k.machine
            ≡ some (loopback_failed, m)))
  Blames k no_memory_map = HasSerial k × (r.memmap ≡ none)
  Blames k no_hhdm = (entries : List MemmapEntry) × HasMap k entries × (r.hhdm ≡ none)
  Blames k no_memory =
      (entries : List MemmapEntry) × HasMap k entries
      × ((hhdm_offset : ℕ) × (r.hhdm ≡ some hhdm_offset))
      × (find_space entries (metadata_pages entries) ≡ 0)
  Blames k no_clone = ⊥
  Blames k finished = ⊥

  pub record Halts (k : Kernel D) (result : Option (Stop × Kernel D)) : Type 0 where
    pub stop : Stop
    pub after : Kernel D
    pub returns : result ≡ some (stop, after)
    pub blames : Blames k stop
    pub untouched : Untouched k after

  pub record Prepared (k : Kernel D) (result : Option (Stop × Kernel D)) : Type 0 where
    pub hhdm_offset : ℕ
    pub after : Kernel D
    pub hhdm : r.hhdm ≡ some hhdm_offset
    pub found :
        (entries : List MemmapEntry) × HasMap k entries
        × (find_space entries (metadata_pages entries) ≢ 0)
    pub goes_on : result ≡ start_paging bus fuel hhdm_offset after
    pub valid : State.IsValid after.paging.pmm
    pub gdt_made : after.gdt ≡ gdt_init
    pub gdt_loaded : after.gdtr ≡ some (gdt_pointer addresses.gdt)
    pub idt_made : after.idt ≡ idt_init isr k.idt
    pub idt_loaded : after.idtr ≡ some (idt_pointer addresses.idt)
    pub logs : after.backend.write ≡ addresses.serial_log_write
    pub untouched : Untouched k after

  loopback :
      (b : Bool) (m m' : Machine D) (o : Option (SerialError × Machine D))
      → o ≡ some (if b then serial_ok else loopback_failed, m')
      → m'.interrupts ≡ m.interrupts
      → (m' : Machine D) × (m'.interrupts ≡ m.interrupts)
        × ((o ≡ some (serial_ok, m')) ⊎ (o ≡ some (loopback_failed, m')))
  loopback true m m' o e h = (m', h, inl e)
  loopback false m m' o e h = (m', h, inr e)

  -- `serial_init` of COM1 returns, whatever the device does.
  pub serial_init_lem :
      (m : Machine D)
      → (m' : Machine D) × (m'.interrupts ≡ m.interrupts)
        × ((serial_init bus fuel com1 38400 3 m ≡ some (serial_ok, m'))
            ⊎ (serial_init bus fuel com1 38400 3 m ≡ some (loopback_failed, m')))
  unfolding serial_init serial_test ◌>>=◌ port_write_byte port_read_byte
  serial_init_lem m = loopback _ m _ _ refl refl

  -- The kernel once the descriptor tables are loaded and the log goes to the serial port.
  pub record Half (k0 k : Kernel D) : Type 0 where
    pub found : HasSerial k0
    pub gdt_made : k.gdt ≡ gdt_init
    pub gdt_loaded : k.gdtr ≡ some (gdt_pointer addresses.gdt)
    pub idt_made : k.idt ≡ idt_init isr k0.idt
    pub idt_loaded : k.idtr ≡ some (idt_pointer addresses.idt)
    pub logs : k.backend.write ≡ addresses.serial_log_write
    pub untouched : Untouched k0 k

  module _ (ready : IsReady bus fuel)
      (map : (entries : List MemmapEntry) → r.memmap ≡ some entries → IsMemoryMap entries)
      (k0 : Kernel D) where
    abbrev pub Outcome : Option (Stop × Kernel D) → Type 0
    Outcome result = Halts k0 result ⊎ Prepared k0 result

    start_memory_lem :
        (entries : List MemmapEntry) (hhdm_offset : ℕ) (k : Kernel D)
        → r.memmap ≡ some entries
        → r.hhdm ≡ some hhdm_offset
        → Half k0 k
        → Outcome (start_memory bus fuel entries hhdm_offset k)
    unfolding start_memory
    start_memory_lem entries hhdm_offset k at h half =
        let space = find_space entries (metadata_pages entries) in
        let fine = map entries at in
        elim (Bool-cases (space == 0)) [
          | inl none_fits ↦
              let failed = init_fails entries hhdm_offset ((==_iff space 0).0 none_fits) in
              inl (record {
                stop = no_memory;
                after = record k { paging = record k.paging { pmm = failed.0 } };
                returns = rw (failed.1, start_memory) refl;
                blames =
                    (entries, (half.found, at), (hhdm_offset, h), (==_iff space 0).0 none_fits);
                untouched = record {
                  same_interrupts = half.untouched.same_interrupts;
                  same_cr3 = half.untouched.same_cr3;
                  same_controller = half.untouched.same_controller;
                };
              })
          | inr some_fits ↦
              let (pmm, e, valid) =
                init-IsValid entries hhdm_offset fine.few fine.fine fine.distinct
                  (==→ne space 0 some_fits) in
              inr (record {
                hhdm_offset = hhdm_offset;
                after = record k { paging = record k.paging { pmm = pmm } };
                hhdm = h;
                found = (entries, (half.found, at), ==→ne space 0 some_fits);
                goes_on = rw (e, start_memory) refl;
                valid = valid;
                gdt_made = half.gdt_made;
                gdt_loaded = half.gdt_loaded;
                idt_made = half.idt_made;
                idt_loaded = half.idt_loaded;
                logs = half.logs;
                untouched = record {
                  same_interrupts = half.untouched.same_interrupts;
                  same_cr3 = half.untouched.same_cr3;
                  same_controller = half.untouched.same_controller;
                };
              })
        ]

    pub find_memory_lem :
        (k : Kernel D) → Half k0 k → Outcome (find_memory bus fuel charset isr addresses r k)
    unfolding find_memory
    find_memory_lem k half = elim (Option-cases r.memmap) [
      | inl absent ↦
          let (m', u, e) = logged_lem bus fuel ready no_map_message k in
          inl (record {
            stop = no_memory_map;
            after = note no_map_message (record k { machine = m' });
            returns = rw (absent, find_memory, e) refl;
            blames = (half.found, absent);
            untouched = record {
              same_interrupts = u.same_interrupts ∙ half.untouched.same_interrupts;
              same_cr3 = half.untouched.same_cr3;
              same_controller = half.untouched.same_controller;
            };
          })
      | inr (entries, at) ↦ elim (Option-cases r.hhdm) [
        | inl absent ↦
            let (m', u, e) = logged_lem bus fuel ready no_hhdm_message k in
            inl (record {
              stop = no_hhdm;
              after = note no_hhdm_message (record k { machine = m' });
              returns = rw (at, find_memory, absent, e) refl;
              blames = (entries, (half.found, at), absent);
              untouched = record {
                same_interrupts = u.same_interrupts ∙ half.untouched.same_interrupts;
                same_cr3 = half.untouched.same_cr3;
                same_controller = half.untouched.same_controller;
              };
            })
        | inr (hhdm_offset, h) ↦
            let e : find_memory bus fuel charset isr addresses r k
                ≡ start_memory bus fuel entries hhdm_offset k =
              rw (at, find_memory, h) refl in
            subst Outcome (sym e) (start_memory_lem entries hhdm_offset k at h half)
      ]
    ]
