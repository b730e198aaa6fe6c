-- ===== src/Boot/Tests.antt =====
-- The theorems on `kmain` at concrete machines.
use j_oe_s.Base.{
  ℕ, ◌^◌, ◌≤◌, ap, ◌≡◌, ◌⊎◌, true, none, some, List, [], ◌∷◌, refl, subst, eq_of_some, arith,
}
use j_oe_s.Drivers.Port.{Bus, Machine, port_read_byte}
use j_oe_s.Drivers.Tests.{Pending, fresh, idle}
use j_oe_s.Cpu.Idt.{GateDescriptor}
use j_oe_s.Format.Logging.{initial_backend}
use j_oe_s.Terminal.{terminal_init}
use j_oe_s.Terminal.Drawing.{Framebuffer}
use j_oe_s.Memory.Pmm.{MemmapEntry}
use j_oe_s.Memory.Pmm.Setup.{initial}
use j_oe_s.Memory.Pmm.Setup.Examples.{memmap, memmap-IsFine, memmap-IsDistinct}
use j_oe_s.Memory.Paging.{Paging}
use j_oe_s.Memory.Tests.Tables.{paging}
use j_oe_s.Boot.{Responses, Addresses, Kernel, cell_width, cell_height, kmain}
use j_oe_s.Drivers.Serial.Log.{IsReady}
use j_oe_s.Drivers.Port.Io.{wait_while}
use j_oe_s.Boot.Early.{IsMemoryMap, Halts, Prepared}
use j_oe_s.Boot.Main.{kmain-Outcome}

abbrev screen_of : Framebuffer
screen_of = record { width = 640; height = 480; pitch = 2560; bpp = 32 }

abbrev no_gate : GateDescriptor
no_gate = record {
  offset_low = 0;
  segment_selector = 0;
  ist = 0;
  type_attributes = 0;
  offset_mid = 0;
  offset_high = 0;
  reserved = 0;
}

abbrev kernel_of : {D : Type 0} → Machine D → Paging → Kernel D
kernel_of m p = record {
  machine = m;
  screen = record { terminal = terminal_init screen_of 0 0; pixels = λ i. 0 };
  backend = initial_backend;
  messages = [];
  site = record {
    memory = λ a. 0;
    buffer = 64;
    file = b'm' ∷ [];
    logging_file = b'l' ∷ [];
    backend = initial_backend;
  };
  gdt = [];
  gdtr = none;
  idt = λ i. no_gate;
  idtr = none;
  paging = p;
  cr3 = 0;
  controller = fresh;
}

-- A serial port that sends back the test byte.
abbrev echo : Bus ℕ
echo = record { read = λ port d. (0x69, d); write = λ port v d. v }

echo-IsReady : IsReady echo 1
unfolding wait_while port_read_byte
echo-IsReady m = (_, refl)

abbrev quiet : Machine ℕ
quiet = record { device = 0; log = []; interrupts = true }

abbrev unused : Paging
unused = record { entries = λ t i. 0; pmm = initial 0 0 0 []; hhdm_offset = 0; invalidated = [] }

abbrev addresses : Addresses
addresses = record {
  terminal_log_write = 1;
  serial_log_write = 2;
  serial_config = 3;
  gdt = 4;
  idt = 5;
}

abbrev responses : Responses
responses = record {
  revision_supported = true;
  framebuffers = some (screen_of ∷ []);
  memmap = some memmap;
  hhdm = some (2 ^ 46);
}

abbrev width_of : List Framebuffer → ℕ
width_of [] = 0
width_of (f ∷ rest) = f.width

abbrev height_of : List Framebuffer → ℕ
height_of [] = 0
height_of (f ∷ rest) = f.height

first_of :
    (f : Framebuffer) (rest : List Framebuffer)
    → some (screen_of ∷ []) ≡ some (f ∷ rest)
    → (cell_width ≤ f.width) × (cell_height ≤ f.height)
first_of f rest e =
    (omega (arith, ap width_of (eq_of_some e)), omega (arith, ap height_of (eq_of_some e)))

memmap-IsMemoryMap : (entries : List MemmapEntry) → some memmap ≡ some entries → IsMemoryMap entries
memmap-IsMemoryMap entries e =
    subst IsMemoryMap (eq_of_some e)
      (record { few = omega arith; fine = memmap-IsFine; distinct = memmap-IsDistinct })

kmain-Outcome_example :
    Halts echo 1
      (λ c i. 0)
      (λ v. v)
      addresses
      responses
      (kernel_of quiet unused)
      (kmain echo 1 (λ c i. 0) (λ v. v) addresses responses (kernel_of quiet unused))
    ⊎ Prepared echo 1
        (λ c i. 0)
        (λ v. v)
        addresses
        responses
        (kernel_of quiet unused)
        (kmain echo 1 (λ c i. 0) (λ v. v) addresses responses (kernel_of quiet unused))
kmain-Outcome_example =
    kmain-Outcome echo 1 (λ c i. 0) (λ v. v) addresses responses (kernel_of quiet unused)
      echo-IsReady first_of memmap-IsMemoryMap

abbrev machine : Kernel Pending
machine = kernel_of idle paging
