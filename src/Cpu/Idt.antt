-- ===== src/Cpu/Idt.antt =====
-- kernel/src/cpu/idt.c and kernel/include/cpu/idt.h: the interrupt gates. The addresses of the
-- assembly stubs are a parameter; the instruction that loads the table is not modelled, and its
-- operand is a value.
use j_oe_s.Base.{
  ℕ, zero, suc, ◌+◌, ◌-◌, ◌*◌, ◌/◌, ◌%◌, ◌^◌, ◌<◌, ◌≤◌, ◌≡◌, refl, bit_and, bit_or, u8, u16, u32,
  shifted_one, ◌==◌, ==_iff, if◌then◌else◌, Bool-cases, ◌⊎◌, inl, inr, ◌≢◌, ◌∙◌, arith,
}
use j_oe_s.Cpu.Gdt.{TablePointer}

pub record GateDescriptor : Type 0 where
  pub offset_low : ℕ
  pub segment_selector : ℕ
  pub ist : ℕ
  pub type_attributes : ℕ
  pub offset_mid : ℕ
  pub offset_high : ℕ
  pub reserved : ℕ

-- `IDT_ATTRIBUTES(dpl, gate_type)` and `IDT_GATE_TYPE_INT_GATE`
abbrev pub attributes_of : ℕ → ℕ → ℕ
attributes_of dpl gate_type = bit_or (bit_or 0x80 (bit_and dpl 0x3 * 2 ^ 5)) (bit_and gate_type 0xf)

abbrev pub gate_type_int_gate : ℕ
gate_type_int_gate = 0xe

-- `idt_create_entry`
unfoldable pub idt_create_entry : ℕ → ℕ → ℕ → ℕ → GateDescriptor
idt_create_entry offset segment_selector ist attributes = record {
  offset_low = u16 offset;
  segment_selector = segment_selector;
  ist = bit_and ist 0x7;
  type_attributes = u8 (bit_or (bit_or 0b1110 (bit_and attributes 0b11 * 2 ^ 5)) (shifted_one 7));
  offset_mid = u16 (offset / 2 ^ 16);
  offset_high = u32 (offset / 2 ^ 32);
  reserved = 0;
}

abbrev pub idt_entries : ℕ
idt_entries = 256

-- The array `idt`, by index.
abbrev pub Table : Type 0
Table = ℕ → GateDescriptor

abbrev cleared : GateDescriptor
cleared = record {
  offset_low = 0;
  segment_selector = 0;
  ist = 0;
  type_attributes = 0;
  offset_mid = 0;
  offset_high = 0;
  reserved = 0;
}

abbrev set_gate : Table → ℕ → GateDescriptor → Table
set_gate table vector gate i = if i == vector then gate else table i

-- The `memset` over the first entries.
abbrev clear_gates : ℕ → Table → Table
clear_gates zero table = table
clear_gates (suc n) table = clear_gates n (set_gate table n cleared)

-- One call of `idt_create_entry`, for one stub, and those from one vector on.
unfoldable pub create_gate : (ℕ → ℕ) → ℕ → Table → Table
create_gate isr vector table =
    set_gate table vector (idt_create_entry (isr vector) 0x8 0 (attributes_of 0 gate_type_int_gate))

unfoldable pub create_gates : (ℕ → ℕ) → ℕ → ℕ → Table → Table
create_gates isr zero vector table = table
create_gates isr (suc left) vector table =
    create_gates isr left (vector + 1) (create_gate isr vector table)

-- `idt_init`
unfoldable pub idt_init : (ℕ → ℕ) → Table → Table
idt_init isr table = create_gates isr idt_entries 0 (clear_gates idt_entries table)

-- The operand of LIDT in `idt_install`; `sizeof(struct idt_gate_descriptor)` is 16.
unfoldable pub idt_pointer : ℕ → TablePointer
idt_pointer target = record { limit = u16 (16 * idt_entries - 1); base = target }

-- What the processor reads from a gate.
unfoldable pub offset_of : GateDescriptor → ℕ
offset_of d = d.offset_low + d.offset_mid * 2 ^ 16 + d.offset_high * 2 ^ 32

abbrev pub type_of : GateDescriptor → ℕ
type_of d = d.type_attributes % 16

abbrev pub privilege_of : GateDescriptor → ℕ
privilege_of d = d.type_attributes / 2 ^ 5 % 4

abbrev pub present_of : GateDescriptor → ℕ
present_of d = d.type_attributes / 2 ^ 7

offset_of_entry :
    (offset selector ist attributes : ℕ)
    → offset < 2 ^ 64
    → offset_of (idt_create_entry offset selector ist attributes) ≡ offset
unfolding idt_create_entry offset_of
offset_of_entry offset selector ist attributes h = omega arith

abbrev pub int_gate : ℕ → GateDescriptor
int_gate offset = idt_create_entry offset 0x8 0 (attributes_of 0 gate_type_int_gate)

create_gate_self :
    (isr : ℕ → ℕ) (vector : ℕ) (table : Table)
    → create_gate isr vector table vector ≡ int_gate (isr vector)
unfolding create_gate
create_gate_self isr vector table = ground arith

create_gate_ne :
    (isr : ℕ → ℕ) (vector : ℕ) (table : Table) (i : ℕ)
    → i ≢ vector
    → create_gate isr vector table i ≡ table i
unfolding create_gate
create_gate_ne isr vector table i ne = ground arith

gates_outside :
    (isr : ℕ → ℕ) (left vector : ℕ) (table : Table) (i : ℕ)
    → (i < vector) ⊎ (vector + left ≤ i)
    → create_gates isr left vector table i ≡ table i
unfolding create_gates
gates_outside isr zero vector table i out = refl
gates_outside isr (suc left) vector table i out =
    gates_outside isr left (vector + 1) (create_gate isr vector table) i (ground arith)
    ∙ create_gate_ne isr vector table i (ground arith)

gate_at :
    (isr : ℕ → ℕ) (left vector : ℕ) (table : Table) (i : ℕ)
    → vector ≤ i
    → i < vector + left
    → create_gates isr left vector table i ≡ int_gate (isr i)
unfolding create_gates
gate_at isr zero vector table i le lt = absurd (omega arith)
gate_at isr (suc left) vector table i le lt = elim (Bool-cases (i == vector)) [
  | inl same ↦
      gates_outside isr left (vector + 1) (create_gate isr vector table) i (inl (ground arith))
      ∙ (rw ((==_iff i vector).0 same) (create_gate_self isr vector table))
  | inr other ↦
      gate_at isr left (vector + 1) (create_gate isr vector table) i (ground arith) (ground arith)
]

clear_gates_outside : (n : ℕ) (table : Table) (i : ℕ) → n ≤ i → clear_gates n table i ≡ table i
clear_gates_outside zero table i out = refl
clear_gates_outside (suc n) table i out =
    clear_gates_outside n (set_gate table n cleared) i (omega arith) ∙ ground arith

-- What the processor sees in a gate: the offset, the selector, no stack, an interrupt gate, its
-- presence and its privilege level.
abbrev pub Gates : ℕ → GateDescriptor → Type 0
Gates offset d =
    (offset_of d ≡ offset)
    × (d.segment_selector ≡ 8)
    × (d.ist ≡ 0)
    × (type_of d ≡ gate_type_int_gate)
    × (present_of d ≡ 1)
    × (privilege_of d ≡ 2)

int_gate-Gates : (offset : ℕ) → offset < 2 ^ 64 → Gates offset (int_gate offset)
unfolding idt_create_entry
int_gate-Gates offset h = (
  offset_of_entry offset 8 0 (attributes_of 0 gate_type_int_gate) h,
  refl,
  refl,
  refl,
  refl,
  refl,
)

-- After `idt_init` the gate of each of the 256 vectors is a present interrupt gate to the vector's
-- stub, whose address is below 2 ^ 64, with the kernel's code segment and privilege level 2;
-- entries from 256 on are as before.
pub idt_init-Gates :
    (isr : ℕ → ℕ) (table : Table)
    → ((v : ℕ) → isr v < 2 ^ 64)
    → ((v : ℕ) → v < 256 → Gates (isr v) (idt_init isr table v))
      × ((v : ℕ) → 256 ≤ v → idt_init isr table v ≡ table v)
unfolding idt_init
idt_init-Gates isr table h = (
  λ v lt.
      rw (gate_at isr 256 0 (clear_gates 256 table) v (omega arith) (omega arith))
        (int_gate-Gates (isr v) (h v)),
  λ v le.
      gates_outside isr 256 0 (clear_gates 256 table) v (inr (omega arith))
      ∙ clear_gates_outside 256 table v le,
)
