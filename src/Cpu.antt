-- ===== src/Cpu.antt =====
-- kernel/src/cpu: the descriptor tables and the interrupt handler.
pub mod Gdt
pub mod Idt
pub mod Interrupts
mod Tests
