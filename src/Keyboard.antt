-- ===== src/Keyboard.antt =====
-- kernel/src/drivers: key events, their ring buffer, and the PS/2 keyboard driver.
pub mod KeyCode
pub mod Scancodes
pub mod Layout
pub mod Mask
pub mod Event
pub mod Buffer
pub mod Modifiers
pub mod Irq
mod Tests
