-- ===== src/Cpu/Interrupts/Descriptions.antt =====
-- kernel/include/cpu/interrupt_handler.h: the array `interrupt_descriptions`, its strings as bytes. A
-- comma is missing in it: two strings make one entry, and the last of the 25 entries is NULL.
use j_oe_s.Base.{ℕ, Option, List, [], ◌∷◌, get_elem?}

abbrev divide_error : List ℕ
divide_error =
    b'D' ∷ b'i' ∷ b'v' ∷ b'i' ∷ b'd' ∷ b'e' ∷ b' ' ∷ b'E' ∷ b'r' ∷ b'r' ∷ b'o' ∷ b'r' ∷ b'.' ∷ 10
    ∷ []

abbrev debug_exception : List ℕ
debug_exception =
    b'D' ∷ b'e' ∷ b'b' ∷ b'u' ∷ b'g' ∷ b' ' ∷ b'E' ∷ b'x' ∷ b'c' ∷ b'e' ∷ b'p' ∷ b't' ∷ b'i' ∷ b'o'
    ∷ b'n' ∷ b'.' ∷ 10 ∷ []

abbrev nmi_interrupt : List ℕ
nmi_interrupt =
    b'N' ∷ b'M' ∷ b'I' ∷ b' ' ∷ b'I' ∷ b'n' ∷ b't' ∷ b'e' ∷ b'r' ∷ b'r' ∷ b'u' ∷ b'p' ∷ b't' ∷ b'.'
    ∷ 10 ∷ []

abbrev breakpoint : List ℕ
breakpoint = b'B' ∷ b'r' ∷ b'e' ∷ b'a' ∷ b'k' ∷ b'p' ∷ b'o' ∷ b'i' ∷ b'n' ∷ b't' ∷ b'.' ∷ 10 ∷ []

abbrev overflow : List ℕ
overflow = b'O' ∷ b'v' ∷ b'e' ∷ b'r' ∷ b'f' ∷ b'l' ∷ b'o' ∷ b'w' ∷ b'.' ∷ 10 ∷ []

abbrev bound_range_exceeded : List ℕ
bound_range_exceeded =
    b'B' ∷ b'O' ∷ b'U' ∷ b'N' ∷ b'D' ∷ b' ' ∷ b'R' ∷ b'a' ∷ b'n' ∷ b'g' ∷ b'e' ∷ b' ' ∷ b'E' ∷ b'x'
    ∷ b'c' ∷ b'e' ∷ b'e' ∷ b'd' ∷ b'e' ∷ b'd' ∷ b'.' ∷ 10 ∷ []

abbrev invalid_opcode : List ℕ
invalid_opcode =
    b'I' ∷ b'n' ∷ b'v' ∷ b'a' ∷ b'l' ∷ b'i' ∷ b'd' ∷ b' ' ∷ b'O' ∷ b'p' ∷ b'c' ∷ b'o' ∷ b'd' ∷ b'e'
    ∷ b'.' ∷ 10 ∷ []

abbrev device_not_available : List ℕ
device_not_available =
    b'D' ∷ b'e' ∷ b'v' ∷ b'i' ∷ b'c' ∷ b'e' ∷ b' ' ∷ b'N' ∷ b'o' ∷ b't' ∷ b' ' ∷ b'A' ∷ b'v' ∷ b'a'
    ∷ b'i' ∷ b'l' ∷ b'a' ∷ b'b' ∷ b'l' ∷ b'e' ∷ b' ' ∷ b'(' ∷ b'N' ∷ b'o' ∷ b' ' ∷ b'M' ∷ b'a'
    ∷ b't' ∷ b'h' ∷ b' ' ∷ b'C' ∷ b'o' ∷ b'p' ∷ b'r' ∷ b'o' ∷ b'c' ∷ b'e' ∷ b's' ∷ b's' ∷ b'o'
    ∷ b'r' ∷ b')' ∷ b'.' ∷ 10 ∷ []

abbrev double_fault : List ℕ
double_fault =
    b'D' ∷ b'o' ∷ b'u' ∷ b'b' ∷ b'l' ∷ b'e' ∷ b' ' ∷ b'F' ∷ b'a' ∷ b'u' ∷ b'l' ∷ b't' ∷ b':' ∷ b' '
    ∷ b'e' ∷ b'r' ∷ b'r' ∷ b'=' ∷ b'%' ∷ b'd' ∷ 10 ∷ []

abbrev coprocessor_segment_overrun : List ℕ
coprocessor_segment_overrun =
    b'C' ∷ b'o' ∷ b'p' ∷ b'r' ∷ b'o' ∷ b'c' ∷ b'e' ∷ b's' ∷ b's' ∷ b'o' ∷ b'r' ∷ b' ' ∷ b'S' ∷ b'e'
    ∷ b'g' ∷ b'm' ∷ b'e' ∷ b'n' ∷ b't' ∷ b' ' ∷ b'O' ∷ b'v' ∷ b'e' ∷ b'r' ∷ b'r' ∷ b'u' ∷ b'n'
    ∷ b'.' ∷ 10 ∷ []

abbrev invalid_tss : List ℕ
invalid_tss =
    b'I' ∷ b'n' ∷ b'v' ∷ b'a' ∷ b'l' ∷ b'i' ∷ b'd' ∷ b' ' ∷ b'T' ∷ b'S' ∷ b'S' ∷ b':' ∷ b' ' ∷ b'e'
    ∷ b'r' ∷ b'r' ∷ b'=' ∷ b'%' ∷ b'd' ∷ 10 ∷ []

abbrev segment_not_present : List ℕ
segment_not_present =
    b'S' ∷ b'e' ∷ b'g' ∷ b'm' ∷ b'e' ∷ b'n' ∷ b't' ∷ b' ' ∷ b'N' ∷ b'o' ∷ b't' ∷ b' ' ∷ b'P' ∷ b'r'
    ∷ b'e' ∷ b's' ∷ b'e' ∷ b'n' ∷ b't' ∷ b':' ∷ b' ' ∷ b'e' ∷ b'r' ∷ b'r' ∷ b'=' ∷ b'%' ∷ b'd' ∷ 10
    ∷ []

abbrev stack_segment_fault : List ℕ
stack_segment_fault =
    b'S' ∷ b't' ∷ b'a' ∷ b'c' ∷ b'k' ∷ b'-' ∷ b'S' ∷ b'e' ∷ b'g' ∷ b'm' ∷ b'e' ∷ b'n' ∷ b't' ∷ b' '
    ∷ b'F' ∷ b'a' ∷ b'u' ∷ b'l' ∷ b't' ∷ b':' ∷ b' ' ∷ b'e' ∷ b'r' ∷ b'r' ∷ b'=' ∷ b'%' ∷ b'd' ∷ 10
    ∷ []

abbrev general_protection_fault : List ℕ
general_protection_fault =
    b'G' ∷ b'e' ∷ b'n' ∷ b'e' ∷ b'r' ∷ b'a' ∷ b'l' ∷ b' ' ∷ b'P' ∷ b'r' ∷ b'o' ∷ b't' ∷ b'e' ∷ b'c'
    ∷ b't' ∷ b'i' ∷ b'o' ∷ b'n' ∷ b' ' ∷ b'F' ∷ b'a' ∷ b'u' ∷ b'l' ∷ b't' ∷ b':' ∷ b' ' ∷ b'e'
    ∷ b'r' ∷ b'r' ∷ b'=' ∷ b'%' ∷ b'd' ∷ 10 ∷ []

abbrev page_fault_description : List ℕ
page_fault_description =
    b'P' ∷ b'a' ∷ b'g' ∷ b'e' ∷ b' ' ∷ b'F' ∷ b'a' ∷ b'u' ∷ b'l' ∷ b't' ∷ b':' ∷ b' ' ∷ b'e' ∷ b'r'
    ∷ b'r' ∷ b'=' ∷ b'%' ∷ b'd' ∷ b',' ∷ b' ' ∷ b'C' ∷ b'R' ∷ b'2' ∷ b'=' ∷ b'%' ∷ b'x' ∷ 10 ∷ []

abbrev intel_reserved : List ℕ
intel_reserved =
    b'I' ∷ b'n' ∷ b't' ∷ b'e' ∷ b'l' ∷ b' ' ∷ b'r' ∷ b'e' ∷ b's' ∷ b'e' ∷ b'r' ∷ b'v' ∷ b'e' ∷ b'd'
    ∷ b'.' ∷ b' ' ∷ b'T' ∷ b'h' ∷ b'i' ∷ b's' ∷ b' ' ∷ b's' ∷ b'h' ∷ b'o' ∷ b'u' ∷ b'l' ∷ b'd'
    ∷ b'n' ∷ 39 ∷ b't' ∷ b' ' ∷ b'c' ∷ b'o' ∷ b'm' ∷ b'e' ∷ b' ' ∷ b'u' ∷ b'p' ∷ b'.' ∷ 10 ∷ []

abbrev floating_point_error : List ℕ
floating_point_error =
    b'x' ∷ b'8' ∷ b'7' ∷ b' ' ∷ b'F' ∷ b'P' ∷ b'U' ∷ b' ' ∷ b'F' ∷ b'l' ∷ b'o' ∷ b'a' ∷ b't' ∷ b'i'
    ∷ b'n' ∷ b'g' ∷ b'-' ∷ b'P' ∷ b'o' ∷ b'i' ∷ b'n' ∷ b't' ∷ b' ' ∷ b'E' ∷ b'r' ∷ b'r' ∷ b'o'
    ∷ b'r' ∷ b' ' ∷ b'(' ∷ b'M' ∷ b'a' ∷ b't' ∷ b'h' ∷ b' ' ∷ b'F' ∷ b'a' ∷ b'u' ∷ b'l' ∷ b't'
    ∷ b')' ∷ b'.' ∷ 10 ∷ []

abbrev alignment_check : List ℕ
alignment_check =
    b'A' ∷ b'l' ∷ b'i' ∷ b'g' ∷ b'n' ∷ b'm' ∷ b'e' ∷ b'n' ∷ b't' ∷ b' ' ∷ b'C' ∷ b'h' ∷ b'e' ∷ b'c'
    ∷ b'k' ∷ b':' ∷ b' ' ∷ b'e' ∷ b'r' ∷ b'r' ∷ b'=' ∷ b'%' ∷ b'd' ∷ 10 ∷ []

abbrev machine_check : List ℕ
machine_check =
    b'M' ∷ b'a' ∷ b'c' ∷ b'h' ∷ b'i' ∷ b'n' ∷ b'e' ∷ b' ' ∷ b'C' ∷ b'h' ∷ b'e' ∷ b'c' ∷ b'k' ∷ b'.'
    ∷ 10 ∷ []

abbrev simd_floating_point_exception : List ℕ
simd_floating_point_exception =
    b'S' ∷ b'I' ∷ b'M' ∷ b'D' ∷ b' ' ∷ b'F' ∷ b'l' ∷ b'o' ∷ b'a' ∷ b't' ∷ b'i' ∷ b'n' ∷ b'g' ∷ b'-'
    ∷ b'P' ∷ b'o' ∷ b'i' ∷ b'n' ∷ b't' ∷ b' ' ∷ b'E' ∷ b'x' ∷ b'c' ∷ b'e' ∷ b'p' ∷ b't' ∷ b'i'
    ∷ b'o' ∷ b'n' ∷ b'.' ∷ 10 ∷ []

abbrev virtualization_and_control_protection : List ℕ
virtualization_and_control_protection =
    b'V' ∷ b'i' ∷ b'r' ∷ b't' ∷ b'u' ∷ b'a' ∷ b'l' ∷ b'i' ∷ b'z' ∷ b'a' ∷ b't' ∷ b'i' ∷ b'o' ∷ b'n'
    ∷ b' ' ∷ b'E' ∷ b'x' ∷ b'c' ∷ b'e' ∷ b'p' ∷ b't' ∷ b'i' ∷ b'o' ∷ b'n' ∷ b'.' ∷ 10 ∷ b'C' ∷ b'o'
    ∷ b'n' ∷ b't' ∷ b'r' ∷ b'o' ∷ b'l' ∷ b' ' ∷ b'P' ∷ b'r' ∷ b'o' ∷ b't' ∷ b'e' ∷ b'c' ∷ b't'
    ∷ b'i' ∷ b'o' ∷ b'n' ∷ b' ' ∷ b'E' ∷ b'x' ∷ b'c' ∷ b'e' ∷ b'p' ∷ b't' ∷ b'i' ∷ b'o' ∷ b'n'
    ∷ b':' ∷ b' ' ∷ b'e' ∷ b'r' ∷ b'r' ∷ b'=' ∷ b'%' ∷ b'd' ∷ 10 ∷ []

abbrev reserved : List ℕ
reserved =
    b'R' ∷ b'e' ∷ b's' ∷ b'e' ∷ b'r' ∷ b'v' ∷ b'e' ∷ b'd' ∷ b' ' ∷ b'f' ∷ b'o' ∷ b'r' ∷ b' ' ∷ b'f'
    ∷ b'u' ∷ b't' ∷ b'u' ∷ b'r' ∷ b'e' ∷ b' ' ∷ b'u' ∷ b's' ∷ b'e' ∷ b'.' ∷ b' ' ∷ b'T' ∷ b'h'
    ∷ b'i' ∷ b's' ∷ b' ' ∷ b's' ∷ b'h' ∷ b'o' ∷ b'u' ∷ b'l' ∷ b'd' ∷ b'n' ∷ 39 ∷ b't' ∷ b' ' ∷ b'c'
    ∷ b'o' ∷ b'm' ∷ b'e' ∷ b' ' ∷ b'u' ∷ b'p' ∷ b'.' ∷ 10 ∷ []

abbrev external_interrupt : List ℕ
external_interrupt =
    b'E' ∷ b'x' ∷ b't' ∷ b'e' ∷ b'r' ∷ b'n' ∷ b'a' ∷ b'l' ∷ b' ' ∷ b'I' ∷ b'n' ∷ b't' ∷ b'e' ∷ b'r'
    ∷ b'r' ∷ b'u' ∷ b'p' ∷ b't' ∷ b':' ∷ b' ' ∷ b'%' ∷ b'd' ∷ 10 ∷ []

abbrev unknown_interrupt : List ℕ
unknown_interrupt =
    b'A' ∷ b'n' ∷ b' ' ∷ b'u' ∷ b'n' ∷ b'k' ∷ b'n' ∷ b'o' ∷ b'w' ∷ b'n' ∷ b' ' ∷ b'E' ∷ b'x' ∷ b'c'
    ∷ b'e' ∷ b'p' ∷ b't' ∷ b'i' ∷ b'o' ∷ b'n' ∷ b' ' ∷ b'/' ∷ b' ' ∷ b'I' ∷ b'n' ∷ b't' ∷ b'e'
    ∷ b'r' ∷ b'r' ∷ b'u' ∷ b'p' ∷ b't' ∷ b' ' ∷ b'o' ∷ b'c' ∷ b'c' ∷ b'u' ∷ b'r' ∷ b'e' ∷ b'd'
    ∷ b':' ∷ b' ' ∷ b'i' ∷ b'n' ∷ b't' ∷ b'=' ∷ b'%' ∷ b'd' ∷ b',' ∷ b' ' ∷ b'e' ∷ b'r' ∷ b'r'
    ∷ b'n' ∷ b'o' ∷ b'=' ∷ b'%' ∷ b'd' ∷ 10 ∷ []

abbrev pub interrupt_descriptions : List (List ℕ)
interrupt_descriptions =
    divide_error ∷ debug_exception ∷ nmi_interrupt ∷ breakpoint ∷ overflow ∷ bound_range_exceeded
    ∷ invalid_opcode ∷ device_not_available ∷ double_fault ∷ coprocessor_segment_overrun
    ∷ invalid_tss ∷ segment_not_present ∷ stack_segment_fault ∷ general_protection_fault
    ∷ page_fault_description ∷ intel_reserved ∷ floating_point_error ∷ alignment_check
    ∷ machine_check ∷ simd_floating_point_exception ∷ virtualization_and_control_protection
    ∷ reserved ∷ external_interrupt ∷ unknown_interrupt ∷ []

-- The string that an index gives; `none` for NULL, and behind the end of the array.
abbrev pub description_of : ℕ → Option (List ℕ)
description_of i = get_elem? interrupt_descriptions i
