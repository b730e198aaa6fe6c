-- ===== src/Memory/Paging/Fields.antt =====
-- Reading back the fields of a new page table entry.
use j_oe_s.Base.{ℕ, ◌%◌, ◌^◌, ◌<◌, ◌≡◌, arith}
use j_oe_s.Memory.Paging.Entry.{
  Level, pml4, pdpr, pd, pt, EntryType, pointer, page, is_present, is_large, base_4kb, base_2mb,
  base_1gb, create_entry,
}

-- The bits below the base address are those of the flags.
pub create_entry-is_present :
    (base flags : ℕ) (level : Level) (type : EntryType)
    → is_present (create_entry base flags level type) ≡ is_present flags
unfolding create_entry
create_entry-is_present base flags pml4 type = ground arith
create_entry-is_present base flags pdpr pointer = ground arith
create_entry-is_present base flags pdpr page = ground arith
create_entry-is_present base flags pd pointer = ground arith
create_entry-is_present base flags pd page = ground arith
create_entry-is_present base flags pt type = ground arith

pub create_entry-is_large :
    (base flags : ℕ) (level : Level) (type : EntryType)
    → is_large (create_entry base flags level type) ≡ is_large flags
unfolding create_entry
create_entry-is_large base flags pml4 type = ground arith
create_entry-is_large base flags pdpr pointer = ground arith
create_entry-is_large base flags pdpr page = ground arith
create_entry-is_large base flags pd pointer = ground arith
create_entry-is_large base flags pd page = ground arith
create_entry-is_large base flags pt type = ground arith

-- The base address of a pointer is that of the table, if it is a page's address below 2 ^ 40.
pub base_of_pointer :
    (base flags : ℕ) (level : Level)
    → base % 4096 ≡ 0
    → base < 2 ^ 40
    → base_4kb (create_entry base flags level pointer) ≡ base
unfolding create_entry
base_of_pointer base flags pml4 aligned small = omega arith
base_of_pointer base flags pdpr aligned small = omega arith
base_of_pointer base flags pd aligned small = omega arith
base_of_pointer base flags pt aligned small = omega arith

pub base_of_4kb_page :
    (base flags : ℕ)
    → base % 4096 ≡ 0
    → base < 2 ^ 40
    → base_4kb (create_entry base flags pt page) ≡ base
unfolding create_entry
base_of_4kb_page base flags aligned small = omega arith

pub base_of_2mb_page :
    (base flags : ℕ)
    → base % 2 ^ 21 ≡ 0
    → base < 2 ^ 40
    → base_2mb (create_entry base flags pd page) ≡ base
unfolding create_entry
base_of_2mb_page base flags aligned small = omega arith

pub base_of_1gb_page :
    (base flags : ℕ)
    → base % 2 ^ 30 ≡ 0
    → base < 2 ^ 40
    → base_1gb (create_entry base flags pdpr page) ≡ base
unfolding create_entry
base_of_1gb_page base flags aligned small = omega arith
