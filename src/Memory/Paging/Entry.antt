-- ===== src/Memory/Paging/Entry.antt =====
-- kernel/include/memory/paging.h and kernel/src/memory/paging.c: page table entries. An entry is its
-- raw 64 bits; a bit field at bit `low`, `width` bits wide, is read and written by arithmetic, and
-- the shifts and masks of an address that take the index of an entry are a quotient and a remainder.
use j_oe_s.Base.{
  ℕ, ◌+◌, ◌-◌, ◌*◌, ◌/◌, ◌%◌, ◌^◌, Bool, not, ◌==◌, bit_and, bit_or, if◌then◌else◌, word64,
}

-- `page_table_level_t`
pub data Level : Type 0 where
  pml4 pdpr pd pt : Level

-- `page_table_entry_type_t`
pub data EntryType : Type 0 where
  pointer page : EntryType

-- `page_size_t`
pub data PageSize : Type 0 where
  size_4kb size_2mb size_1gb : PageSize

abbrev pub field : ℕ → ℕ → ℕ → ℕ
field raw low width = raw / 2 ^ low % 2 ^ width

abbrev pub with_field : ℕ → ℕ → ℕ → ℕ → ℕ
with_field raw low width value =
    raw % 2 ^ low + value % 2 ^ width * 2 ^ low + raw / 2 ^ (low + width) * 2 ^ (low + width)

-- The fields that all levels share: `present`, and `page_size` of a PDPR's or a PD's entry.
abbrev pub is_present : ℕ → Bool
is_present raw = not (field raw 0 1 == 0)

abbrev pub is_large : ℕ → Bool
is_large raw = not (field raw 7 1 == 0)

abbrev pub without_present : ℕ → ℕ
without_present raw = with_field raw 0 1 0

-- The addresses that the field `base_address` of a pointer or a 4 kB page, of a 2 MB page, and of a
-- 1 GB page stands for.
abbrev pub base_4kb : ℕ → ℕ
base_4kb raw = field raw 12 28 * 2 ^ 12

abbrev pub base_2mb : ℕ → ℕ
base_2mb raw = field raw 21 19 * 2 ^ 21

abbrev pub base_1gb : ℕ → ℕ
base_1gb raw = field raw 30 10 * 2 ^ 30

abbrev pub flag_present : ℕ
flag_present = 0x1

abbrev pub flag_writable : ℕ
flag_writable = 0x2

-- `paging_create_entry`
unfoldable pub create_entry : ℕ → ℕ → Level → EntryType → ℕ
create_entry base_address flags pml4 type = with_field flags 12 28 (base_address / 2 ^ 12)
create_entry base_address flags pdpr page = with_field flags 30 10 (base_address / 2 ^ 30)
create_entry base_address flags pdpr pointer = with_field flags 12 28 (base_address / 2 ^ 12)
create_entry base_address flags pd page = with_field flags 21 19 (base_address / 2 ^ 21)
create_entry base_address flags pd pointer = with_field flags 12 28 (base_address / 2 ^ 12)
create_entry base_address flags pt type = with_field flags 12 28 (base_address / 2 ^ 12)

-- The mask of `paging_get_flags_from_entry`; 0 where the level and the type do not fit.
abbrev pub flags_mask : Level → EntryType → ℕ
flags_mask level pointer = word64 - 1 - 0xfffffff000
flags_mask pt page = word64 - 1 - 0xfffffff000
flags_mask pdpr page = word64 - 1 - 0xffc0000000
flags_mask pd page = word64 - 1 - 0xffffe00000
flags_mask pml4 page = 0

-- `paging_get_flags_from_entry`
unfoldable pub get_flags_from_entry : ℕ → Level → EntryType → ℕ
get_flags_from_entry raw level type = bit_and raw (flags_mask level type)

abbrev pub pml4_idx : ℕ → ℕ
pml4_idx virt = virt / 2 ^ 39 % 512

abbrev pub pdpr_idx : ℕ → ℕ
pdpr_idx virt = virt / 2 ^ 30 % 512

abbrev pub pd_idx : ℕ → ℕ
pd_idx virt = virt / 2 ^ 21 % 512

abbrev pub pt_idx : ℕ → ℕ
pt_idx virt = virt / 2 ^ 12 % 512

-- `paging_get_virt_address_from_indices`; a shift drops the bits behind 64.
unfoldable pub get_virt_address_from_indices : ℕ → ℕ → ℕ → ℕ → ℕ
get_virt_address_from_indices i4 i3 i2 i1 =
    let sign_extension = if i4 / 2 ^ 8 == 1 then 0xffff else 0 in
    bit_or
      (bit_or
        (bit_or (bit_or (sign_extension * 2 ^ 48 % word64) (i4 * 2 ^ 39 % word64))
          (i3 * 2 ^ 30 % word64))
        (i2 * 2 ^ 21 % word64))
      (i1 * 2 ^ 12 % word64)
