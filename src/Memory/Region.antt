-- ===== src/Memory/Region.antt =====
-- kernel/src/memory/pmm_region.c with its header: a memory region and the bitmap of its pages.
-- An access outside the bytes of the bitmap, which C leaves undefined, is `none`.
pub mod Bitmap
pub mod Marks
pub mod Init
use j_oe_s.Base.{
  ℕ, ◌+◌, ◌/◌, ◌%◌, Bool, true, false, ◌||◌, Option, none, some, List, ltb, if◌then◌else◌,
  get_elem?, set, replicate, add64, sub64,
}
use j_oe_s.Base.Bits.{set_bit, clear_bit}

abbrev pub page_size_byte : ℕ
page_size_byte = 4096

-- `pmm_memory_types_t`
pub data MemoryType : Type 0 where
  usable reserved acpi_reclaimable acpi_non_volatile bad_memory bootloader_reclaimable
        kernel_and_modules framebuffer :
      MemoryType

-- PMM_REGION_BITMAP_FREE
abbrev pub pmm_region_bitmap_free : ℕ
pmm_region_bitmap_free = 0

-- `type == MEMMAP_TYPE_USABLE`
abbrev pub is_usable : MemoryType → Bool
is_usable usable = true
is_usable _ = false

-- `pmm_region_error_codes_t`
pub data RegionStatus : Type 0 where
  region_ok region_error : RegionStatus

-- `struct pmm_region_t`; `bitmap` is the bytes that the pointer points to.
pub record Region : Type 0 where
  pub bitmap : List ℕ
  pub bitmap_size : ℕ
  pub base : ℕ
  pub region_length : ℕ
  pub free_pages : ℕ
  pub memory_type : MemoryType

-- The bounds test of both functions below, as it is written.
abbrev pub not_in_region : Region → ℕ → Bool
not_in_region r phys_address =
    ltb phys_address r.base || ltb (add64 r.base r.region_length) phys_address

abbrev pub page_of : Region → ℕ → ℕ
page_of r phys_address = sub64 phys_address r.base / page_size_byte

-- The byte of `page` is replaced, and the count of free pages set.
abbrev pub write_page : Region → ℕ → (ℕ → ℕ → ℕ) → ℕ → Option (RegionStatus × Region)
write_page r page change count = elim (get_elem? r.bitmap (page / 8)) [
  | none ↦ none
  | some byte ↦ some (
    region_ok,
    record r { bitmap = set r.bitmap (page / 8) (change byte (page % 8)); free_pages = count },
  )
]

unfoldable pub mark_page_free : Region → ℕ → Option (RegionStatus × Region)
mark_page_free r phys_address =
    if not_in_region r phys_address
    then some (region_error, r)
    else write_page r (page_of r phys_address) clear_bit (add64 r.free_pages 1)

unfoldable pub mark_page_used : Region → ℕ → Option (RegionStatus × Region)
mark_page_used r phys_address =
    if not_in_region r phys_address
    then some (region_error, r)
    else write_page r (page_of r phys_address) set_bit (sub64 r.free_pages 1)

-- `pmm_region_init`: `memset` fills the `bitmap_size` bytes at the bitmap's address.
-- The length, a `ptrdiff_t`, is taken below 2 ^ 63.
unfoldable pub region_init : ℕ → ℕ → MemoryType → Region
region_init region_base length_byte region_type =
    let pages = length_byte / page_size_byte in
    let size = (pages + 7) / 8 in
    let byte = if is_usable region_type then pmm_region_bitmap_free else 255 in
    record {
      bitmap = replicate size byte;
      bitmap_size = size;
      base = region_base;
      region_length = length_byte;
      free_pages = if is_usable region_type then pages else 0;
      memory_type = region_type;
    }
