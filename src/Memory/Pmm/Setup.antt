-- ===== src/Memory/Pmm/Setup.antt =====
-- kernel/src/memory/pmm.c: `pmm_init`. The memory map of the boot loader is a list of its entries.
-- The bitmaps are the lists of the regions' bytes; where they are placed is `bitmap_base`.
pub mod Metadata
pub mod Init
pub mod Layout
pub mod Examples
use j_oe_s.Base.{
  ℕ, zero, suc, ◌+◌, ◌-◌, ◌*◌, ◌/◌, ◌%◌, ◌^◌, ◌<◌, ◌≤◌, ◌≡◌, ◌≢◌, ◌⊎◌, inl, inr, Bool, true, false,
  ◌&&◌, not, Option, none, some, List, [], ◌∷◌, map, ltb, leb, ◌==◌, if◌then◌else◌, length,
  get_elem?, set, add64, sub64, mul64, word64, arith, refl, ap, sym, ◌∙◌,
}
use j_oe_s.Memory.Region.{
  Region, MemoryType, is_usable, RegionStatus, region_ok, region_error, mark_page_used, region_init,
  page_size_byte,
}
use j_oe_s.Memory.Region.Bitmap.{page_bit}
use j_oe_s.Memory.Region.Marks
use j_oe_s.Memory.Region.Marks.{InPage, pages, mark_page_used_lem}
use j_oe_s.Memory.Pmm.{Pmm, Status, ok, error_init_failed, MemmapEntry}

-- `sizeof(struct pmm_region_t)`: five words of eight bytes, and the type with its padding.
abbrev pub region_struct_size : ℕ
region_struct_size = 48

unfoldable pub sum_lengths : List MemmapEntry → ℕ → ℕ
sum_lengths [] memory_size_byte = memory_size_byte
sum_lengths (e ∷ entries) memory_size_byte =
    sum_lengths entries (add64 memory_size_byte e.entry_length)

-- `pmm_detect_memory`: the numbers of regions and of pages.
unfoldable pub detect_memory : List MemmapEntry → ℕ × ℕ
detect_memory entries = (length entries, sum_lengths entries 0 / page_size_byte)

unfoldable pub get_num_required_pages : ℕ → ℕ → ℕ
get_num_required_pages regions pages =
    let required_bytes = add64 (mul64 regions region_struct_size) (add64 pages 7 / 8) in
    sub64 (add64 required_bytes page_size_byte) 1 / page_size_byte

abbrev pub region_of : MemmapEntry → Region
region_of e = region_init e.base e.entry_length e.memory_type

-- `bitmap_base` after the regions' loop of `pmm_init_region_structs`.
unfoldable pub bitmap_base : List MemmapEntry → ℕ → ℕ
bitmap_base [] base = base
bitmap_base (e ∷ entries) base = bitmap_base entries (add64 base (region_of e).bitmap_size)

-- The loop that marks the first pages of a region, at page `page`, with `left` rounds left.
unfoldable pub mark_pages : ℕ → ℕ → ℕ → Region → Option (Status × Region)
mark_pages zero page base r = some (ok, r)
mark_pages (suc left) page base r = elim (mark_page_used r (add64 base (page * page_size_byte))) [
  | none ↦ none
  | some (region_error, r') ↦ some (error_init_failed, r')
  | some (region_ok, r') ↦ mark_pages left (page + 1) base r'
]

-- The search for the region of the metadata, and its marks.
unfoldable pub mark_metadata : List Region → ℕ → ℕ → Option (Status × List Region)
mark_metadata [] base required_pages = some (ok, [])
mark_metadata (r ∷ rest) base required_pages = elim (r.base == base) [
  | false ↦ elim (mark_metadata rest base required_pages) [
    | none ↦ none
    | some (status, rest') ↦ some (status, r ∷ rest')
  ]
  | true ↦ elim (mark_pages required_pages 0 base r) [
    | none ↦ none
    | some (status, r') ↦ some (status, r' ∷ rest)
  ]
]

-- The search for a place of the metadata; 0 is NULL.
unfoldable pub find_space : List MemmapEntry → ℕ → ℕ
find_space [] required_pages = 0
find_space (e ∷ entries) required_pages =
    let rest = find_space entries required_pages in
    if is_usable e.memory_type && leb (mul64 required_pages page_size_byte) e.entry_length
    then e.base
    else rest

abbrev pub initial : ℕ → ℕ → ℕ → List Region → Pmm
initial num_pages num_regions hhdm_offset regions = record {
  memory_size_pages = num_pages;
  num_regions = num_regions;
  phys_to_virt_offset = hhdm_offset;
  regions = regions;
  region_cache = 0;
  bitmap_cache = 0;
}

-- `pmm_init`. On an error the regions are those that were there before, of which nothing is used.
unfoldable pub init : List MemmapEntry → ℕ → Option (Status × Pmm)
init entries hhdm_offset =
    let (num_regions, num_pages) = detect_memory entries in
    let required_pages = get_num_required_pages num_regions num_pages in
    let base = find_space entries required_pages in
    elim (base == 0) [
      | true ↦ some (error_init_failed, initial num_pages num_regions hhdm_offset [])
      | false ↦ elim (mark_metadata (map region_of entries) base required_pages) [
        | none ↦ none
        | some (status, regions) ↦ some (status, initial num_pages num_regions hhdm_offset regions)
      ]
    ]
