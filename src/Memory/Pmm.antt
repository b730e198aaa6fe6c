-- ===== src/Memory/Pmm.antt =====
-- kernel/src/memory/pmm.c: the physical memory manager over the regions of the memory map.
-- The static variables of the file and of `pmm_alloc` are the fields of one record. An access
-- outside an array, which C leaves undefined, is a fault.
pub mod Scan
pub mod State
pub mod Alloc
pub mod Search
pub mod Pages
pub mod Lifecycle
pub mod Setup
use j_oe_s.Base.{
  ℕ, zero, suc, ◌+◌, ◌-◌, ◌*◌, ◌/◌, ◌%◌, Bool, true, false, ◌&&◌, Option, none, some, List, [], ◌∷◌,
  ltb, leb, ◌==◌, if◌then◌else◌, get_elem?, set, length, add64, sub64, mul64, bit_and, shifted_one,
  not,
}
use j_oe_s.Memory.Region.{
  Region, MemoryType, is_usable, RegionStatus, region_ok, region_error, mark_page_used,
  mark_page_free, region_init, page_size_byte, pmm_region_bitmap_free,
}

-- `pmm_error_codes_t`
pub data Status : Type 0 where
  ok error_init_failed error_address_not_found : Status

-- `pmm_page_status_t` is an `int` here: `pmm_check_page` returns the masked byte itself.
abbrev pub pmm_page_free : ℕ
pmm_page_free = 0

abbrev pub pmm_page_used : ℕ
pmm_page_used = 1

abbrev pub pmm_page_not_found : ℕ
pmm_page_not_found = 2

pub record Pmm : Type 0 where
  pub memory_size_pages : ℕ
  pub num_regions : ℕ
  pub phys_to_virt_offset : ℕ
  pub regions : List Region
  pub region_cache : ℕ
  pub bitmap_cache : ℕ

-- `struct limine_memmap_entry`, as far as it is read.
pub record MemmapEntry : Type 0 where
  pub base : ℕ
  pub entry_length : ℕ
  pub memory_type : MemoryType

-- How `get_region_containing_page` ends.
pub data SearchEnd : Type 0 where
  found : ℕ → SearchEnd
  not_found : SearchEnd
  out_of_bounds : SearchEnd

-- The round at `region_index`: go below it, go above it, or stay.
pub data Side : Type 0 where
  below above here : Side

abbrev pub side_of : Region → ℕ → Side
side_of r ptr =
    if ltb ptr r.base
    then below
    else if ltb (sub64 (add64 r.base r.region_length) 1) ptr
    then above
    else here

abbrev pub middle : ℕ → ℕ → ℕ
middle lower_bound upper_bound = add64 lower_bound (sub64 upper_bound lower_bound / 2)

-- The loop with `rounds` rounds left.
unfoldable pub search_loop : List Region → ℕ → ℕ → ℕ → ℕ → SearchEnd
search_loop regions ptr zero lower_bound upper_bound = not_found
search_loop regions ptr (suc rounds) lower_bound upper_bound =
    let region_index = middle lower_bound upper_bound in
    elim (get_elem? regions region_index) [
      | none ↦ out_of_bounds
      | some r ↦ elim (side_of r ptr) [
        | below ↦ search_loop regions ptr rounds lower_bound (sub64 region_index 1)
        | above ↦ search_loop regions ptr rounds (add64 region_index 1) upper_bound
        | here ↦ found region_index
      ]
    ]

unfoldable pub get_region_containing_page : Pmm → ℕ → SearchEnd
get_region_containing_page s ptr = search_loop s.regions ptr s.num_regions 0 (sub64 s.num_regions 1)

-- `none` is an access out of bounds.
unfoldable pub check_page : Pmm → ℕ → Option ℕ
check_page s ptr = elim (get_region_containing_page s ptr) [
  | out_of_bounds ↦ none
  | not_found ↦ some pmm_page_not_found
  | found region_index ↦ elim (get_elem? s.regions region_index) [
    | none ↦ none
    | some r ↦
        let page_index = sub64 ptr r.base / page_size_byte in
        elim (get_elem? r.bitmap (page_index / 8)) [
          | none ↦ none
          | some byte ↦ some (bit_and byte (shifted_one (page_index % 8)))
        ]
  ]
]

-- The loop over the bits of a byte, with `left` rounds left: the first clear bit.
unfoldable pub find_bit : ℕ → ℕ → ℕ → Option ℕ
find_bit zero k byte = none
find_bit (suc left) k byte =
    let rest = find_bit left (k + 1) byte in
    if bit_and byte (shifted_one k) == pmm_region_bitmap_free then some k else rest

-- How the loop over the bytes of a bitmap ends: at a free page, or at the end with the value that
-- `bitmap_cache` then has.
pub data ByteScan : Type 0 where
  hit : ℕ → ℕ → ByteScan
  exhausted : ℕ → ByteScan
  fault : ByteScan

unfoldable pub scan_bytes : Region → ℕ → ℕ → ℕ → ByteScan
scan_bytes r zero j bitmap_cache = exhausted bitmap_cache
scan_bytes r (suc left) j bitmap_cache =
    let bitmap_index = add64 j bitmap_cache % r.bitmap_size in
    elim (get_elem? r.bitmap bitmap_index) [
      | none ↦ fault
      | some byte ↦ elim (byte == 255) [
        | true ↦ scan_bytes r left (j + 1) bitmap_cache
        | false ↦ elim (find_bit 8 0 byte) [
          | some k ↦ hit bitmap_index k
          | none ↦ scan_bytes r left (j + 1) bitmap_index
        ]
      ]
    ]

-- Marks page `page` of the region and returns its address; the result of the mark is ignored.
unfoldable pub take_page : Pmm → ℕ → Region → ℕ → Option (ℕ × Pmm)
take_page s region_index r page =
    let ptr = add64 r.base (mul64 page page_size_byte) in
    elim (mark_page_used r ptr) [
      | none ↦ none
      | some (status, r') ↦ some (ptr, record s { regions = set s.regions region_index r' })
    ]

-- The loop over the regions, with `left` rounds left. It returns NULL, 0, if no page is found.
unfoldable pub alloc_loop : ℕ → ℕ → Pmm → Option (ℕ × Pmm)
alloc_loop zero i s = some (0, s)
alloc_loop (suc left) i s =
    let region_index = add64 i s.region_cache % s.num_regions in
    elim (get_elem? s.regions region_index) [
      | none ↦ none
      | some r ↦ elim (r.free_pages == 0) [
        | true ↦ alloc_loop left (i + 1) s
        | false ↦ elim (scan_bytes r r.bitmap_size 0 s.bitmap_cache) [
          | fault ↦ none
          | exhausted cache ↦
              alloc_loop left (i + 1)
                (record s { region_cache = region_index; bitmap_cache = cache })
          | hit bitmap_index k ↦
              take_page (record s { region_cache = region_index; bitmap_cache = bitmap_index })
                region_index r (bitmap_index * 8 + k)
        ]
      ]
    ]

unfoldable pub alloc : Pmm → Option (ℕ × Pmm)
alloc s = alloc_loop s.num_regions 0 s

-- `pmm_free`; the result of the mark is ignored.
unfoldable pub free : Pmm → ℕ → Option (Status × Pmm)
free s ptr = elim (get_region_containing_page s ptr) [
  | out_of_bounds ↦ none
  | not_found ↦ some (error_address_not_found, s)
  | found region_index ↦ elim (get_elem? s.regions region_index) [
    | none ↦ none
    | some r ↦ elim (mark_page_free r ptr) [
      | none ↦ none
      | some (status, r') ↦ some (ok, record s { regions = set s.regions region_index r' })
    ]
  ]
]
