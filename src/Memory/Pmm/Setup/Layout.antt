-- ===== src/Memory/Pmm/Setup/Layout.antt =====
-- The pages that `pmm_get_num_required_pages` counts against the bytes that the metadata takes.
use j_oe_s.Base.{
  ℕ, suc, ◌+◌, ◌*◌, ◌/◌, ◌%◌, ◌^◌, ◌<◌, ◌≤◌, ◌≡◌, some, List, [], ◌∷◌, length, get_elem?, add64,
  mul64, word64, arith, refl, ap, ◌∙◌,
}
use j_oe_s.Memory.Region.{region_init, page_size_byte}
use j_oe_s.Memory.Pmm.{MemmapEntry}
use j_oe_s.Memory.Pmm.Setup.{
  bitmap_base, sum_lengths, get_num_required_pages, region_of, region_struct_size,
}

-- The bytes of all entries.
abbrev pub total : List MemmapEntry → ℕ
total [] = 0
total (e ∷ entries) = e.entry_length + total entries

-- The length of every entry is a multiple of eight pages.
abbrev pub AreWhole : List MemmapEntry → Type 0
AreWhole entries =
    (i : ℕ) (e : MemmapEntry) → get_elem? entries i ≡ some e → e.entry_length % 32768 ≡ 0

sum_lengths-total :
    (entries : List MemmapEntry) (n : ℕ)
    → n + total entries < word64
    → sum_lengths entries n ≡ n + total entries
unfolding sum_lengths
sum_lengths-total [] n h = omega arith
sum_lengths-total (e ∷ entries) n h =
    let exact : add64 n e.entry_length ≡ n + e.entry_length = omega (arith, h) in
    ap (sum_lengths entries) exact
    ∙ sum_lengths-total entries (n + e.entry_length) (omega (arith, h))
    ∙ omega arith

bitmap_base-total :
    (entries : List MemmapEntry) (base : ℕ)
    → AreWhole entries
    → base + total entries < word64
    → (total entries % 32768 ≡ 0) × (bitmap_base entries base ≡ base + total entries / 32768)
unfolding bitmap_base region_init
bitmap_base-total [] base whole h = (refl, omega arith)
bitmap_base-total (e ∷ entries) base whole h =
    let here = whole 0 e refl in
    let exact : add64 base (region_of e).bitmap_size ≡ base + e.entry_length / 32768 =
      omega (arith, h, here) in
    let (rest, eq) =
      bitmap_base-total entries (base + e.entry_length / 32768) (λ i a at. whole (suc i) a at)
        (omega (arith, h)) in
    (omega (arith, rest, here), ap (bitmap_base entries) exact ∙ eq ∙ omega (arith, rest, here))

-- Where every entry is a multiple of eight pages long, the entries are fewer than 2^32, and their
-- bytes behind the base end below 2^63, the region structs and the bitmaps behind them fit into
-- the pages that are counted for them.
pub metadata_fits :
    (entries : List MemmapEntry) (base : ℕ)
    → AreWhole entries
    → length entries < 2 ^ 32
    → base + total entries < 2 ^ 63
    → bitmap_base entries (add64 base (mul64 (length entries) region_struct_size))
      ≤ base
        + get_num_required_pages (length entries) (sum_lengths entries 0 / page_size_byte)
          * page_size_byte
unfolding get_num_required_pages
metadata_fits entries base whole few small =
    let n = length entries in
    let start : add64 base (mul64 n region_struct_size) ≡ base + n * 48 =
      omega (arith, few, small) in
    let (shape, end) =
      bitmap_base-total entries (base + n * 48) whole (omega (arith, few, small)) in
    let sum = sum_lengths-total entries 0 (omega (arith, small)) in
    omega (arith, ap (bitmap_base entries) start, end, sum, shape, few, small)
