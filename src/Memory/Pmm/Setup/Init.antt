-- ===== src/Memory/Pmm/Setup/Init.antt =====
-- `pmm_init` establishes the invariant of the memory manager.
use j_oe_s.Base.{
  ℕ, suc, ◌*◌, ◌/◌, ◌^◌, ◌<◌, ◌≤◌, ◌≡◌, ◌≢◌, inl, inr, true, ◌&&◌, some, List, [], ◌∷◌, leb, length,
  get_elem?, mul64, word64, arith, refl, ap, sym, ◌∙◌, Bool-cases, ne→==, eq_of_some,
}
use j_oe_s.Memory.Region.{is_usable, page_size_byte}
use j_oe_s.Memory.Pmm.{Pmm, ok, MemmapEntry}
use j_oe_s.Memory.Pmm.State
use j_oe_s.Memory.Pmm.Setup.{
  find_space, init, initial, detect_memory, get_num_required_pages, sum_lengths,
}
use j_oe_s.Memory.Pmm.Setup.Metadata.{IsFine, mark_metadata_lem}

-- The entries start at different addresses.
abbrev pub IsDistinct : List MemmapEntry → Type 0
IsDistinct entries =
    (i j : ℕ) (e e' : MemmapEntry)
    → get_elem? entries i ≡ some e
    → get_elem? entries j ≡ some e'
    → e.base ≡ e'.base
    → i ≡ j

-- The number of pages that the metadata takes.
abbrev pub metadata_pages : List MemmapEntry → ℕ
metadata_pages entries =
    get_num_required_pages (length entries) (sum_lengths entries 0 / page_size_byte)

find_space_lem :
    (entries : List MemmapEntry) (required_pages : ℕ)
    → find_space entries required_pages ≢ 0
    → (i : ℕ) × (e : MemmapEntry) × (get_elem? entries i ≡ some e)
      × (e.base ≡ find_space entries required_pages)
      × (is_usable e.memory_type ≡ true)
      × (mul64 required_pages page_size_byte ≤ e.entry_length)
unfolding find_space
find_space_lem [] required_pages h = absurd (h refl)
find_space_lem (e ∷ entries) required_pages h =
    elim (Bool-cases
      (is_usable e.memory_type && leb (mul64 required_pages page_size_byte) e.entry_length)) [
        | inl fits ↦ (0, e, refl, rw fits refl, ground (arith, fits), ground (arith, fits))
        | inr other ↦
            let (i, e', at, base, usable, room) =
              find_space_lem entries required_pages (λ z. h (rw other z)) in
            (suc i, e', at, rw other base, usable, room)
      ]

required_pages_small : (regions pages : ℕ) → get_num_required_pages regions pages * 4096 < word64
unfolding get_num_required_pages
required_pages_small regions pages = omega arith

-- Of a memory map of fewer than 2^32 entries, which start at different addresses, end below 2^64
-- and, where they are usable, are multiples of eight pages long, `pmm_init` succeeds if a usable
-- entry has room for the metadata and the first that has does not start at 0, and the state that it
-- leaves is valid.
pub init-IsValid :
    (entries : List MemmapEntry) (hhdm_offset : ℕ)
    → length entries < 2 ^ 32
    → ((i : ℕ) (e : MemmapEntry) → get_elem? entries i ≡ some e → IsFine e)
    → IsDistinct entries
    → find_space entries (metadata_pages entries) ≢ 0
    → (s : Pmm) × (init entries hhdm_offset ≡ some (ok, s)) × State.IsValid s
unfolding init detect_memory
init-IsValid entries hhdm_offset few fine distinct space =
    let required = metadata_pages entries in
    let base = find_space entries required in
    let (i, e, at, start, usable, room) = find_space_lem entries required space in
    let small = required_pages_small (length entries) (sum_lengths entries 0 / page_size_byte) in
    let (regions, eq, same, valid) = mark_metadata_lem entries base required fine (λ j e' at' b.
      let one : e ≡ e' =
        eq_of_some
          (sym at ∙ ap (get_elem? entries) (distinct i j e e' at at' (start ∙ sym b)) ∙ at') in
      (
        ap (λ x. is_usable x.memory_type) (sym one) ∙ usable,
        omega (arith, room, small, ap (λ x. x.entry_length) one),
      )) in
    (
      initial (sum_lengths entries 0 / page_size_byte) (length entries) hhdm_offset regions,
      rw (ne→== base 0 space, init, eq) refl,
      record {
        count = same;
        small = few;
        each = valid;
        region_start = omega arith;
        bitmap_start = omega arith;
      },
    )
