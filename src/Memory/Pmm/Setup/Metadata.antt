-- ===== src/Memory/Pmm/Setup/Metadata.antt =====
-- What `pmm_init` sets up.
use j_oe_s.Base.{
  ℕ, zero, suc, ◌+◌, ◌*◌, ◌%◌, ◌<◌, ◌≤◌, ◌≡◌, ◌⊎◌, inl, inr, true, false, ◌&&◌, not, none, some,
  List, [], ◌∷◌, map, ltb, leb, ◌==◌, if◌then◌else◌, length, get_elem?, add64, word64, arith, refl,
  ap, sym, subst, ◌∙◌, Bool-cases, ==_iff, eq_of_some,
}
use j_oe_s.Memory.Region.{Region, is_usable, region_init, page_size_byte}
use j_oe_s.Memory.Region.Bitmap.{page_bit}
use j_oe_s.Memory.Region.Marks
use j_oe_s.Memory.Region.Marks.{InPage, pages, mark_page_used_lem}
use j_oe_s.Memory.Region.Init.{region_init-IsValid}
use j_oe_s.Memory.Pmm.{ok, MemmapEntry}
use j_oe_s.Memory.Pmm.Setup.{region_of, mark_pages, mark_metadata}

-- Marking free pages of a valid region, one after the other, succeeds: the region stays valid, and
-- exactly the marked pages have become used.
pub mark_pages_lem :
    (left page : ℕ) (r : Region)
    → Marks.IsValid r
    → page + left ≤ pages r
    → ((q : ℕ) → page ≤ q → q < page + left → page_bit r.bitmap q ≡ false)
    → (r' : Region) × (mark_pages left page r.base r ≡ some (ok, r'))
      × Marks.IsValid r'
      × ((q : ℕ)
          → page_bit r'.bitmap q
            ≡ (if leb page q && ltb q (page + left) then true else page_bit r.bitmap q))
      × (r'.free_pages + left ≡ r.free_pages)
unfolding mark_pages
mark_pages_lem zero page r valid fits free = (r, refl, valid, λ q. ground arith, omega arith)
mark_pages_lem (suc left) page r valid fits free =
    let ptr = add64 r.base (page * page_size_byte) in
    let exact : ptr ≡ r.base + page * page_size_byte = omega (arith, valid.reach, fits) in
    let (r1, e, valid1, d, fewer) =
      mark_page_used_lem r page valid ptr
        (record {
          from = omega (arith, exact);
          below = omega (arith, exact);
          exists = omega (arith, fits);
        })
        (free page (omega arith) (omega arith)) in
    let (r2, e2, valid2, bits, fewer2) =
      mark_pages_lem left (page + 1) r1 valid1 (omega (arith, fits, d))
        (λ q p h. ground (arith, d.bits q, free q)) in
    (
      r2,
      rw (e, mark_pages) (ap (λ b. mark_pages left (page + 1) b r1) (sym d.same_base) ∙ e2),
      valid2,
      λ q. ground (arith, bits q, d.bits q),
      omega (arith, fewer, fewer2),
    )

-- An entry whose region `pmm_region_init` sets up valid.
abbrev pub IsFine : MemmapEntry → Type 0
IsFine e =
    (e.base + e.entry_length < word64)
    × ((is_usable e.memory_type ≡ false) ⊎ (e.entry_length % 32768 ≡ 0))

-- An entry at the metadata's address is usable, and large enough for the metadata.
abbrev pub Holds : ℕ → ℕ → MemmapEntry → Type 0
Holds base required_pages e =
    e.base ≡ base → (is_usable e.memory_type ≡ true) × (required_pages * 4096 ≤ e.entry_length)

abbrev pub AllValid : List Region → Type 0
AllValid regions = (i : ℕ) (r : Region) → get_elem? regions i ≡ some r → Marks.IsValid r

cons-AllValid :
    (r : Region) (rest : List Region) → Marks.IsValid r → AllValid rest → AllValid (r ∷ rest)
cons-AllValid r rest v vs zero a at = subst Marks.IsValid (eq_of_some at) v
cons-AllValid r rest v vs (suc i) a at = vs i a at

region_of-IsValid : (e : MemmapEntry) → IsFine e → Marks.IsValid (region_of e)
region_of-IsValid e (reach, shape) =
    (region_init-IsValid e.base e.entry_length e.memory_type reach shape).0

all_fresh :
    (entries : List MemmapEntry)
    → ((i : ℕ) (e : MemmapEntry) → get_elem? entries i ≡ some e → IsFine e)
    → AllValid (map region_of entries) × (length (map region_of entries) ≡ length entries)
all_fresh [] fine = (λ i r at. absurd (ground (arith, at)), refl)
all_fresh (e ∷ entries) fine =
    let (rest, same) = all_fresh entries (λ i a at. fine (suc i) a at) in
    (
      cons-AllValid (region_of e) (map region_of entries) (region_of-IsValid e (fine 0 e refl))
          rest,
      ap suc same,
    )

-- Marking the metadata succeeds and leaves as many regions as there are entries, all of them valid.
pub mark_metadata_lem :
    (entries : List MemmapEntry) (base required_pages : ℕ)
    → ((i : ℕ) (e : MemmapEntry) → get_elem? entries i ≡ some e → IsFine e)
    → ((i : ℕ) (e : MemmapEntry) → get_elem? entries i ≡ some e → Holds base required_pages e)
    → (regions : List Region) × (mark_metadata (map region_of entries) base required_pages
        ≡ some (ok, regions))
      × (length regions ≡ length entries)
      × AllValid regions
unfolding mark_metadata region_init
mark_metadata_lem [] base required_pages fine holds =
    ([], refl, refl, λ i r at. absurd (ground (arith, at)))
mark_metadata_lem (e ∷ entries) base required_pages fine holds =
    elim (Bool-cases (e.base == base)) [
      | inr other ↦
          let (rest, eq, same, valid) =
            mark_metadata_lem entries base required_pages (λ i a at. fine (suc i) a at)
              (λ i a at. holds (suc i) a at) in
          (
            region_of e ∷ rest,
            rw (other, mark_metadata, eq) refl,
            ap suc same,
            cons-AllValid (region_of e) rest (region_of-IsValid e (fine 0 e refl)) valid,
          )
      | inl here ↦
          let at = (==_iff e.base base).0 here in
          let (usable, room) = holds 0 e refl at in
          let (reach, shape) = fine 0 e refl in
          let (valid, bits) = region_init-IsValid e.base e.entry_length e.memory_type reach shape in
          let (r', eq, valid', law, count) =
            mark_pages_lem required_pages 0 (region_of e) valid (omega (arith, room))
              (λ q p h. bits q (omega (arith, room, h)) ∙ ap not usable) in
          let (rest, same) = all_fresh entries (λ i a get. fine (suc i) a get) in
          (
            r' ∷ map region_of entries,
            rw (here, mark_metadata)
                (ap
                    (λ b. elim (mark_pages required_pages 0 b (region_of e)) [
                      | none ↦ none
                      | some (status, r2) ↦ some (status, r2 ∷ map region_of entries)
                    ])
                    (sym at)
                  ∙ rw eq refl),
            ap suc same,
            cons-AllValid r' (map region_of entries) valid' rest,
          )
    ]
