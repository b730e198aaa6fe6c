-- ===== src/Memory/Pmm/Search.antt =====
-- `get_region_containing_page`: the binary search over the regions.
use j_oe_s.Base.{
  ℕ, zero, suc, ◌+◌, ◌-◌, ◌/◌, ◌^◌, ◌<◌, ◌≤◌, ◌≡◌, inl, inr, some, List, Bool-cases, get_elem?,
  length, get_elem?_of_lt, lt_of_get_elem?, get_elem?_of_ge, ap, ◌∙◌, arith, add64, sub64, word64,
  ltb, ltb→lt, ltb→le,
}
use j_oe_s.Memory.Region.{Region}
use j_oe_s.Memory.Pmm.{
  Pmm, found, out_of_bounds, below, above, here, side_of, middle, search_loop,
  get_region_containing_page,
}
use j_oe_s.Memory.Pmm.State.{IsValid}

-- The regions ascend, do not overlap, and none is empty.
pub record IsOrdered (regions : List Region) : Type 0 where
  pub ascending :
      (i j : ℕ) (r q : Region)
      → i < j
      → get_elem? regions i ≡ some r
      → get_elem? regions j ≡ some q
      → r.base + r.region_length ≤ q.base
  pub filled : (i : ℕ) (r : Region) → get_elem? regions i ≡ some r → 0 < r.region_length
  pub reach :
      (i : ℕ) (r : Region) → get_elem? regions i ≡ some r → r.base + r.region_length < word64

-- `ptr` is an address in the region.
abbrev pub Contains : Region → ℕ → Type 0
Contains r ptr = (r.base ≤ ptr) × (ptr < r.base + r.region_length)

module _ (regions : List Region) (ordered : IsOrdered regions) (few : length regions < 2 ^ 32) where
  module _ (ptr k : ℕ) (target : Region) (at : get_elem? regions k ≡ some target)
      (inside : Contains target ptr) where
    side_of-above :
        (mid : ℕ) (r : Region) → get_elem? regions mid ≡ some r → mid < k → side_of r ptr ≡ above
    side_of-above mid r e lt = ground (
      arith,
      ordered.ascending mid k r target lt e at,
      ordered.filled mid r e,
      ordered.reach mid r e,
    )

    side_of-below :
        (mid : ℕ) (r : Region) → get_elem? regions mid ≡ some r → k < mid → side_of r ptr ≡ below
    side_of-below mid r e lt = ground (arith, ordered.ascending k mid target r lt at e)

    side_of-here : side_of target ptr ≡ here
    side_of-here = ground (arith, ordered.filled k target at, ordered.reach k target at)

    -- The round at `mid`, where the region `r` stands.
    search_loop-above :
        (rounds lo hi mid : ℕ) (r : Region)
        → middle lo hi ≡ mid
        → get_elem? regions mid ≡ some r
        → mid < k
        → search_loop regions ptr (suc rounds) lo hi
          ≡ search_loop regions ptr rounds (add64 mid 1) hi
    unfolding search_loop
    search_loop-above rounds lo hi mid r m e lt = ground (arith, m, e, side_of-above mid r e lt)

    search_loop-below :
        (rounds lo hi mid : ℕ) (r : Region)
        → middle lo hi ≡ mid
        → get_elem? regions mid ≡ some r
        → k < mid
        → search_loop regions ptr (suc rounds) lo hi
          ≡ search_loop regions ptr rounds lo (sub64 mid 1)
    unfolding search_loop
    search_loop-below rounds lo hi mid r m e lt = ground (arith, m, e, side_of-below mid r e lt)

    search_loop-here :
        (rounds lo hi : ℕ) → middle lo hi ≡ k → search_loop regions ptr (suc rounds) lo hi ≡ found k
    unfolding search_loop
    search_loop-here rounds lo hi m = ground (arith, m, at, side_of-here)

    -- The window keeps the target, and shrinks in every round.
    search_loop_found :
        (rounds lo hi : ℕ)
        → lo ≤ k
        → k ≤ hi
        → hi < length regions
        → hi < lo + rounds
        → search_loop regions ptr rounds lo hi ≡ found k
    search_loop_found zero lo hi p q h m = absurd (omega arith)
    search_loop_found (suc rounds) lo hi p q h m =
        let mid = (lo + hi) / 2 in
        let exact : middle lo hi ≡ mid = omega arith in
        let (r, e) = get_elem?_of_lt regions mid (omega arith) in
        elim (Bool-cases (ltb mid k)) [
          | inl low ↦
              let lt = ltb→lt mid k low in
              rw (search_loop-above rounds lo hi mid r exact e lt) (
                ap (λ t. search_loop regions ptr rounds t hi) (omega arith)
                ∙ search_loop_found rounds (mid + 1) hi (omega arith) q h (omega arith))
          | inr not_low ↦ elim (Bool-cases (ltb k mid)) [
            | inl high ↦
                let lt = ltb→lt k mid high in
                rw (search_loop-below rounds lo hi mid r exact e lt) (
                  ap (λ t. search_loop regions ptr rounds lo t) (omega arith)
                  ∙ search_loop_found rounds lo (mid - 1) p (omega arith) (omega arith)
                      (omega arith))
            | inr not_high ↦
                search_loop-here rounds lo hi
                  (omega (arith, ltb→le mid k not_low, ltb→le k mid not_high))
          ]
        ]

  -- Below all regions the upper bound goes down to 0, and then to the largest `size_t`.
  module _ (ptr : ℕ)
      (under : (i : ℕ) (r : Region) → get_elem? regions i ≡ some r → ptr < r.base) where
    search_loop-under :
        (rounds hi mid : ℕ) (r : Region)
        → middle 0 hi ≡ mid
        → get_elem? regions mid ≡ some r
        → search_loop regions ptr (suc rounds) 0 hi ≡ search_loop regions ptr rounds 0 (sub64 mid 1)
    unfolding search_loop
    search_loop-under rounds hi mid r m e = ground (arith, m, e, under mid r e)

    search_loop_wrapped :
        (rounds : ℕ) → search_loop regions ptr (suc rounds) 0 (sub64 0 1) ≡ out_of_bounds
    unfolding search_loop
    search_loop_wrapped rounds =
        ground (arith, get_elem?_of_ge regions (middle 0 (sub64 0 1)) (omega arith))

    search_loop_under :
        (rounds hi : ℕ)
        → hi < length regions
        → hi < rounds
        → 2 ≤ rounds
        → search_loop regions ptr rounds 0 hi ≡ out_of_bounds
    search_loop_under zero hi h p q = absurd (omega arith)
    search_loop_under (suc zero) hi h p q = absurd (omega arith)
    search_loop_under (suc (suc rounds)) hi h p q =
        let exact : middle 0 hi ≡ hi / 2 = omega arith in
        let (r, e) = get_elem?_of_lt regions (hi / 2) (omega arith) in
        rw (search_loop-under (suc rounds) hi (hi / 2) r exact e) (elim (Bool-cases (ltb hi 2)) [
          | inl low ↦
              let z : hi / 2 ≡ 0 = omega (arith, ltb→lt hi 2 low) in
              rw z (search_loop_wrapped rounds)
          | inr high ↦
              ap (λ t. search_loop regions ptr (suc rounds) 0 t) (omega (arith, ltb→le hi 2 high))
              ∙ search_loop_under (suc rounds) (hi / 2 - 1) (omega arith)
                  (omega (arith, ltb→le hi 2 high)) (omega (arith, ltb→le hi 2 high))
        ])

-- Of a valid state with ordered regions, the search finds the region that holds the address, in as
-- many rounds as there are regions.
pub get_region_containing_page_found :
    (s : Pmm) (ptr k : ℕ) (r : Region)
    → IsValid s
    → IsOrdered s.regions
    → get_elem? s.regions k ≡ some r
    → Contains r ptr
    → get_region_containing_page s ptr ≡ found k
unfolding get_region_containing_page
get_region_containing_page_found s ptr k r valid ordered at inside =
    let lt = lt_of_get_elem? s.regions k r at in
    rw (last_index s.num_regions (omega (arith, lt, valid.count)) valid.small) (
      search_loop_found s.regions ordered (omega (arith, valid.count, valid.small)) ptr k r at
        inside s.num_regions 0 (s.num_regions - 1) (omega arith) (omega (arith, lt, valid.count))
        (omega (arith, lt, valid.count)) (omega (arith, lt, valid.count)))
  where
    last_index : (n : ℕ) → 0 < n → n < 2 ^ 32 → sub64 n 1 ≡ n - 1
    last_index n p q = omega arith

-- Of an address below all regions, the search reads outside the array of at least two regions.
pub get_region_containing_page_under :
    (s : Pmm) (ptr : ℕ)
    → IsValid s
    → IsOrdered s.regions
    → 2 ≤ s.num_regions
    → ((i : ℕ) (r : Region) → get_elem? s.regions i ≡ some r → ptr < r.base)
    → get_region_containing_page s ptr ≡ out_of_bounds
unfolding get_region_containing_page
get_region_containing_page_under s ptr valid ordered two under =
    ap (λ t. search_loop s.regions ptr s.num_regions 0 t) (omega (arith, valid.small))
    ∙ search_loop_under s.regions ordered (omega (arith, valid.count, valid.small)) ptr under
        s.num_regions (s.num_regions - 1) (omega (arith, valid.count)) (omega arith) two
