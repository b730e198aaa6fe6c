-- ===== src/Memory/Paging/Frames.antt =====
-- The pages that the memory manager hands out for tables: which of them are in use, and what an
-- allocation changes.
use j_oe_s.Base.{
  ℕ, suc, ◌+◌, ◌*◌, ◌<◌, ◌≤◌, ◌≡◌, ◌≢◌, inl, inr, true, some, ◌==◌, ltb, ltb→lt, ltb→le, get_elem?,
  Bool-cases, ==_iff, ==→ne, ap, sym, ◌∙◌, arith, eq_of_some, get_elem?-set_ne,
}
use j_oe_s.Memory.Region.{Region, page_size_byte}
use j_oe_s.Memory.Region.Bitmap.{page_bit}
use j_oe_s.Memory.Region.Marks.{pages}
use j_oe_s.Memory.Pmm.{Pmm, alloc}
use j_oe_s.Memory.Pmm.Scan.{scan_bytes_hit}
use j_oe_s.Memory.Pmm.State.{IsValid, Turned, Turned-get_elem?, Turned-now}
use j_oe_s.Memory.Pmm.Search.{IsOrdered}
use j_oe_s.Memory.Pmm.Alloc.{alloc_lem}

-- No free page of the memory manager has the address.
abbrev pub IsUsed : Pmm → ℕ → Type 0
IsUsed p phys =
    (i n : ℕ) (r : Region)
    → get_elem? p.regions i ≡ some r
    → n < pages r
    → phys ≡ r.base + n * page_size_byte
    → page_bit r.bitmap n ≡ true

-- Some region counts at least `k` free pages.
abbrev pub Supplies : Pmm → ℕ → Type 0
Supplies p k = (i : ℕ) × (r : Region) × (get_elem? p.regions i ≡ some r) × (k ≤ r.free_pages)

module _ (p p' : Pmm) (ptr index n : ℕ) (t : Turned p p' ptr index n true) where
  pub fresh : (phys : ℕ) → IsUsed p phys → phys ≢ ptr
  fresh phys used e = ground (arith, used index n t.r t.was t.exists (e ∙ t.address), t.before)

  pub IsUsed-Turned : (phys : ℕ) → IsUsed p phys → IsUsed p' phys
  IsUsed-Turned phys used i m a at lt place =
      elim (Turned-get_elem? p p' ptr index n true t i a at) [
        | inr (ne, old) ↦ used i m a old lt place
        | inl (e, new) ↦
            ap (λ x. page_bit x.bitmap m) new
            ∙ ground (
              arith,
              t.differs.bits m,
              used index m t.r t.was (omega (arith, lt, ap pages new, t.differs))
                  (omega (arith, place, ap (λ x. x.base) new, t.differs)),
            )
      ]

  pub IsUsed-address : IsOrdered p.regions → IsUsed p' ptr
  IsUsed-address ordered i m a at lt place =
      elim (Turned-get_elem? p p' ptr index n true t i a at) [
        | inl (e, new) ↦
            ap (λ x. page_bit x.bitmap m) new
            ∙ ground (
              arith,
              t.differs.bits m,
              place,
              t.address,
              ap (λ x. x.base) new,
              t.differs.same_base,
            )
        | inr (ne, old) ↦ elim (Bool-cases (ltb i index)) [
          | inl before ↦ absurd (
              omega (
                arith,
                ordered.ascending i index a t.r (ltb→lt i index before) old t.was,
                t.address,
                t.exists,
                place,
                lt,
              ))
          | inr behind ↦ absurd (
              omega (
                arith,
                ordered.ascending index i t.r a (omega (arith, ltb→le i index behind, ne)) t.was
                    old,
                t.address,
                t.exists,
                place,
                lt,
              ))
        ]
      ]

  pub Supplies-Turned : (k : ℕ) → Supplies p (suc k) → Supplies p' k
  Supplies-Turned k (i, r, at, enough) = elim (Bool-cases (i == index)) [
    | inl e ↦
        let same : r ≡ t.r = eq_of_some (sym at ∙ rw ((==_iff i index).0 e) t.was) in
        (
          index,
          t.r',
          Turned-now p p' ptr index n true t,
          omega (arith, t.counted, enough, ap (λ x. x.free_pages) same),
        )
    | inr ne ↦ (
      i,
      r,
      ap (λ l. get_elem? l i) t.now
          ∙ get_elem?-set_ne p.regions index i t.r' (λ e. ==→ne i index ne (sym e))
          ∙ at,
      omega (arith, enough),
    )
  ]

-- Where a region has a free page, an allocation succeeds.
pub alloc_supplied :
    (p : Pmm) (k : ℕ)
    → IsValid p
    → Supplies p (suc k)
    → (ptr index n : ℕ) × (p' : Pmm) × (alloc p ≡ some (ptr, p'))
      × Turned p p' ptr index n true
      × IsValid p'
alloc_supplied p k valid (i, r, at, enough) = elim (alloc_lem p valid) [
  | inl (ptr, index, n, p', e, t, keeps) ↦ (ptr, index, n, p', e, t, keeps)
  | inr (e, full) ↦
      let (b, bit, h, hk, hb, clear) =
        scan_bytes_hit r (valid.each i r at) p.bitmap_cache valid.bitmap_start
          (omega (arith, enough)) in
      absurd (ground (arith, clear, full i (b * 8 + bit) r at))
]
