-- ===== src/Memory/Paging/Owned.antt =====
-- The pages that the memory manager knows, and `pmm_free` of one of them.
use j_oe_s.Base.{
  ℕ, ◌+◌, ◌*◌, ◌<◌, ◌≡◌, ◌≢◌, inl, inr, Bool, false, some, subst, ◌==◌, get_elem?, Bool-cases,
  ==_iff, ==→ne, ap, sym, ◌∙◌, arith, eq_of_some, get_elem?-set_ne,
}
use j_oe_s.Memory.Region.{Region, page_size_byte}
use j_oe_s.Memory.Region.Bitmap.{page_bit}
use j_oe_s.Memory.Region.Marks.{pages}
use j_oe_s.Memory.Pmm.{Pmm, ok, free}
use j_oe_s.Memory.Pmm.State.{IsValid, Turned, Turned-get_elem?, Turned-now}
use j_oe_s.Memory.Pmm.Search.{IsOrdered}
use j_oe_s.Memory.Pmm.Pages.{Locates, free_lem}
use j_oe_s.Memory.Paging.Frames.{IsUsed}

-- The address is that of a page that the memory manager knows.
pub record IsOwned (p : Pmm) (phys : ℕ) : Type 0 where
  pub index : ℕ
  pub n : ℕ
  pub r : Region
  pub at : get_elem? p.regions index ≡ some r
  pub exists : n < pages r
  pub address : phys ≡ r.base + n * page_size_byte

pub IsOwned-Turned :
    (p p' : Pmm) (ptr index n : ℕ) (v : Bool) (phys : ℕ)
    → Turned p p' ptr index n v
    → IsOwned p phys
    → IsOwned p' phys
IsOwned-Turned p p' ptr index n v phys t o = elim (Bool-cases (o.index == index)) [
  | inl e ↦
      let same : o.r ≡ t.r = eq_of_some (sym o.at ∙ rw ((==_iff o.index index).0 e) t.was) in
      record {
        index = index;
        n = o.n;
        r = t.r';
        at = Turned-now p p' ptr index n v t;
        exists = omega (arith, o.exists, ap pages same, t.differs);
        address = omega (arith, o.address, ap (λ x. x.base) same, t.differs);
      }
  | inr ne ↦ record {
    index = o.index;
    n = o.n;
    r = o.r;
    at =
        ap (λ l. get_elem? l o.index) t.now
        ∙ get_elem?-set_ne p.regions index o.index t.r' (λ e. ==→ne o.index index ne (sym e))
        ∙ o.at;
    exists = o.exists;
    address = o.address;
  }
]

pub IsOwned-address :
    (p p' : Pmm) (ptr index n : ℕ) (v : Bool) → Turned p p' ptr index n v → IsOwned p' ptr
IsOwned-address p p' ptr index n v t = record {
  index = index;
  n = n;
  r = t.r';
  at = Turned-now p p' ptr index n v t;
  exists = omega (arith, t.exists, t.differs);
  address = omega (arith, t.address, t.differs);
}

-- To free one page leaves the other pages in use.
pub IsUsed-freed :
    (p p' : Pmm) (ptr index n phys : ℕ)
    → Turned p p' ptr index n false
    → phys ≢ ptr
    → IsUsed p phys
    → IsUsed p' phys
IsUsed-freed p p' ptr index n phys t other used i m a at lt place =
    elim (Turned-get_elem? p p' ptr index n false t i a at) [
      | inr (ne, old) ↦ used i m a old lt place
      | inl (e, new) ↦ elim (Bool-cases (n == m)) [
        | inl same ↦ absurd (
            other (
              omega (
                arith,
                place,
                t.address,
                ap (λ x. x.base) new,
                t.differs.same_base,
                (==_iff n m).0 same,
              )))
        | inr ne ↦
            ap (λ x. page_bit x.bitmap m) new
            ∙ ground (
              arith,
              t.differs.bits m,
              ne,
              used index m t.r t.was (omega (arith, lt, ap pages new, t.differs))
                  (omega (arith, place, ap (λ x. x.base) new, t.differs)),
            )
      ]
    ]

-- A page of the memory manager that is in use can be freed.
pub free_owned :
    (p : Pmm) (phys : ℕ)
    → IsValid p
    → IsOrdered p.regions
    → IsOwned p phys
    → IsUsed p phys
    → (index n : ℕ) × (p' : Pmm) × (free p phys ≡ some (ok, p'))
      × Turned p p' phys index n false
      × IsValid p'
free_owned p phys valid ordered o used =
    let place : Locates p phys o.index o.n o.r = record {
      at = o.at;
      inside = record {
        from = omega (arith, o.address);
        below = omega (arith, o.address);
        exists = o.exists;
      };
    } in
    let (p', e, t, keeps) =
      free_lem p phys o.index o.n o.r valid ordered place
        (used o.index o.n o.r o.at o.exists o.address) in
    (o.index, o.n, p', e, subst (λ a. Turned p p' a o.index o.n false) (sym o.address) t, keeps)
