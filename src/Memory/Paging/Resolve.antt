-- ===== src/Memory/Paging/Resolve.antt =====
-- What `paging_resolve_virtual_address` and the way to the page look like after a mapping.
use j_oe_s.Base.{ℕ, ◌≡◌, true, false, sym, subst}
use j_oe_s.Memory.Paging.{
  Paging, resolve_in_pt, resolve_in_pd, resolve_in_pdpr, resolve_virtual_address,
}
use j_oe_s.Memory.Paging.Entry.{
  pdpr, pd, pt, page, PageSize, size_4kb, size_2mb, size_1gb, is_present, is_large, create_entry,
  pml4_idx, pdpr_idx, pd_idx, pt_idx,
}
use j_oe_s.Memory.Paging.Fields.{
  create_entry-is_present, create_entry-is_large, base_of_4kb_page, base_of_2mb_page,
  base_of_1gb_page,
}
use j_oe_s.Memory.Paging.Tables.{Leads}
use j_oe_s.Memory.Paging.Pages.{ReachesPd, ReachesPdpr, Reaches}
use j_oe_s.Memory.Paging.Map.{IsFrame}

abbrev pub InPt : ℕ → ℕ → ℕ → Paging → Type 0
InPt phys virt table s = resolve_in_pt s virt table ≡ phys

abbrev pub InPd : ℕ → ℕ → PageSize → ℕ → Paging → Type 0
InPd phys virt size table s = (resolve_in_pd s virt table ≡ phys) × (ReachesPd s virt size table)

abbrev pub InPdpr : ℕ → ℕ → PageSize → ℕ → Paging → Type 0
InPdpr phys virt size table s =
    (resolve_in_pdpr s virt table ≡ phys) × (ReachesPdpr s virt size table)

abbrev pub InRoot : ℕ → ℕ → PageSize → ℕ → Paging → Type 0
InRoot phys virt size root s =
    (resolve_virtual_address s root virt ≡ phys) × (Reaches s virt size root)

pub resolve_pt_found :
    (phys virt flags table : ℕ)
    → IsFrame size_4kb phys flags
    → is_present flags ≡ true
    → (s' : Paging) → s'.entries table (pt_idx virt) ≡ create_entry phys flags pt page
    → InPt phys virt table s'
unfolding resolve_in_pt
resolve_pt_found phys virt flags table (aligned, small) there s' e =
    rw (e, resolve_in_pt, create_entry-is_present phys flags pt page, there)
      (base_of_4kb_page phys flags aligned small)

pub resolve_pd_found :
    (phys virt flags table : ℕ)
    → IsFrame size_2mb phys flags
    → is_present flags ≡ true
    → (s' : Paging) → s'.entries table (pd_idx virt) ≡ create_entry phys flags pd page
    → InPd phys virt size_2mb table s'
unfolding resolve_in_pd
resolve_pd_found phys virt flags table (aligned, small, large) there s' e = (
  rw
      (
        e,
        resolve_in_pd,
        create_entry-is_present phys flags pd page,
        there,
        create_entry-is_large phys flags pd page,
        large,
      )
      (base_of_2mb_page phys flags aligned small),
  rw e (rw (create_entry-is_present phys flags pd page) there),
)

pub resolve_pdpr_found :
    (phys virt flags table : ℕ)
    → IsFrame size_1gb phys flags
    → is_present flags ≡ true
    → (s' : Paging) → s'.entries table (pdpr_idx virt) ≡ create_entry phys flags pdpr page
    → InPdpr phys virt size_1gb table s'
unfolding resolve_in_pdpr
resolve_pdpr_found phys virt flags table (aligned, small, large) there s' e = (
  rw
      (
        e,
        resolve_in_pdpr,
        create_entry-is_present phys flags pdpr page,
        there,
        create_entry-is_large phys flags pdpr page,
        large,
      )
      (base_of_1gb_page phys flags aligned small),
  rw e (rw (create_entry-is_present phys flags pdpr page) there),
)

pub resolve_pd_through :
    (phys virt table next : ℕ) (s' : Paging)
    → Leads s' table (pd_idx virt) next
    → is_large (s'.entries table (pd_idx virt)) ≡ false
    → InPt phys virt next s'
    → InPd phys virt size_4kb table s'
unfolding resolve_in_pd
resolve_pd_through phys virt table next s' l small below =
    (rw (l.there, resolve_in_pd, small, l.points) below, (l.there, small))

-- A page of 4 kB or of 2 MB lies below a PDPR.
pub resolve_pdpr_through :
    (phys virt table next : ℕ) (s' : Paging)
    → Leads s' table (pdpr_idx virt) next
    → is_large (s'.entries table (pdpr_idx virt)) ≡ false
    → (resolve_in_pd s' virt next ≡ phys)
    → resolve_in_pdpr s' virt table ≡ phys
unfolding resolve_in_pdpr
resolve_pdpr_through phys virt table next s' l small below =
    rw (l.there, resolve_in_pdpr, small, l.points) below

pub through_2mb :
    (phys virt table next : ℕ) (s' : Paging)
    → Leads s' table (pdpr_idx virt) next
    → is_large (s'.entries table (pdpr_idx virt)) ≡ false
    → InPd phys virt size_2mb next s'
    → InPdpr phys virt size_2mb table s'
through_2mb phys virt table next s' l small below = (
  resolve_pdpr_through phys virt table next s' l small below.0,
  (l.there, small, subst (λ t. ReachesPd s' virt size_2mb t) (sym l.points) below.1),
)

pub through_4kb :
    (phys virt table next : ℕ) (s' : Paging)
    → Leads s' table (pdpr_idx virt) next
    → is_large (s'.entries table (pdpr_idx virt)) ≡ false
    → InPd phys virt size_4kb next s'
    → InPdpr phys virt size_4kb table s'
through_4kb phys virt table next s' l small below = (
  resolve_pdpr_through phys virt table next s' l small below.0,
  (l.there, small, subst (λ t. ReachesPd s' virt size_4kb t) (sym l.points) below.1),
)

pub resolve_root_through :
    (phys virt table next : ℕ) (size : PageSize) (s' : Paging)
    → Leads s' table (pml4_idx virt) next
    → InPdpr phys virt size next s'
    → InRoot phys virt size table s'
unfolding resolve_virtual_address
resolve_root_through phys virt table next size s' l below = (
  rw (l.there, resolve_virtual_address, l.points) below.0,
  (l.there, subst (λ t. ReachesPdpr s' virt size t) (sym l.points) below.1),
)
