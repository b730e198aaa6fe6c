-- ===== src/Memory/Paging/MapResolve.antt =====
-- `paging_map_page` at each level: a page that it maps is what `paging_resolve_virtual_address` finds.
use j_oe_s.Base.{
  ℕ, suc, ◌<◌, ◌≡◌, ◌⊎◌, inl, inr, Bool, true, false, refl, ap, sym, subst, ◌∙◌, arith,
}
use j_oe_s.Memory.Paging.{
  Paging, table_at, descend, then_table, map_in_pt, map_in_pd, map_in_pdpr,
  map_page_without_tlb_invalidation, resolve_in_pt, resolve_in_pd, resolve_in_pdpr,
  resolve_virtual_address,
}
use j_oe_s.Memory.Paging.Entry.{
  pml4, pdpr, pd, pt, page, PageSize, size_4kb, size_2mb, size_1gb, is_present, is_large, pml4_idx,
  pdpr_idx, pd_idx, pt_idx, create_entry,
}
use j_oe_s.Memory.Paging.Fields.{create_entry-is_large}
use j_oe_s.Memory.Paging.Frames.{Supplies}
use j_oe_s.Memory.Paging.Tables.{IsTables, Leads, Descended}
use j_oe_s.Memory.Paging.Descend.{descend_lem}
use j_oe_s.Memory.Paging.Walk.{step_pd, step_pdpr, step_root}
use j_oe_s.Memory.Paging.Beside.{other_pt, other_leaf}
use j_oe_s.Memory.Paging.Map.{
  IsFrame, VacantPt, VacantPd, VacantPdpr, IsVacant, Maps, HitPt, HitPd, HitPdpr,
}
use j_oe_s.Memory.Paging.Through.{map_leaf-Maps, then-Maps}
use j_oe_s.Memory.Paging.Resolve.{
  InPt, InPd, InPdpr, InRoot, resolve_pt_found, resolve_pd_found, resolve_pdpr_found,
  resolve_pd_through, through_2mb, through_4kb, resolve_root_through,
}

-- A fresh table is vacant, and an old one is as vacant as before.
module _ (s s1 : Paging) (rank rank1 : ℕ → ℕ) (k table idx next virt : ℕ)
    (d : Descended s s1 rank rank1 k table idx next) where
  vacant_below :
      (P : Paging → ℕ → Type 0)
      → (is_present (s.entries table idx) ≡ true → P s (table_at s (s.entries table idx)))
      → (((i : ℕ) → i < 512 → s1.entries next i ≡ 0) → P s1 next)
      → P s1 next
  vacant_below P old new = elim d.new_or_old [
    | inl (there, same) ↦
        subst (P s1) (sym (same_next same))
          (subst (λ t. P t (table_at s (s.entries table idx))) (sym same) (old there))
    | inr (absent, zeros) ↦ new zeros
  ]
    where
      same_next : s1 ≡ s → next ≡ table_at s (s.entries table idx)
      same_next same = sym d.leads.points ∙ ap (λ t. table_at t (t.entries table idx)) same

-- What a mapping below a PT, a PD or a PDPR does.
abbrev MapsInPt : Paging → (ℕ → ℕ) → ℕ → ℕ → ℕ → ℕ → Type 0
MapsInPt s rank phys virt flags table =
    Maps (map_in_pt phys virt flags table s) s rank 1 table (InPt phys virt table)
      (λ t v x. resolve_in_pt t v x) (HitPt virt)

abbrev MapsInPd : Paging → (ℕ → ℕ) → ℕ → ℕ → PageSize → ℕ → ℕ → Type 0
MapsInPd s rank phys virt size flags table =
    Maps (map_in_pd phys virt size flags table s) s rank 2 table (InPd phys virt size table)
      (λ t v x. resolve_in_pd t v x) (HitPd virt size)

abbrev MapsInPdpr : Paging → (ℕ → ℕ) → ℕ → ℕ → PageSize → ℕ → ℕ → Type 0
MapsInPdpr s rank phys virt size flags table =
    Maps (map_in_pdpr phys virt size flags table s) s rank 3 table (InPdpr phys virt size table)
      (λ t v x. resolve_in_pdpr t v x) (HitPdpr virt size)

not_two : {b : Bool} {k : ℕ} → k < 2 → (b ≡ false) ⊎ (k ≡ 2) → b ≡ false
not_two lt (inl h) = h
not_two lt (inr h) = absurd (omega (arith, h, lt))

module _ (s : Paging) (rank : ℕ → ℕ) (phys virt flags table : ℕ) (good : IsTables s rank)
    (there : is_present flags ≡ true) where
  map_in_pt-Maps :
      rank table ≡ 1
      → IsFrame size_4kb phys flags
      → VacantPt s virt table
      → MapsInPt s rank phys virt flags table
  unfolding map_in_pt
  map_in_pt-Maps ranked frame vacant =
      map_leaf-Maps s rank 0 table (pt_idx virt) phys flags pt _ _ (HitPt virt) good ranked
        (inl refl) vacant (resolve_pt_found phys virt flags table frame there)
        (λ v t r. other_pt s table (pt_idx virt) (create_entry phys flags pt page) v t)

  map_2mb_in_pd-Maps :
      rank table ≡ 2
      → IsFrame size_2mb phys flags
      → VacantPd s virt size_2mb table
      → MapsInPd s rank phys virt size_2mb flags table
  unfolding map_in_pd step_pd
  map_2mb_in_pd-Maps ranked frame vacant =
      map_leaf-Maps s rank 1 table (pd_idx virt) phys flags pd _ _ (HitPd virt size_2mb) good ranked
        (inr (create_entry-is_large phys flags pd page ∙ frame.2, λ e. absurd (omega (arith, e))))
        vacant (resolve_pd_found phys virt flags table frame there)
        (other_leaf s table (pd_idx virt) (create_entry phys flags pd page) rank good 0 _ _ step_pd
          ranked)

  map_1gb_in_pdpr-Maps :
      rank table ≡ 3
      → IsFrame size_1gb phys flags
      → VacantPdpr s virt size_1gb table
      → MapsInPdpr s rank phys virt size_1gb flags table
  unfolding map_in_pdpr step_pdpr
  map_1gb_in_pdpr-Maps ranked frame vacant =
      map_leaf-Maps s rank 2 table (pdpr_idx virt) phys flags pdpr _ _ (HitPdpr virt size_1gb) good
        ranked
        (inr (create_entry-is_large phys flags pdpr page ∙ frame.2, λ e. absurd (omega (arith, e))))
        vacant (resolve_pdpr_found phys virt flags table frame there)
        (other_leaf s table (pdpr_idx virt) (create_entry phys flags pdpr page) rank good 1 _ _
          step_pdpr ranked)

-- One step down, and then what the size asks for below.
module _ (s : Paging) (rank : ℕ → ℕ) (phys virt flags table : ℕ) (good : IsTables s rank)
    (there : is_present flags ≡ true) where
  map_4kb_in_pd-Maps :
      rank table ≡ 2
      → Supplies s.pmm 1
      → IsFrame size_4kb phys flags
      → VacantPd s virt size_4kb table
      → MapsInPd s rank phys virt size_4kb flags table
  unfolding map_in_pd step_pd
  map_4kb_in_pd-Maps ranked supplies frame vacant =
      let (next, s1, rank1, e, d, rest) =
        descend_lem s rank 0 table (pd_idx virt) 0 pd good ranked (omega arith)
          (λ h. inl (vacant h).0) supplies in
      let below =
        vacant_below s s1 rank rank1 0 table (pd_idx virt) next virt d (λ t x. VacantPt t virt x)
          (λ h. (vacant h).1) (λ zeros. ap is_present (zeros (pt_idx virt) (omega arith))) in
      then-Maps 0 _ _ step_pd virt s s1 rank rank1 table next good d ranked
        (map_in_pt phys virt flags next s1) (InPt phys virt next) (HitPt virt)
        (map_in_pt-Maps s1 rank1 phys virt flags next d.keeps there d.next_rank frame below)
        (map_in_pt phys virt flags) _ pd e refl
        (λ s' l small h.
          resolve_pd_through phys virt table next s' l (not_two (omega arith) small) h)

  -- Through a PDPR to a PD.
  through_pdpr :
      (size : PageSize) (j : ℕ)
      → rank table ≡ 3
      → Supplies s.pmm (suc j)
      → (is_present (s.entries table (pdpr_idx virt)) ≡ true
          → (is_large (s.entries table (pdpr_idx virt)) ≡ false)
            × VacantPd s virt size (table_at s (s.entries table (pdpr_idx virt))))
      → ((s1 : Paging) (next : ℕ)
          → ((i : ℕ) → i < 512 → s1.entries next i ≡ 0)
          → VacantPd s1 virt size next)
      → ((s1 : Paging) (rank1 : ℕ → ℕ) (next : ℕ)
          → IsTables s1 rank1
          → rank1 next ≡ 2
          → Supplies s1.pmm j
          → VacantPd s1 virt size next
          → MapsInPd s1 rank1 phys virt size flags next)
      → ((next : ℕ) (s' : Paging)
          → Leads s' table (pdpr_idx virt) next
          → is_large (s'.entries table (pdpr_idx virt)) ≡ false
          → InPd phys virt size next s'
          → InPdpr phys virt size table s')
      → Maps
          (then_table (descend s table (pdpr_idx virt) pdpr) (map_in_pd phys virt size flags))
          s
          rank
          3
          table
          (InPdpr phys virt size table)
          (λ t v x. resolve_in_pdpr t v x)
          (λ v. (pdpr_idx v ≡ pdpr_idx virt) × HitPd virt size v)
  unfolding step_pdpr
  through_pdpr size j ranked supplies vacant zeroed below through =
      let (next, s1, rank1, e, d, rest) =
        descend_lem s rank 1 table (pdpr_idx virt) j pdpr good ranked (omega arith)
          (λ h. inl (vacant h).0) supplies in
      let vacant' =
        vacant_below s s1 rank rank1 1 table (pdpr_idx virt) next virt d
          (λ t x. VacantPd t virt size x) (λ h. (vacant h).1) (zeroed s1 next) in
      then-Maps 1 _ _ step_pdpr virt s s1 rank rank1 table next good d ranked
        (map_in_pd phys virt size flags next s1) (InPd phys virt size next) (HitPd virt size)
        (below s1 rank1 next d.keeps d.next_rank rest vacant') (map_in_pd phys virt size flags) _
        pdpr e refl (λ s' l small h. through next s' l (not_two (omega arith) small) h)

map_in_pdpr-Maps :
    (s : Paging) (rank : ℕ → ℕ) (phys virt flags table : ℕ) (size : PageSize)
    → IsTables s rank
    → is_present flags ≡ true
    → rank table ≡ 3
    → Supplies s.pmm 2
    → IsFrame size phys flags
    → VacantPdpr s virt size table
    → MapsInPdpr s rank phys virt size flags table
unfolding map_in_pdpr
map_in_pdpr-Maps s rank phys virt flags table size_1gb good there ranked supplies frame vacant =
    map_1gb_in_pdpr-Maps s rank phys virt flags table good there ranked frame vacant
map_in_pdpr-Maps s rank phys virt flags table size_2mb good there ranked supplies frame vacant =
    through_pdpr s rank phys virt flags table good there size_2mb 1 ranked supplies vacant
      (λ s1 next zeros. ap is_present (zeros (pd_idx virt) (omega arith)))
      (λ s1 rank1 next good' ranked' rest vacant'.
        map_2mb_in_pd-Maps s1 rank1 phys virt flags next good' there ranked' frame vacant')
      (λ next s' l small h. through_2mb phys virt table next s' l small h)
map_in_pdpr-Maps s rank phys virt flags table size_4kb good there ranked supplies frame vacant =
    through_pdpr s rank phys virt flags table good there size_4kb 1 ranked supplies vacant
      (λ s1 next zeros h. absurd (ground (arith, h, zeros (pd_idx virt) (omega arith))))
      (λ s1 rank1 next good' ranked' rest vacant'.
        map_4kb_in_pd-Maps s1 rank1 phys virt flags next good' there ranked' rest frame vacant')
      (λ next s' l small h. through_4kb phys virt table next s' l small h)

zeroed_pdpr :
    (s : Paging) (virt : ℕ) (size : PageSize) (next : ℕ)
    → ((i : ℕ) → i < 512 → s.entries next i ≡ 0)
    → VacantPdpr s virt size next
zeroed_pdpr s virt size_1gb next zeros = ap is_present (zeros (pdpr_idx virt) (omega arith))
zeroed_pdpr s virt size_2mb next zeros =
    λ h. absurd (ground (arith, h, zeros (pdpr_idx virt) (omega arith)))
zeroed_pdpr s virt size_4kb next zeros =
    λ h. absurd (ground (arith, h, zeros (pdpr_idx virt) (omega arith)))

-- Where a region has three free pages and nothing is mapped at the address, a mapping of any of the
-- three sizes succeeds: the address then resolves to the frame, the addresses of other pages resolve
-- as before, and the tables stay well-formed.
pub map_page_without_tlb_invalidation-Maps :
    (s : Paging) (rank : ℕ → ℕ) (root phys virt flags : ℕ) (size : PageSize)
    → IsTables s rank
    → rank root ≡ 4
    → Supplies s.pmm 3
    → IsFrame size phys flags
    → is_present flags ≡ true
    → IsVacant s virt size root
    → Maps
        (map_page_without_tlb_invalidation s root phys virt size flags)
        s
        rank
        4
        root
        (InRoot phys virt size root)
        (λ t v x. resolve_virtual_address t x v)
        (λ v. (pml4_idx v ≡ pml4_idx virt) × HitPdpr virt size v)
unfolding map_page_without_tlb_invalidation step_root
map_page_without_tlb_invalidation-Maps s rank root phys virt flags size good ranked supplies frame
      there vacant =
    let (next, s1, rank1, e, d, rest) =
      descend_lem s rank 2 root (pml4_idx virt) 2 pml4 good ranked (omega arith) (λ h. inr refl)
        supplies in
    let vacant' =
      vacant_below s s1 rank rank1 2 root (pml4_idx virt) next virt d
        (λ t x. VacantPdpr t virt size x) vacant (λ zeros. zeroed_pdpr s1 virt size next zeros) in
    then-Maps 2 _ _ step_root virt s s1 rank rank1 root next good d ranked
      (map_in_pdpr phys virt size flags next s1) (InPdpr phys virt size next) (HitPdpr virt size)
      (map_in_pdpr-Maps s1 rank1 phys virt flags next size d.keeps there d.next_rank rest frame
        vacant')
      (map_in_pdpr phys virt size flags) _ pml4 e refl
      (λ s' l small h. resolve_root_through phys virt root next size s' l h)
