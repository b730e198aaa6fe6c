-- ===== src/Memory/Paging/Through.antt =====
-- The leaves and the steps of a mapping, and what `paging_resolve_virtual_address` makes of them.
use j_oe_s.Base.{
  ℕ, suc, ◌≡◌, ◌≢◌, ◌⊎◌, inl, inr, true, false, Option, some, ◌&&◌, ◌==◌, Bool-cases, ==_iff, refl,
  ap, ap₂, sym, subst, ◌∙◌, arith, add64,
}
use j_oe_s.Memory.Paging.{
  Paging, PagingStatus, descend, map_leaf, then_table, table_at, write_entry,
}
use j_oe_s.Memory.Paging.Entry.{Level, page, is_present, is_large, base_4kb, create_entry}
use j_oe_s.Memory.Paging.Tables.{IsTables, Leads, Descended}
use j_oe_s.Memory.Paging.Walk.{Way, Way-rank, Way-kept, Step, above_same, above_way, walk_absent}
use j_oe_s.Memory.Paging.Map.{Maps, written, entries_written, entries_above, written-IsTables}

pub map_leaf-Maps :
    (s : Paging) (rank : ℕ → ℕ) (k table idx phys flags : ℕ) (level : Level)
    (post : Paging → Type 0) (resolve : Paging → ℕ → ℕ → ℕ) (Hit : ℕ → Type 0)
    → IsTables s rank
    → rank table ≡ suc k
    → (k ≡ 0) ⊎ ((is_large (create_entry phys flags level page) ≡ true) × (k ≢ 3))
    → is_present (s.entries table idx) ≡ false
    → ((s' : Paging) → s'.entries table idx ≡ create_entry phys flags level page → post s')
    → ((virt t : ℕ)
        → rank t ≡ suc k
        → ¬ ((t ≡ table) × Hit virt)
        → resolve (write_entry s table idx (create_entry phys flags level page)) virt t
          ≡ resolve s virt t)
    → Maps (map_leaf s table idx level phys flags) s rank (suc k) table post resolve Hit
unfolding map_leaf
map_leaf-Maps s rank k table idx phys flags level post resolve Hit good ranked leaf absent found
      others =
    let raw = create_entry phys flags level page in
    record {
      s' = written s rank k table idx raw good ranked leaf;
      rank' = rank;
      succeeds = rw (absent, map_leaf) refl;
      holds = found _ (entries_written s rank k table idx raw good ranked leaf);
      keeps = written-IsTables s rank k table idx raw good ranked leaf;
      ranks = λ t h. refl;
      frame = entries_above s rank k table idx raw good ranked leaf;
      same_offset = refl;
      others = others;
    }

-- One step down, and then a mapping below.
module _ (k : ℕ) (above below : Paging → ℕ → ℕ → ℕ) (l : Step k above below) (virt : ℕ)
    (s s1 : Paging) (rank rank1 : ℕ → ℕ) (table next : ℕ) (good : IsTables s rank)
    (d : Descended s s1 rank rank1 k table (l.ix virt) next) (ranked : rank table ≡ suc (suc k))
    (result : Option (PagingStatus × Paging)) (post : Paging → Type 0) (Hit : ℕ → Type 0)
    (m : Maps result s1 rank1 (suc k) next post below Hit) where
  abbrev idx : ℕ
  idx = l.ix virt

  kept : (t i : ℕ) → rank t ≡ suc (suc k) → m.s'.entries t i ≡ s1.entries t i
  kept t i r = m.frame t i (omega (arith, r, d.ranks t (λ z. absurd (omega (arith, z, r)))))

  leads' : Leads m.s' table idx next
  leads' = record {
    there = ap is_present (kept table idx ranked) ∙ d.leads.there;
    points =
        ap₂ (λ raw o. add64 (base_4kb raw) o) (kept table idx ranked) m.same_offset
        ∙ d.leads.points;
  }

  small' : (is_large (m.s'.entries table idx) ≡ false) ⊎ (k ≡ 2)
  small' = subst (λ raw. (is_large raw ≡ false) ⊎ (k ≡ 2)) (sym (kept table idx ranked)) d.small

  -- The way to the next table, in the state after the step.
  stepped : Way s1 rank1 k table idx next
  stepped = record {
    child = record {
      ranked = d.ranks table (λ z. absurd (omega (arith, z, ranked))) ∙ ranked;
      inside = l.inside virt;
      there = d.leads.there;
      small = d.small;
    };
    leads = d.leads.points;
  }

  mapped : Way m.s' m.rank' k table idx next
  mapped = record {
    child = record {
      ranked =
          m.ranks table (λ z. absurd (omega (arith, z, stepped.child.ranked)))
          ∙ stepped.child.ranked;
      inside = l.inside virt;
      there = leads'.there;
      small = small';
    };
    leads = leads'.points;
  }

  -- Addresses that share the step, but are not hit below.
  through_step :
      (virt' : ℕ) → l.ix virt' ≡ idx → ¬ Hit virt' → above m.s' virt' table ≡ above s virt' table
  through_step virt' e no_hit =
      let below_kept = m.others virt' next d.next_rank (λ h. no_hit h.1) in
      above_way k above below l m.s' m.rank' virt' table next
        (subst (λ i. Way m.s' m.rank' k table i next) (sym e) mapped)
      ∙ below_kept
      ∙ elim d.new_or_old [
        | inl (there, same) ↦
            sym (
              above_way k above below l s1 rank1 virt' table next
                (subst (λ i. Way s1 rank1 k table i next) (sym e) stepped))
            ∙ ap (λ q. above q virt' table) same
        | inr (absent, zeros) ↦
            l.empty s1 virt' next (λ i lt. ap is_present (zeros i lt))
            ∙ sym (
                l.shape s virt' table
                ∙ walk_absent l.large l.base (λ raw. below s virt' (table_at s raw))
                    (s.entries table (l.ix virt'))
                    (ap (λ i. is_present (s.entries table i)) e ∙ absent))
      ]

  -- Addresses that do not share the step.
  beside_step :
      (virt' t : ℕ)
      → rank t ≡ suc (suc k)
      → ¬ ((t ≡ table) × (l.ix virt' ≡ idx))
      → above m.s' virt' t ≡ above s virt' t
  beside_step virt' t r away =
      let i = l.ix virt' in
      let nonzero : rank t ≢ 0 = λ z. absurd (omega (arith, z, r)) in
      let in_s1 : s1.entries t i ≡ s.entries t i = d.frame t i nonzero (apart t i away) in
      above_same k above below l s m.s' rank virt' t good r (kept t i r ∙ in_s1)
        (m.same_offset ∙ d.same_offset)
        (λ q rq w.
          let w1 : Way s1 rank1 k t i q = moved t i q in_s1 (d.ranks t nonzero) w in
          let q1 : rank1 q ≡ suc k = Way-rank s1 rank1 k t i q d.keeps w1 in
          m.others virt' q q1 (λ h. away (
            d.keeps.single t i table idx k w1.child stepped.child
              (w1.leads ∙ h.0 ∙ sym stepped.leads)))
          ∙ l.local s s1 rank good
              (record {
                same = λ u j h le.
                    d.frame u j h (inl (λ e. absurd (omega (arith, ap rank e, le, ranked))));
                same_offset = d.same_offset;
              })
              virt' q rq)
    where
      apart : (t i : ℕ) → ¬ ((t ≡ table) × (i ≡ idx)) → (t ≢ table) ⊎ (i ≢ idx)
      apart t i away = elim (Bool-cases (t == table)) [
        | inl e ↦ inr (λ ei. away ((==_iff t table).0 e, ei))
        | inr ne ↦ inl (λ e. absurd (ground (arith, ne, e)))
      ]

      moved :
          (t i q : ℕ)
          → s1.entries t i ≡ s.entries t i
          → rank1 t ≡ rank t
          → Way s rank k t i q
          → Way s1 rank1 k t i q
      moved t i q e r w = Way-kept s s1 rank rank1 k t i q e d.same_offset r w

  pub then-Maps :
      (step : ℕ → Paging → Option (PagingStatus × Paging)) (post' : Paging → Type 0) (level : Level)
      → descend s table idx level ≡ some (some next, s1)
      → step next s1 ≡ result
      → ((s' : Paging)
          → Leads s' table idx next
          → (is_large (s'.entries table idx) ≡ false) ⊎ (k ≡ 2)
          → post s'
          → post' s')
      → Maps
          (then_table (descend s table idx level) step)
          s
          rank
          (suc (suc k))
          table
          post'
          above
          (λ v. (l.ix v ≡ l.ix virt) × Hit v)
  then-Maps step post' level e er through = record {
    s' = m.s';
    rank' = m.rank';
    succeeds = rw e (er ∙ m.succeeds);
    holds = through m.s' leads' small' m.holds;
    keeps = m.keeps;
    ranks = λ t h. m.ranks t (λ z. h (sym (d.ranks t h) ∙ z)) ∙ d.ranks t h;
    frame = λ t i h.
        m.frame t i (omega (arith, h, d.ranks t (λ z. absurd (omega (arith, h, z)))))
        ∙ d.frame t i (λ z. absurd (omega (arith, h, z)))
            (inl (λ e. absurd (omega (arith, ap rank e, h, ranked))));
    same_offset = m.same_offset ∙ d.same_offset;
    others = λ virt' t r away. elim (Bool-cases (t == table && l.ix virt' == idx)) [
      | inr other ↦ beside_step virt' t r (λ h. absurd (ground (arith, other, h.0, h.1)))
      | inl here ↦
          let et : t ≡ table = (==_iff t table).0 (ground (arith, here)) in
          let ei : l.ix virt' ≡ idx = (==_iff (l.ix virt') idx).0 (ground (arith, here)) in
          ap (above m.s' virt') et
          ∙ through_step virt' ei (λ hit. away (et, (ei, hit)))
          ∙ ap (above s virt') (sym et)
    ];
  }
