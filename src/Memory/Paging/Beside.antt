-- ===== src/Memory/Paging/Beside.antt =====
-- What a write of one entry changes for `paging_resolve_virtual_address`.
use j_oe_s.Base.{
  ℕ, suc, ◌≤◌, ◌≡◌, ◌≢◌, inl, inr, ◌&&◌, ◌==◌, Bool-cases, ==_iff, ==_refl, refl, ap, sym, ◌∙◌,
  arith, if◌then◌else◌,
}
use j_oe_s.Memory.Paging.{Paging, write_entry, resolve_in_pt}
use j_oe_s.Memory.Paging.Entry.{is_present, base_4kb, pt_idx}
use j_oe_s.Memory.Paging.Tables.{IsTables}
use j_oe_s.Memory.Paging.Walk.{Way, Way-kept, Step, above_same, above_way}

module _ (s : Paging) (leaf idx raw : ℕ) where
  abbrev after : Paging
  after = write_entry s leaf idx raw

  pub write_entry_here : after.entries leaf idx ≡ raw
  write_entry_here = rw (==_refl leaf, ==_refl idx) refl

  pub write_entry_away : (t i : ℕ) → ¬ ((t ≡ leaf) × (i ≡ idx)) → after.entries t i ≡ s.entries t i
  write_entry_away t i away = elim (Bool-cases (t == leaf && i == idx)) [
    | inr other ↦ rw other refl
    | inl here ↦
        absurd
          (away ((==_iff t leaf).0 (ground (arith, here)), (==_iff i idx).0 (ground (arith, here))))
  ]

  pub other_pt :
      (virt t : ℕ)
      → ¬ ((t ≡ leaf) × (pt_idx virt ≡ idx))
      → resolve_in_pt after virt t ≡ resolve_in_pt s virt t
  unfolding resolve_in_pt
  other_pt virt t other =
      ap (λ e. if is_present e then base_4kb e else 0) (write_entry_away t (pt_idx virt) other)

  module _ (rank : ℕ → ℕ) (good : IsTables s rank) where
    pub away : (t i : ℕ) → rank t ≢ rank leaf → after.entries t i ≡ s.entries t i
    away t i ne = write_entry_away t i (λ h. ne (ap rank h.0))

    pub Way_above :
        (k t i next : ℕ) → rank leaf ≤ suc k → Way s rank k t i next → Way after rank k t i next
    Way_above k t i next lower w =
        Way-kept s after rank rank k t i next
          (away t i (λ e. absurd (omega (arith, e, lower, w.child.ranked)))) refl refl w

    module _ (k : ℕ) (above below : Paging → ℕ → ℕ → ℕ) (l : Step k above below) where
      -- In the table of the entry, the walk through another entry.
      pub other_leaf :
          rank leaf ≡ suc (suc k)
          → (virt t : ℕ) → rank t ≡ suc (suc k)
          → ¬ ((t ≡ leaf) × (l.ix virt ≡ idx))
          → above after virt t ≡ above s virt t
      other_leaf level virt t ranked other =
          above_same k above below l s after rank virt t good ranked
            (write_entry_away t (l.ix virt) other) refl
            (λ next r w.
              l.local s after rank good
                (record {
                  same = λ q i h le. away q i (λ e. absurd (omega (arith, e, level, le)));
                  same_offset = refl;
                })
                virt next r)

      -- One level above, the walk beside the way to the table.
      pub beside :
          (virt t next : ℕ) (B : ℕ → Type 0)
          → rank leaf ≤ suc k
          → Way s rank k t (l.ix virt) next
          → ((virt' q : ℕ)
              → rank q ≡ suc k
              → ¬ ((q ≡ next) × B virt')
              → below after virt' q ≡ below s virt' q)
          → (virt' u : ℕ) → rank u ≡ suc (suc k)
          → ¬ ((u ≡ t) × ((l.ix virt' ≡ l.ix virt) × B virt'))
          → above after virt' u ≡ above s virt' u
      beside virt t next B lower w same virt' u ranked other =
          above_same k above below l s after rank virt' u good ranked
            (away u (l.ix virt') (λ e. absurd (omega (arith, e, lower, ranked)))) refl
            (λ q r w'. same virt' q r (λ h.
              let (eu, ej) =
                good.single u (l.ix virt') t (l.ix virt) k w'.child w.child
                  (w'.leads ∙ h.0 ∙ sym w.leads) in
              other (eu, (ej, h.1))))

      -- The walk on the way to the table.
      pub along :
          (virt t next : ℕ)
          → rank leaf ≤ suc k
          → Way s rank k t (l.ix virt) next
          → above after virt t ≡ below after virt next
      along virt t next lower w =
          above_way k above below l after rank virt t next (Way_above k t (l.ix virt) next lower w)
