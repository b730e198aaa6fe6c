-- ===== src/Memory/Paging/Walk.antt =====
-- The walk of `paging_resolve_virtual_address` over tables of every rank.
use j_oe_s.Base.{
  ℕ, suc, ◌<◌, ◌≤◌, ◌≡◌, ◌≢◌, ◌⊎◌, inl, inr, Bool, true, false, Bool-cases, refl, ap, sym, subst,
  ◌∙◌, arith, if◌then◌else◌, add64,
}
use j_oe_s.Memory.Paging.{
  Paging, table_at, resolve_in_pt, resolve_in_pd, resolve_in_pdpr, resolve_virtual_address,
}
use j_oe_s.Memory.Paging.Entry.{
  is_present, is_large, base_4kb, base_2mb, base_1gb, pml4_idx, pdpr_idx, pd_idx, pt_idx,
}
use j_oe_s.Memory.Paging.Tables.{IsTables, Child}

-- Entry `i` of `t` leads to the table `next`.
pub record Way (s : Paging) (rank : ℕ → ℕ) (k t i next : ℕ) : Type 0 where
  pub child : Child s rank k t i
  pub leads : table_at s (s.entries t i) ≡ next

pub Way-rank :
    (s : Paging) (rank : ℕ → ℕ) (k t i next : ℕ)
    → IsTables s rank
    → Way s rank k t i next
    → rank next ≡ suc k
Way-rank s rank k t i next good w =
    ap rank (sym w.leads)
    ∙ good.children t i k w.child.ranked w.child.inside w.child.there w.child.small

-- The way stays where the entry and the rank of its table do.
pub Way-kept :
    (s s' : Paging) (rank rank' : ℕ → ℕ) (k t i next : ℕ)
    → s'.entries t i ≡ s.entries t i
    → s'.hhdm_offset ≡ s.hhdm_offset
    → rank' t ≡ rank t
    → Way s rank k t i next
    → Way s' rank' k t i next
Way-kept s s' rank rank' k t i next e same r w = record {
  child = record {
    ranked = r ∙ w.child.ranked;
    inside = w.child.inside;
    there = ap is_present e ∙ w.child.there;
    small = subst (λ raw. (is_large raw ≡ false) ⊎ (k ≡ 2)) (sym e) w.child.small;
  };
  leads = omega (arith, w.leads, ap (table_at s) e, same);
}

-- What the walk makes of one entry.
abbrev pub walk : (ℕ → Bool) → (ℕ → ℕ) → (ℕ → ℕ) → ℕ → ℕ
walk large base below raw = if is_present raw then if large raw then base raw else below raw else 0

-- The entries of a PML4 are never large.
abbrev pub never : ℕ → Bool
never raw = false

pub walk_kept :
    (large : ℕ → Bool) (base below below' : ℕ → ℕ) (raw : ℕ)
    → (is_present raw ≡ true → large raw ≡ false → below' raw ≡ below raw)
    → walk large base below' raw ≡ walk large base below raw
walk_kept large base below below' raw same = elim (Bool-cases (is_present raw)) [
  | inr absent ↦ rw absent refl
  | inl there ↦ elim (Bool-cases (large raw)) [
    | inl big ↦ rw (there, big) refl
    | inr small ↦ rw (there, small) (same there small)
  ]
]

pub walk_absent :
    (large : ℕ → Bool) (base below : ℕ → ℕ) (raw : ℕ)
    → is_present raw ≡ false
    → walk large base below raw ≡ 0
walk_absent large base below raw absent = rw absent refl

pub walk_pointer :
    (large : ℕ → Bool) (base below : ℕ → ℕ) (raw : ℕ)
    → is_present raw ≡ true
    → large raw ≡ false
    → walk large base below raw ≡ below raw
walk_pointer large base below raw there small = rw (there, small) refl

abbrev pub IsEmpty : Paging → ℕ → Type 0
IsEmpty s t = (i : ℕ) → i < 512 → is_present (s.entries t i) ≡ false

-- The tables up to the rank `top` have the same entries in both states.
pub record Agree (s s' : Paging) (rank : ℕ → ℕ) (top : ℕ) : Type 0 where
  pub same : (t i : ℕ) → rank t ≢ 0 → rank t ≤ top → s'.entries t i ≡ s.entries t i
  pub same_offset : s'.hhdm_offset ≡ s.hhdm_offset

-- One level of the walk: `above` looks at one entry of a table of rank `k + 2`, and goes on with
-- `below` in a table of rank `k + 1`.
pub record Step (k : ℕ) (above below : Paging → ℕ → ℕ → ℕ) : Type 0 where
  pub ix : ℕ → ℕ
  pub large : ℕ → Bool
  pub base : ℕ → ℕ
  pub inside : (virt : ℕ) → ix virt < 512
  pub to : (raw : ℕ) → (is_large raw ≡ false) ⊎ (k ≡ 2) → large raw ≡ false
  pub back : (raw : ℕ) → large raw ≡ false → (is_large raw ≡ false) ⊎ (k ≡ 2)
  pub shape :
      (s : Paging) (virt t : ℕ)
      → above s virt t
        ≡ walk large base (λ raw. below s virt (table_at s raw)) (s.entries t (ix virt))
  pub empty : (s : Paging) (virt t : ℕ) → IsEmpty s t → below s virt t ≡ 0
  pub local :
      (s s' : Paging) (rank : ℕ → ℕ)
      → IsTables s rank
      → Agree s s' rank (suc k)
      → (virt t : ℕ) → rank t ≡ suc k
      → below s' virt t ≡ below s virt t

module _ (k : ℕ) (above below : Paging → ℕ → ℕ → ℕ) (l : Step k above below) where
  -- An entry that the walk follows leads to a table.
  pub entry-Way :
      (s : Paging) (rank : ℕ → ℕ) (t virt : ℕ)
      → rank t ≡ suc (suc k)
      → is_present (s.entries t (l.ix virt)) ≡ true
      → l.large (s.entries t (l.ix virt)) ≡ false
      → Way s rank k t (l.ix virt) (table_at s (s.entries t (l.ix virt)))
  entry-Way s rank t virt ranked there small = record {
    child = record {
      ranked = ranked;
      inside = l.inside virt;
      there = there;
      small = l.back (s.entries t (l.ix virt)) small;
    };
    leads = refl;
  }

  pub above_empty : (s : Paging) (virt t : ℕ) → IsEmpty s t → above s virt t ≡ 0
  above_empty s virt t empty =
      l.shape s virt t
      ∙ walk_absent l.large l.base (λ raw. below s virt (table_at s raw)) (s.entries t (l.ix virt))
          (empty (l.ix virt) (l.inside virt))

  -- The walk follows a way.
  pub above_way :
      (s : Paging) (rank : ℕ → ℕ) (virt t next : ℕ)
      → Way s rank k t (l.ix virt) next
      → above s virt t ≡ below s virt next
  above_way s rank virt t next w =
      l.shape s virt t
      ∙ walk_pointer l.large l.base (λ raw. below s virt (table_at s raw)) (s.entries t (l.ix virt))
          w.child.there (l.to (s.entries t (l.ix virt)) w.child.small)
      ∙ ap (below s virt) w.leads

  -- Of two states with the same entry, the walk is the same if it is below that entry.
  pub above_same :
      (s s' : Paging) (rank : ℕ → ℕ) (virt t : ℕ)
      → IsTables s rank
      → rank t ≡ suc (suc k)
      → s'.entries t (l.ix virt) ≡ s.entries t (l.ix virt)
      → s'.hhdm_offset ≡ s.hhdm_offset
      → ((next : ℕ)
          → rank next ≡ suc k
          → Way s rank k t (l.ix virt) next
          → below s' virt next ≡ below s virt next)
      → above s' virt t ≡ above s virt t
  above_same s s' rank virt t good ranked e offset same =
      let raw = s.entries t (l.ix virt) in
      l.shape s' virt t
      ∙ ap (walk l.large l.base (λ r. below s' virt (table_at s' r))) e
      ∙ walk_kept l.large l.base (λ r. below s virt (table_at s r))
          (λ r. below s' virt (table_at s' r)) raw
          (λ there small.
            let w = entry-Way s rank t virt ranked there small in
            ap (λ o. below s' virt (add64 (base_4kb raw) o)) offset
            ∙ same (table_at s raw) (Way-rank s rank k t (l.ix virt) (table_at s raw) good w) w)
      ∙ sym (l.shape s virt t)

  pub above_local :
      (s s' : Paging) (rank : ℕ → ℕ)
      → IsTables s rank
      → Agree s s' rank (suc (suc k))
      → (virt t : ℕ) → rank t ≡ suc (suc k)
      → above s' virt t ≡ above s virt t
  above_local s s' rank good agree virt t ranked =
      above_same s s' rank virt t good ranked
        (agree.same t (l.ix virt) (λ z. absurd (omega (arith, z, ranked))) (omega (arith, ranked)))
        agree.same_offset
        (λ next r w.
          l.local s s' rank good
            (record {
              same = λ q i h le. agree.same q i h (omega (arith, le));
              same_offset = agree.same_offset;
            })
            virt next r)

unfoldable pub step_pd :
    Step 0 (λ s virt t. resolve_in_pd s virt t) (λ s virt t. resolve_in_pt s virt t)
unfolding resolve_in_pd resolve_in_pt
step_pd = record {
  ix = λ virt. pd_idx virt;
  large = λ raw. is_large raw;
  base = λ raw. base_2mb raw;
  inside = λ virt. omega arith;
  to = λ raw h. elim h [ inl small ↦ small | inr two ↦ absurd (omega (arith, two)) ];
  back = λ raw small. inl small;
  shape = λ s virt t. refl;
  empty = λ s virt t empty. rw (empty (pt_idx virt) (omega arith)) refl;
  local = λ s s' rank good agree virt t r.
      ap (λ raw. if is_present raw then base_4kb raw else 0)
        (agree.same t (pt_idx virt) (λ z. absurd (omega (arith, z, r))) (omega (arith, r)));
}

unfoldable pub step_pdpr :
    Step 1 (λ s virt t. resolve_in_pdpr s virt t) (λ s virt t. resolve_in_pd s virt t)
unfolding resolve_in_pdpr
step_pdpr = record {
  ix = λ virt. pdpr_idx virt;
  large = λ raw. is_large raw;
  base = λ raw. base_1gb raw;
  inside = λ virt. omega arith;
  to = λ raw h. elim h [ inl small ↦ small | inr two ↦ absurd (omega (arith, two)) ];
  back = λ raw small. inl small;
  shape = λ s virt t. refl;
  empty = above_empty 0 _ _ step_pd;
  local = above_local 0 _ _ step_pd;
}

unfoldable pub step_root :
    Step 2 (λ s virt t. resolve_virtual_address s t virt) (λ s virt t. resolve_in_pdpr s virt t)
unfolding resolve_virtual_address
step_root = record {
  ix = λ virt. pml4_idx virt;
  large = never;
  base = λ raw. 0;
  inside = λ virt. omega arith;
  to = λ raw h. refl;
  back = λ raw h. inr refl;
  shape = λ s virt t. refl;
  empty = above_empty 1 _ _ step_pdpr;
  local = above_local 1 _ _ step_pdpr;
}
