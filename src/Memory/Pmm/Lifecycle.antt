-- ===== src/Memory/Pmm/Lifecycle.antt =====
-- A page's way through `pmm_alloc`, `pmm_check_page` and `pmm_free`, and two ways to break it.
use j_oe_s.Base.{
  ℕ, ◌+◌, ◌*◌, ◌%◌, ◌^◌, ◌≡◌, ◌⊎◌, inl, inr, Bool, true, false, some, ◌==◌, if◌then◌else◌,
  Bool-cases, get_elem?, set, get_elem?-set_self, lt_of_get_elem?, ==_iff, refl, eq_of_some, ap,
  subst, sym, ◌∙◌, arith,
}
use j_oe_s.Memory.Region.{Region, page_size_byte}
use j_oe_s.Memory.Region.Bitmap.{page_bit, count_free}
use j_oe_s.Memory.Region.Marks.{mark_page_free_again}
use j_oe_s.Memory.Pmm.{Pmm, ok, check_page, free, alloc}
use j_oe_s.Memory.Pmm.State.{IsValid, Turned, Turned-get_elem?, Turned-now, IsFull}
use j_oe_s.Memory.Pmm.Search.{IsOrdered}
use j_oe_s.Memory.Pmm.Alloc.{alloc_lem}
use j_oe_s.Memory.Pmm.Pages.{Locates, check_page_lem, free_at, free_lem}

-- One page turned leaves the order of the regions.
pub Turned-IsOrdered :
    (s s' : Pmm) (ptr index n : ℕ) (v : Bool)
    → Turned s s' ptr index n v
    → IsOrdered s.regions
    → IsOrdered s'.regions
Turned-IsOrdered s s' ptr index n v t ordered = record {
  ascending = λ i j a b lt ea eb.
      let (a', ea', ba, la) = old i a ea in
      let (b', eb', bb, lb) = old j b eb in
      omega (arith, ordered.ascending i j a' b' lt ea' eb', ba, la, bb);
  filled =
      λ i a ea. let (a', ea', ba, la) = old i a ea in omega (arith, ordered.filled i a' ea', la);
  reach =
      λ i a ea. let (a', ea', ba, la) = old i a ea in omega (arith, ordered.reach i a' ea', ba, la);
}
  where
    old :
        (i : ℕ) (a : Region)
        → get_elem? s'.regions i ≡ some a
        → (a' : Region) × (get_elem? s.regions i ≡ some a')
          × (a.base ≡ a'.base)
          × (a.region_length ≡ a'.region_length)
    old i a e = elim (Turned-get_elem? s s' ptr index n v t i a e) [
      | inl (same, new) ↦ (
        t.r,
        rw same t.was,
        ap (λ x. x.base) new ∙ t.differs.same_base,
        ap (λ x. x.region_length) new ∙ t.differs.same_length,
      )
      | inr (other, was) ↦ (a, was, refl, refl)
    ]

-- Two states have the same regions, with the same pages free and the same counts.
pub record SamePages (s t : Pmm) : Type 0 where
  pub pages_same :
      (i q : ℕ) (a b : Region)
      → get_elem? s.regions i ≡ some a
      → get_elem? t.regions i ≡ some b
      → page_bit a.bitmap q ≡ page_bit b.bitmap q
  pub counts_same :
      (i : ℕ) (a b : Region)
      → get_elem? s.regions i ≡ some a
      → get_elem? t.regions i ≡ some b
      → a.free_pages ≡ b.free_pages

-- Where a page that `pmm_alloc` handed out is found afterwards.
Turned-Locates :
    (s s' : Pmm) (ptr index n : ℕ) (v : Bool) (t : Turned s s' ptr index n v)
    → Locates s' ptr index n t.r'
Turned-Locates s s' ptr index n v t = record {
  at = Turned-now s s' ptr index n v t;
  inside = record {
    from = omega (arith, t.address, t.differs);
    below = omega (arith, t.address, t.differs);
    exists = omega (arith, t.exists, t.differs);
  };
}

bit_afterwards :
    (s s' : Pmm) (ptr index n : ℕ) (v : Bool) (t : Turned s s' ptr index n v)
    → page_bit t.r'.bitmap n ≡ v
bit_afterwards s s' ptr index n v t = ground (arith, t.differs.bits n)

module _ (s : Pmm) where
  same_pages :
      (s' s'' : Pmm) (ptr ptr' index n : ℕ)
      → Turned s s' ptr index n true
      → Turned s' s'' ptr' index n false
      → SamePages s s''
  same_pages s' s'' ptr ptr' index n t u = record {
    pages_same = λ i q a b ea eb. elim (regions i a b ea eb) [
      | inl same ↦ ap (λ x. page_bit x.bitmap q) same
      | inr (ea', eb') ↦
          ap (λ x. page_bit x.bitmap q) ea' ∙ sym (bits q) ∙ sym (ap (λ x. page_bit x.bitmap q) eb')
    ];
    counts_same = λ i a b ea eb. elim (regions i a b ea eb) [
      | inl same ↦ ap (λ x. x.free_pages) same
      | inr (ea', eb') ↦ ap (λ x. x.free_pages) ea' ∙ sym counts ∙ sym (ap (λ x. x.free_pages) eb')
    ];
  }
    where
      middle : u.r ≡ t.r'
      middle = eq_of_some (sym u.was ∙ Turned-now s s' ptr index n true t)

      bits : (q : ℕ) → page_bit u.r'.bitmap q ≡ page_bit t.r.bitmap q
      bits q =
          let old : page_bit u.r.bitmap q ≡ page_bit t.r'.bitmap q =
            ap (λ x. page_bit x.bitmap q) middle in
          elim (Bool-cases (n == q)) [
            | inl e ↦
                ground (arith, u.differs.bits q, e)
                ∙ sym t.before
                ∙ ap (page_bit t.r.bitmap) ((==_iff n q).0 e)
            | inr ne ↦ ground (arith, u.differs.bits q, t.differs.bits q, old, ne)
          ]

      counts : u.r'.free_pages ≡ t.r.free_pages
      counts = omega (arith, u.counted, t.counted, ap (λ x. x.free_pages) middle)

      regions :
          (i : ℕ) (a b : Region)
          → get_elem? s.regions i ≡ some a
          → get_elem? s''.regions i ≡ some b
          → (a ≡ b) ⊎ ((a ≡ t.r) × (b ≡ u.r'))
      regions i a b ea eb = elim (Turned-get_elem? s' s'' ptr' index n false u i b eb) [
        | inl (e, new) ↦ inr (eq_of_some (sym ea ∙ rw e t.was), new)
        | inr (ne, old) ↦ elim (Turned-get_elem? s s' ptr index n true t i b old) [
          | inl (e, new) ↦ absurd (ne e)
          | inr (ne', old') ↦ inl (eq_of_some (sym ea ∙ old'))
        ]
      ]

-- Of a valid state with ordered regions where some page is free, `pmm_alloc` hands out one that was
-- free and is used afterwards. `pmm_check_page` of it then returns the mask of the page's bit in its
-- byte, which is PMM_PAGE_USED only where the page's index in its region is a multiple of eight.
-- `pmm_free` takes the page back, `pmm_check_page` then returns 0, the same pages are free as at first,
-- with the same counts, and the state is valid.
pub free-alloc :
    (s : Pmm)
    → IsValid s
    → IsOrdered s.regions
    → ¬ IsFull s
    → (ptr index n : ℕ) × (s' s'' : Pmm) × (alloc s ≡ some (ptr, s'))
      × Turned s s' ptr index n true
      × (check_page s' ptr ≡ some (2 ^ (n % 8)))
      × (free s' ptr ≡ some (ok, s''))
      × (check_page s'' ptr ≡ some 0)
      × SamePages s s''
      × IsValid s''
free-alloc s valid ordered some_free = elim (alloc_lem s valid) [
  | inr (e, full) ↦ absurd (some_free full)
  | inl (ptr, index, n, s', e, t, keeps) ↦
      let order = Turned-IsOrdered s s' ptr index n true t ordered in
      let place = Turned-Locates s s' ptr index n true t in
      let used = bit_afterwards s s' ptr index n true t in
      let checked = check_page_lem s' ptr index n t.r' keeps order place in
      let (s'', freed, u, keeps') = free_lem s' ptr index n t.r' keeps order place used in
      let order' = Turned-IsOrdered s' s'' _ index n false u order in
      let address : t.r'.base + n * page_size_byte ≡ ptr =
        omega (arith, t.address, t.differs.same_base) in
      let place' =
        subst (λ p. Locates s'' p index n u.r') address (Turned-Locates s' s'' _ index n false u) in
      (
        ptr,
        index,
        n,
        s',
        s'',
        e,
        t,
        checked ∙ ap (λ b. some (if b then 2 ^ (n % 8) else 0)) used,
        freed,
        check_page_lem s'' ptr index n u.r' keeps' order' place'
            ∙ ap (λ b. some (if b then 2 ^ (n % 8) else 0))
                (bit_afterwards s' s'' _ index n false u),
        same_pages s s' s'' ptr _ index n t u,
        keeps',
      )
]

-- Of a valid state with ordered regions, a page that is free already is freed again without an
-- error, and the state that is left is not valid.
pub free_twice :
    (s : Pmm) (ptr k n : ℕ) (r : Region)
    → IsValid s
    → IsOrdered s.regions
    → Locates s ptr k n r
    → page_bit r.bitmap n ≡ false
    → (s' : Pmm) × (free s ptr ≡ some (ok, s')) × ¬ IsValid s'
free_twice s ptr k n r valid ordered place clear =
    let rv = valid.each k r place.at in
    let (r', marks, same, more) = mark_page_free_again r n ptr rv place.inside clear in
    (
      record s { regions = set s.regions k r' },
      free_at s ptr k n r valid ordered place r' marks,
      λ bad.
          let now = get_elem?-set_self s.regions k r' (lt_of_get_elem? s.regions k r place.at) in
          let rv' = bad.each k r' now in
          absurd (omega (arith, rv.counted, rv'.counted, ap count_free same, more)),
    )
