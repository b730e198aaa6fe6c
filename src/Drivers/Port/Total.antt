-- ===== src/Drivers/Port/Total.antt =====
-- Total correctness of port accesses: a sequence returns, and what it returns has a property.
use j_oe_s.Base.{◌≡◌, refl, ap, ◌∙◌, Bool, true, false, some, none, if◌then◌else◌}
use j_oe_s.Drivers.Port.{Machine}
use j_oe_s.Drivers.Port.Io.{Io, pure, ◌>>=◌}

pub record Total {D : Type 0} {A : Type 0} (x : Io D A) (P : A → Machine D → Type 0) (m : Machine D)
    : Type 0 where
  pub value : A
  pub after : Machine D
  pub returns : x m ≡ some (value, after)
  pub holds : P value after

module _ {D : Type 0} {A : Type 0} where
  pub pure-Total : (a : A) {P : A → Machine D → Type 0} {m : Machine D} → P a m → Total (pure a) P m
  pure-Total a {m = m} p = record { value = a; after = m; returns = refl; holds = p }

  pub bind-Total :
      {B : Type 0} {x : Io D A} {f : A → Io D B} {P : A → Machine D → Type 0}
      {Q : B → Machine D → Type 0} {m : Machine D}
      → Total x P m
      → ((a : A) (m' : Machine D) → P a m' → Total (f a) Q m')
      → Total (x >>= f) Q m
  unfolding ◌>>=◌
  bind-Total {f = f} t next =
      let r = next t.value t.after t.holds in
      record {
        value = r.value;
        after = r.after;
        returns = ap (λ o. elim o [ none ↦ none | some (c, l) ↦ f c l ]) t.returns ∙ r.returns;
        holds = r.holds;
      }

  pub if-Total :
      (b : Bool) {x y : Io D A} {P : A → Machine D → Type 0} {m : Machine D}
      → (b ≡ true → Total x P m)
      → (b ≡ false → Total y P m)
      → Total (if b then x else y) P m
  if-Total true here there = here refl
  if-Total false here there = there refl

  -- A weaker property.
  pub Total-mono :
      {x : Io D A} {P Q : A → Machine D → Type 0} {m : Machine D}
      → Total x P m
      → ((a : A) (m' : Machine D) → P a m' → Q a m')
      → Total x Q m
  Total-mono t weaker = record {
    value = t.value;
    after = t.after;
    returns = t.returns;
    holds = weaker t.value t.after t.holds;
  }
