-- ===== src/Drivers/Port/Io.antt =====
-- The sequences of port accesses of the drivers, as a state monad; `none` where a loop that waits
-- for its device had not ended after the rounds that it was given.
use j_oe_s.Base.{ℕ, zero, suc, Bool, Option, none, some, if◌then◌else◌}
use j_oe_s.Drivers.Port.{Bus, Machine, port_read_byte, port_write_byte}

abbrev pub Io : Type 0 → Type 0 → Type 0
Io D A = Machine D → Option (A × Machine D)

module _ {D : Type 0} where
  abbrev pub pure : {A : Type 0} → A → Io D A
  pure a m = some (a, m)

  infixl 5 ◌>>=◌ ◌>>◌
  unfoldable pub ◌>>=◌ : {A B : Type 0} → Io D A → (A → Io D B) → Io D B
  ◌>>=◌ x f m = elim (x m) [ none ↦ none | some (a, m') ↦ f a m' ]

  abbrev pub ◌>>◌ : {A B : Type 0} → Io D A → Io D B → Io D B
  x >> y = x >>= λ _. y

module _ {D : Type 0} (bus : Bus D) where
  abbrev pub out_port : ℕ → ℕ → Io D (Unit {0})
  out_port port data' m = some (tt, port_write_byte bus port data' m)

  abbrev pub in_port : ℕ → Io D ℕ
  in_port port m = some (port_read_byte bus port m)

  -- `while (condition on a byte read from the port);`, which waits while `busy` holds.
  unfoldable pub wait_while : ℕ → (ℕ → Bool) → ℕ → Io D (Unit {0})
  wait_while zero busy port m = none
  wait_while (suc fuel) busy port m =
      let (status, m') = port_read_byte bus port m in
      let rest = wait_while fuel busy port m' in if busy status then rest else some (tt, m')
