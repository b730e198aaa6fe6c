-- ===== src/Drivers/Ps2/Controller/Outcome.antt =====
-- How `ps2_init_controller` ends at a controller that takes commands.
use j_oe_s.Base.{
  ℕ, ◌+◌, ◌≡◌, refl, ◌∙◌, ap, Bool, true, false, ◌||◌, ◌⊎◌, inl, inr, some, if◌then◌else◌, arith,
}
use j_oe_s.Drivers.Port.{Bus, Machine, port_read_byte, port_write_byte}
use j_oe_s.Drivers.Port.Io.{Io, pure, ◌>>=◌}
use j_oe_s.Drivers.Port.Total.{Total, Total-mono, pure-Total, bind-Total}
use j_oe_s.Drivers.Pic.{pic_enable_irq}
use j_oe_s.Drivers.Ps2.{
  ps2_ok, timed_out, controller_test_failed, no_working_ports, port_1, port_2, device_is_keyboard,
}
use j_oe_s.Drivers.Ps2.Quiet.{
  Gives, Keeps, masks, Responsive, pure-Gives, pure-Keeps, bind-Keeps, bind-Gives, if-Gives,
}
use j_oe_s.Drivers.Ps2.Quiet.Sends.{
  ps2_send_command-Keeps, write_config-Keeps, ps2_reset_device-Keeps, ps2_identify_device-Keeps,
  ps2_kbd_init-Gives,
}
use j_oe_s.Drivers.Ps2.Controller.{
  Controller, Result, init_keyboard, identify_port_1, identify_port_2, identify_ports, command_if,
  reset_if, reset_ports, enable_ports, check_ports,
}

-- The variables that say which ports work and are populated.
abbrev pub SameFlags : Controller → Controller → Type 0
SameFlags c c' =
    (c'.port_1_works ≡ c.port_1_works)
    × (c'.port_2_works ≡ c.port_2_works)
    × (c'.port_1_populated ≡ c.port_1_populated)
    × (c'.port_2_populated ≡ c.port_2_populated)

-- Some port works, and every working port counts as populated.
abbrev pub Usable : Controller → Type 0
Usable c =
    ((c.port_1_works || c.port_2_works) ≡ true)
    × (c.port_1_works ≡ true → c.port_1_populated ≡ true)
    × (c.port_2_works ≡ true → c.port_2_populated ≡ true)

abbrev pub Failed : Result → Type 0
Failed r =
    (r.0 ≡ timed_out)
    ⊎ ((r.0 ≡ controller_test_failed)
        ⊎ ((r.0 ≡ no_working_ports) × ((r.1.port_1_works || r.1.port_2_works) ≡ false)))

-- The ends: success with one write to the mask register, or a failure without any.
abbrev pub Ended : {D : Type 0} → Machine D → Result → Machine D → Type 0
Ended m r m' =
    ((r.0 ≡ ps2_ok) × Usable r.1 × (masks m'.log ≡ masks m.log + 1))
    ⊎ (Failed r × (masks m'.log ≡ masks m.log))

abbrev pub Stage : {D : Type 0} → Io D Result → Type 0
Stage {D} x = (m : Machine D) → Total x (Ended m) m

module _ {D : Type 0} where
  Ended-after :
      (m m1 : Machine D) (r : Result) (m' : Machine D)
      → masks m1.log ≡ masks m.log
      → Ended m1 r m'
      → Ended m r m'
  Ended-after m m1 r m' e (inl (ok, usable, more)) = inl (ok, usable, more ∙ ap (λ n. n + 1) e)
  Ended-after m m1 r m' e (inr (failed, same)) = inr (failed, same ∙ e)

  pub Stage-bind :
      {A : Type 0} {x : Io D A} {f : A → Io D Result} {P : A → Type 0}
      → Gives x P
      → ((a : A) → P a → Stage (f a))
      → Stage (x >>= f)
  Stage-bind g next m =
      bind-Total (g m) λ a m1 p. Total-mono (next a p.0 m1) (λ r m'. Ended-after m m1 r m' p.1)

  pub Stage-if :
      (b : Bool) {x y : Io D Result}
      → (b ≡ true → Stage x)
      → (b ≡ false → Stage y)
      → Stage (if b then x else y)
  Stage-if true here there = here refl
  Stage-if false here there = there refl

  pub Stage-fail : (r : Result) → Failed r → Stage {D = D} (pure r)
  Stage-fail r failed m = pure-Total r (inr (failed, refl))

module _ {D : Type 0} (bus : Bus D) where
  enable_irq-masks : (m : Machine D) → masks (pic_enable_irq bus 1 m).log ≡ masks m.log + 1
  unfolding pic_enable_irq port_read_byte port_write_byte masks
  enable_irq-masks m = refl

  finish-Stage :
      (c : Controller) → Usable c → Stage {D = D} (λ m. some ((ps2_ok, c), pic_enable_irq bus 1 m))
  finish-Stage c usable m = record {
    value = (ps2_ok, c);
    after = pic_enable_irq bus 1 m;
    returns = refl;
    holds = inl (refl, usable, enable_irq-masks m);
  }

module _ {D : Type 0} {bus : Bus D} {fuel : ℕ} (able : Responsive bus fuel) where
  init_keyboard-Gives :
      (type : ℕ) (c : Controller) → Gives (init_keyboard bus fuel type c) (SameFlags c)
  unfolding init_keyboard
  init_keyboard-Gives type c =
      if-Gives (device_is_keyboard type)
        (bind-Gives (ps2_kbd_init-Gives able port_1 c.driver)
          (λ r started. pure-Gives _ (refl, refl, refl, refl)))
        (pure-Gives c (refl, refl, refl, refl))

  identify_port_1-Gives : (c : Controller) → Gives (identify_port_1 bus fuel c) (SameFlags c)
  unfolding identify_port_1
  identify_port_1-Gives c =
      bind-Keeps (ps2_identify_device-Keeps able port_1 c.device_type_port_1)
        (λ r. init_keyboard-Gives r.1 (record c { device_type_port_1 = r.1 }))

  identify_port_2-Gives : (c : Controller) → Gives (identify_port_2 bus fuel c) (SameFlags c)
  unfolding identify_port_2
  identify_port_2-Gives c =
      bind-Keeps (ps2_identify_device-Keeps able port_2 c.device_type_port_2)
        (λ r. init_keyboard-Gives r.1 (record c { device_type_port_2 = r.1 }))

  Usable-same : (c c' : Controller) → SameFlags c c' → Usable c → Usable c'
  Usable-same c c' same usable = ground (arith, same, usable)

  identify_ports-Stage : (c : Controller) → Usable c → Stage (identify_ports bus fuel c)
  unfolding identify_ports
  identify_ports-Stage c usable =
      Stage-bind
        (if-Gives c.port_1_populated (identify_port_1-Gives c)
          (pure-Gives c (refl, refl, refl, refl)))
        λ c' same.
          Stage-bind
            (if-Gives c'.port_1_populated (identify_port_2-Gives c')
              (pure-Gives c' (refl, refl, refl, refl)))
            (λ c'' same'.
              finish-Stage bus c'' (Usable-same c' c'' same' (Usable-same c c' same usable)))

  reset_if-Keeps : (works : Bool) (port : ℕ) → Keeps (reset_if bus fuel works port)
  reset_if-Keeps works port =
      if-Gives works (bind-Keeps (ps2_reset_device-Keeps able port) (λ r. pure-Keeps tt))
        (pure-Keeps tt)

  command_if-Keeps : (b : Bool) (command : ℕ) → Keeps (command_if bus fuel b command)
  command_if-Keeps b command = if-Gives b (ps2_send_command-Keeps able command) (pure-Keeps tt)

  reset_ports-Stage :
      (c : Controller) → (c.port_1_works || c.port_2_works) ≡ true → Stage (reset_ports bus fuel c)
  unfolding reset_ports
  reset_ports-Stage c works = Stage-bind (reset_if-Keeps c.port_1_works port_1) λ r p.
      Stage-bind (reset_if-Keeps c.port_2_works port_2)
        (λ r' p'. identify_ports-Stage _ (works, λ e. ground arith, λ e. ground arith))

  pub check_ports-Stage : (config : ℕ) (c : Controller) → Stage (check_ports bus fuel config c)
  unfolding check_ports enable_ports
  check_ports-Stage config c =
      Stage-if (c.port_1_works || c.port_2_works)
        (λ works. Stage-bind (command_if-Keeps c.port_1_works 0xae) λ r p.
          Stage-bind (command_if-Keeps c.port_2_works 0xa8)
            λ r' p'. Stage-bind (write_config-Keeps able _) (λ r'' p''. reset_ports-Stage c works))
        (λ neither. Stage-fail _ (inr (inr (refl, neither))))
