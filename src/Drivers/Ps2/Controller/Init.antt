-- ===== src/Drivers/Ps2/Controller/Init.antt =====
-- What `ps2_init_controller` promises, from the interface tests back to its first command.
use j_oe_s.Base.{ℕ, ◌+◌, ◌≡◌, refl, Bool, ◌⊎◌, inl, inr, some, ◌==◌}
use j_oe_s.Drivers.Port.{Bus, Machine}
use j_oe_s.Drivers.Ps2.{ps2_ok, is_timeout}
use j_oe_s.Drivers.Ps2.Quiet.{
  masks, Responsive, pure-Keeps, bind-Keeps, if-Gives, ps2_receive_byte-Keeps,
}
use j_oe_s.Drivers.Ps2.Quiet.Sends.{ps2_send_command-Keeps, flush-Keeps, write_config-Keeps}
use j_oe_s.Drivers.Ps2.Controller.{
  Controller, Result, test_port_2, test_ports, found_port_2, detect_port_2, self_test,
  ps2_init_controller,
}
use j_oe_s.Drivers.Ps2.Controller.Outcome.{
  Usable, Failed, Stage, Stage-bind, Stage-if, Stage-fail, check_ports-Stage,
}

module _ {D : Type 0} {bus : Bus D} {fuel : ℕ} (able : Responsive bus fuel) where
  test_port_2-Stage : (config : ℕ) (c : Controller) → Stage (test_port_2 bus fuel config c)
  unfolding test_port_2
  test_port_2-Stage config c = Stage-bind (ps2_send_command-Keeps able 0xab) λ r p.
      Stage-bind (ps2_receive_byte-Keeps bus) λ answer q.
        Stage-if (is_timeout answer.0) (λ late. Stage-fail _ (inl refl))
          (λ tested. check_ports-Stage able config _)

  test_ports-Stage : (config : ℕ) (c : Controller) → Stage (test_ports bus fuel config c)
  unfolding test_ports
  test_ports-Stage config c = Stage-bind (ps2_send_command-Keeps able 0xab) λ r p.
      Stage-bind (ps2_receive_byte-Keeps bus) λ answer q.
        Stage-if (is_timeout answer.0) (λ late. Stage-fail _ (inl refl))
          (λ tested.
            Stage-if c.port_2_supported (λ supported. test_port_2-Stage config _)
              (λ single. check_ports-Stage able config _))

  found_port_2-Stage :
      (config : ℕ) (supported : Bool) (c : Controller)
      → Stage (found_port_2 bus fuel config supported c)
  unfolding found_port_2
  found_port_2-Stage config supported c =
      Stage-bind
        (if-Gives supported
          (bind-Keeps (ps2_send_command-Keeps able 0xa7) (λ r. write_config-Keeps able config))
          (pure-Keeps tt))
        (λ r p. test_ports-Stage config _)

  detect_port_2-Stage : (config : ℕ) (c : Controller) → Stage (detect_port_2 bus fuel config c)
  unfolding detect_port_2
  detect_port_2-Stage config c = Stage-bind (write_config-Keeps able config) λ r p.
      Stage-bind (ps2_send_command-Keeps able 0xa8) λ r' p'.
        Stage-bind (ps2_send_command-Keeps able 0x20) λ r'' p''.
          Stage-bind (ps2_receive_byte-Keeps bus) λ answer q.
            Stage-if (is_timeout answer.0) (λ late. Stage-fail _ (inl refl))
              (λ ready. found_port_2-Stage config _ c)

  self_test-Stage : (config : ℕ) (c : Controller) → Stage (self_test bus fuel config c)
  unfolding self_test
  self_test-Stage config c = Stage-bind (write_config-Keeps able config) λ r p.
      Stage-bind (ps2_send_command-Keeps able 0xaa) λ r' p'.
        Stage-bind (ps2_receive_byte-Keeps bus) λ answer q.
          Stage-if (is_timeout answer.0) (λ late. Stage-fail _ (inl refl))
            (λ ready.
              Stage-if (answer.1 == 0x55) (λ passed. detect_port_2-Stage config c)
                (λ broken. Stage-fail _ (inr (inl refl))))

  init_controller-Stage : (c : Controller) → Stage (ps2_init_controller bus fuel c)
  unfolding ps2_init_controller
  init_controller-Stage c = Stage-bind (flush-Keeps able) λ r p.
      Stage-bind (ps2_send_command-Keeps able 0xad) λ r1 p1.
        Stage-bind (ps2_send_command-Keeps able 0xa7) λ r2 p2.
          Stage-bind (flush-Keeps able) λ r3 p3.
            Stage-bind (ps2_send_command-Keeps able 0x20) λ r4 p4.
              Stage-bind (ps2_receive_byte-Keeps bus) λ answer q.
                Stage-if (is_timeout answer.0) (λ late. Stage-fail _ (inl refl))
                  (λ ready. self_test-Stage _ c)

  -- At a controller that takes every command within `fuel` looks at its status and whose output
  -- buffer holds fewer than `fuel` bytes, whatever it answers, `ps2_init_controller` returns. Either
  -- it reports success: then some port works, every working port counts as populated, and the mask
  -- register of the first interrupt controller has been written exactly once. Or it reports a
  -- timeout, a failed self test, or, with neither port working, that there is no working port, and
  -- that register has not been written.
  pub ps2_init_controller_lem :
      (c : Controller) (m : Machine D)
      → (r : Result) × (m' : Machine D) × (ps2_init_controller bus fuel c m ≡ some (r, m'))
        × (((r.0 ≡ ps2_ok) × Usable r.1 × (masks m'.log ≡ masks m.log + 1))
            ⊎ (Failed r × (masks m'.log ≡ masks m.log)))
  ps2_init_controller_lem c m =
      let t = init_controller-Stage c m in (t.value, t.after, t.returns, t.holds)
