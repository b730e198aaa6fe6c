-- ===== src/Drivers/Ps2/Quiet.antt =====
-- The operations of ps2.c and `ps2_kbd_init` return at a controller that takes commands, and write
-- nothing to the mask register of the first interrupt controller.
pub mod Sends
use j_oe_s.Base.{
  ℕ, zero, suc, ◌+◌, ◌≡◌, refl, ◌∙◌, Bool, true, false, List, [], ◌∷◌, some, ◌==◌, inl, inr,
  if◌then◌else◌, Bool-cases, u8, u16, arith,
}
use j_oe_s.Drivers.Port.{Bus, Machine, Access, was_read, wrote, port_read_byte, port_write_byte}
use j_oe_s.Drivers.Port.Io.{Io, pure, ◌>>=◌, wait_while}
use j_oe_s.Drivers.Port.Total.{Total, Total-mono, pure-Total, bind-Total, if-Total}
use j_oe_s.Drivers.Pic.{pic1_data}
use j_oe_s.Drivers.Ps2.{
  Ps2Error, ps2_ok, timed_out, no_ack, is_ok, port_2, timeout_rounds, output_buffer_empty,
  input_buffer_full, wait_bounded, ps2_receive_byte, write_data, ps2_send_command, flush_loop,
  ps2_raw_send_byte, acknowledged, attempt, attempts, ps2_command, ps2_data,
}

-- How often the mask register of the first interrupt controller has been written.
unfoldable pub masks : List Access → ℕ
masks [] = 0
masks (wrote port v ∷ log) = if port == pic1_data then masks log + 1 else masks log
masks (was_read port v ∷ log) = masks log

-- A sequence returns a value with a property, and leaves that count alone.
abbrev pub Gives : {D A : Type 0} → Io D A → (A → Type 0) → Type 0
Gives {D} x P = (m : Machine D) → Total x (λ a m'. P a × (masks m'.log ≡ masks m.log)) m

abbrev pub Keeps : {D A : Type 0} → Io D A → Type 0
Keeps x = Gives x (λ a. Unit {0})

module _ {D A : Type 0} where
  pub pure-Gives : (a : A) {P : A → Type 0} → P a → Gives {D = D} (pure a) P
  pure-Gives a p m = pure-Total a (p, refl)

  pub pure-Keeps : (a : A) → Keeps {D = D} (pure a)
  pure-Keeps a m = pure-Total a (tt, refl)

  pub bind-Gives :
      {B : Type 0} {x : Io D A} {f : A → Io D B} {P : A → Type 0} {Q : B → Type 0}
      → Gives x P
      → ((a : A) → P a → Gives (f a) Q)
      → Gives (x >>= f) Q
  bind-Gives g next m =
      bind-Total (g m) λ a m' p. Total-mono (next a p.0 m') (λ b m'' q. (q.0, q.1 ∙ p.1))

  pub bind-Keeps :
      {B : Type 0} {x : Io D A} {f : A → Io D B} {Q : B → Type 0}
      → Keeps x
      → ((a : A) → Gives (f a) Q)
      → Gives (x >>= f) Q
  bind-Keeps g next = bind-Gives g (λ a p. next a)

  pub if-Gives :
      (b : Bool) {x y : Io D A} {P : A → Type 0}
      → Gives x P
      → Gives y P
      → Gives (if b then x else y) P
  if-Gives true g h = g
  if-Gives false g h = h

-- A controller that takes every command within `fuel` looks at its status, and whose output
-- buffer is empty after at most `fuel` bytes.
pub record Responsive {D : Type 0} (bus : Bus D) (fuel : ℕ) : Type 0 where
  pub takes :
      (m : Machine D)
      → (m' : Machine D) × (wait_while bus fuel input_buffer_full ps2_command m ≡ some (tt, m'))
  pub drains : (m : Machine D) → (m' : Machine D) × (flush_loop bus fuel m ≡ some (tt, m'))

module _ {D : Type 0} (bus : Bus D) where
  pub wait_while-masks :
      (fuel : ℕ) (busy : ℕ → Bool) (port : ℕ) (m m' : Machine D)
      → wait_while bus fuel busy port m ≡ some (tt, m')
      → masks m'.log ≡ masks m.log
  unfolding wait_while port_read_byte masks
  wait_while-masks zero busy port m m' e = cc
  wait_while-masks (suc fuel) busy port m m' e =
      ground (arith, wait_while-masks fuel busy port (port_read_byte bus port m).1 m')

  pub flush_loop-masks :
      (fuel : ℕ) (m m' : Machine D)
      → flush_loop bus fuel m ≡ some (tt, m')
      → masks m'.log ≡ masks m.log
  unfolding flush_loop port_read_byte masks
  flush_loop-masks zero m m' e = cc
  flush_loop-masks (suc fuel) m m' e = ground (
    arith,
    flush_loop-masks fuel (port_read_byte bus ps2_data (port_read_byte bus ps2_command m).1).1 m',
  )

  wait_bounded-masks :
      (timeout : ℕ) (busy : ℕ → Bool) (m : Machine D)
      → masks (wait_bounded bus timeout busy m).1.log ≡ masks m.log
  unfolding wait_bounded port_read_byte masks
  wait_bounded-masks zero busy m = refl
  wait_bounded-masks (suc timeout) busy m =
      ground (arith, wait_bounded-masks timeout busy (port_read_byte bus ps2_command m).1)

  pub ps2_receive_byte-Keeps : Keeps (ps2_receive_byte bus)
  unfolding ps2_receive_byte port_read_byte masks
  ps2_receive_byte-Keeps m =
      let same = wait_bounded-masks timeout_rounds output_buffer_empty m in
      let waited = (wait_bounded bus timeout_rounds output_buffer_empty m).1 in
      let (byte, m'') = port_read_byte bus ps2_data waited in
      elim (Bool-cases (wait_bounded bus timeout_rounds output_buffer_empty m).0) [
        | inl ready ↦ record {
          value = (ps2_ok, byte);
          after = m'';
          returns = rw ready refl;
          holds = (tt, same);
        }
        | inr late ↦ record {
          value = (timed_out, 0);
          after = waited;
          returns = rw late refl;
          holds = (tt, same);
        }
      ]

  pub write_data-Keeps : (data' : ℕ) → Keeps (write_data bus data')
  unfolding write_data port_write_byte masks
  write_data-Keeps data' m =
      let same = wait_bounded-masks timeout_rounds input_buffer_full m in
      let waited = (wait_bounded bus timeout_rounds input_buffer_full m).1 in
      elim (Bool-cases (wait_bounded bus timeout_rounds input_buffer_full m).0) [
        | inl ready ↦ record {
          value = ps2_ok;
          after = port_write_byte bus ps2_data data' waited;
          returns = rw ready refl;
          holds = (tt, same);
        }
        | inr late ↦ record {
          value = timed_out;
          after = waited;
          returns = rw late refl;
          holds = (tt, same);
        }
      ]
