-- ===== src/Drivers/Ps2/Send.antt =====
-- What `ps2_send_byte` does at a controller of any behaviour.
use j_oe_s.Base.{
  ℕ, zero, suc, ◌+◌, ◌≤◌, ◌≡◌, ◌≢◌, refl, Bool, true, false, ◌&&◌, List, [], ◌∷◌, some, ◌⊎◌, inl,
  inr, ne→==, Bool-cases, arith,
}
use j_oe_s.Drivers.Port.{Bus, Machine, Access, was_read, wrote, port_read_byte, port_write_byte}
use j_oe_s.Drivers.Port.Total.{Total, Total-mono, pure-Total, bind-Total, if-Total}
use j_oe_s.Drivers.Ps2.{
  Ps2Error, ps2_ok, no_ack, timed_out, is_ok, acknowledges, timeout_rounds, wait_bounded,
  output_buffer_empty, input_buffer_full, ps2_receive_byte, write_data, ps2_raw_send_byte,
  acknowledged, attempt, attempts, ps2_send_byte, port_2, ps2_data,
}

-- How many bytes have been written.
pub writes : List Access → ℕ
writes [] = 0
writes (wrote port v ∷ log) = writes log + 1
writes (was_read port v ∷ log) = writes log

and_left : (a b : Bool) → (a && b) ≡ true → a ≡ true
and_left a b h = ground arith

and_right : (a b : Bool) → (a && b) ≡ true → b ≡ true
and_right a b h = ground arith

-- The last access read an acknowledgement of the byte.
abbrev pub Acknowledged : ℕ → List Access → Type 0
Acknowledged data' log =
    (response : ℕ) × (rest : List Access) × (log ≡ was_read ps2_data response ∷ rest)
    × (acknowledges response data' ≡ true)

module _ {D : Type 0} (bus : Bus D) where
  wait_bounded-writes :
      (timeout : ℕ) (busy : ℕ → Bool) (m : Machine D)
      → writes (wait_bounded bus timeout busy m).1.log ≡ writes m.log
  unfolding wait_bounded port_read_byte writes
  wait_bounded-writes zero busy m = refl
  wait_bounded-writes (suc timeout) busy m =
      ground (arith, wait_bounded-writes timeout busy (port_read_byte bus 0x64 m).1)

  pub ps2_receive_byte-Total :
      (m : Machine D)
      → Total
          (ps2_receive_byte bus)
          (λ r m'.
            (writes m'.log ≡ writes m.log)
            × (is_ok r.0 ≡ true → (rest : List Access) × (m'.log ≡ was_read ps2_data r.1 ∷ rest)))
          m
  unfolding ps2_receive_byte port_read_byte writes
  ps2_receive_byte-Total m =
      let same = wait_bounded-writes timeout_rounds output_buffer_empty m in
      let waited = (wait_bounded bus timeout_rounds output_buffer_empty m).1 in
      let (byte, m'') = port_read_byte bus ps2_data waited in
      elim (Bool-cases (wait_bounded bus timeout_rounds output_buffer_empty m).0) [
        | inl ready ↦ record {
          value = (ps2_ok, byte);
          after = m'';
          returns = rw ready refl;
          holds = (same, λ e. (waited.log, refl));
        }
        | inr late ↦ record {
          value = (timed_out, 0);
          after = waited;
          returns = rw late refl;
          holds = (same, λ e. cc);
        }
      ]

  write_data-Total :
      (data' : ℕ) (m : Machine D)
      → Total (write_data bus data') (λ r m'. writes m'.log ≤ writes m.log + 1) m
  unfolding write_data port_write_byte writes
  write_data-Total data' m =
      let same = wait_bounded-writes timeout_rounds input_buffer_full m in
      let waited = (wait_bounded bus timeout_rounds input_buffer_full m).1 in
      elim (Bool-cases (wait_bounded bus timeout_rounds input_buffer_full m).0) [
        | inl ready ↦ record {
          value = ps2_ok;
          after = port_write_byte bus ps2_data data' waited;
          returns = rw ready refl;
          holds = omega (arith, same);
        }
        | inr late ↦ record {
          value = timed_out;
          after = waited;
          returns = rw late refl;
          holds = omega (arith, same);
        }
      ]

module _ {D : Type 0} (bus : Bus D) (fuel : ℕ) (port data' : ℕ) (not_second : port ≢ port_2) where
  raw_send-Total :
      (m : Machine D)
      → Total (ps2_raw_send_byte bus fuel port data') (λ r m'. writes m'.log ≤ writes m.log + 1) m
  unfolding ps2_raw_send_byte
  raw_send-Total m = rw (ne→== port port_2 not_second) (write_data-Total bus data' m)

  -- An attempt writes at most one byte, and succeeds by an acknowledgement.
  abbrev Tried : Machine D → Bool → Machine D → Type 0
  Tried m done m' = (writes m'.log ≤ writes m.log + 1) × (done ≡ true → Acknowledged data' m'.log)

  acknowledged-Total :
      (m m1 : Machine D)
      → writes m1.log ≤ writes m.log + 1
      → Total (acknowledged bus fuel data') (Tried m) m1
  unfolding acknowledged
  acknowledged-Total m m1 few = bind-Total (ps2_receive_byte-Total bus m1) λ r m2 p.
      pure-Total (is_ok r.0 && acknowledges r.1 data') (
        omega (arith, p.0, few),
        λ e. let (rest, last) = p.1 (and_left _ _ e) in (r.1, rest, last, and_right _ _ e),
      )

  attempt-Total : (m : Machine D) → Total (attempt bus fuel port data') (Tried m) m
  unfolding attempt
  attempt-Total m = bind-Total (raw_send-Total m) λ sent m1 few.
      if-Total (is_ok sent) (λ ok. acknowledged-Total m m1 few)
        (λ failed. pure-Total false (few, λ e. cc))

  -- What `attempts` returns and does with so many rounds left.
  abbrev Sends : ℕ → Machine D → Ps2Error → Machine D → Type 0
  Sends left m r m' =
      (writes m'.log ≤ writes m.log + left)
      × (((r ≡ ps2_ok) × Acknowledged data' m'.log) ⊎ (r ≡ no_ack))

  attempts-Total :
      (left : ℕ) (m : Machine D) → Total (attempts bus fuel left port data') (Sends left m) m
  unfolding attempts
  attempts-Total zero m = pure-Total no_ack (omega arith, inr refl)
  attempts-Total (suc left) m = bind-Total (attempt-Total m) λ done m1 tried.
      if-Total done (λ acked. pure-Total ps2_ok (omega (arith, tried.0), inl (refl, tried.1 acked)))
        (λ again.
          Total-mono (attempts-Total left m1) (λ r m2 s. (omega (arith, tried.0, s.0), s.1)))

  -- For any device behind the ports and any byte, to a port other than the second one,
  -- `ps2_send_byte` returns after writing at most five bytes: `PS2_OK`, and then the last access
  -- has read a response from the data port that acknowledges the byte, or `PS2_ERROR_NO_ACK`.
  pub ps2_send_byte_lem :
      (m : Machine D)
      → (r : Ps2Error) × (m' : Machine D) × (ps2_send_byte bus fuel port data' m ≡ some (r, m'))
        × (writes m'.log ≤ writes m.log + 5)
        × (((r ≡ ps2_ok) × Acknowledged data' m'.log) ⊎ (r ≡ no_ack))
  ps2_send_byte_lem m =
      let t = attempts-Total 5 m in (t.value, t.after, t.returns, t.holds.0, t.holds.1)
