-- ===== src/Boot/Logged.antt =====
-- The messages of `kmain` on a serial port that gets ready.
use j_oe_s.Base.{ℕ, ◌≡◌, refl, some, []}
use j_oe_s.Drivers.Port.{Bus, Machine}
use j_oe_s.Drivers.Serial.Log.{IsReady, Undisturbed, log_msg-Total, logging_log_msg-plain}
use j_oe_s.Boot.{Kernel, note, logged}
use j_oe_s.Boot.Messages.{KernelMessage, level_of, string_of, string_of-plain}

-- A message is sent, with nothing else written.
pub logged_lem :
    {D : Type 0} (bus : Bus D) (fuel : ℕ) (ready : IsReady bus fuel) (message : KernelMessage)
    (k : Kernel D)
    → (m' : Machine D) × Undisturbed k.machine m'
      × (logged bus fuel message k ≡ some (note message (record k { machine = m' })))
unfolding logged
logged_lem bus fuel ready message k =
    let (text, made) =
      logging_log_msg-plain k.site (level_of message) (string_of message) []
        (string_of-plain message) in
    let t =
      log_msg-Total bus fuel ready k.site (level_of message) (string_of message) [] text k.machine
        made in
    (t.after, t.holds, rw (t.returns, logged) refl)
