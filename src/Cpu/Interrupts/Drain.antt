-- ===== src/Cpu/Interrupts/Drain.antt =====
-- What the timer's interrupt does with the key events in the buffer.
use j_oe_s.Base.{
  ℕ, zero, suc, ◌<◌, ◌≡◌, refl, ◌∙◌, ap, sym, Option, none, some, List, [], ◌∷◌, ◌++◌, length,
  subst, eq_of_some, arith,
}
use mathlib.Core.List.{append-nil, append_assoc}
use j_oe_s.Keyboard.Event.{KeyEvent, key_event_to_ascii}
use j_oe_s.Keyboard.Buffer.{KeyBuffer, get_key_event}
use j_oe_s.Keyboard.Buffer.Queue.{
  IsValid, contents, pop, Gets, get_key_event_refines, length-contents,
}
use j_oe_s.Drivers.Port.{Bus}
use j_oe_s.Format.{a_string}
use j_oe_s.Format.Logging.{level_info}
use j_oe_s.Drivers.Serial.Log.{
  IsReady, Undisturbed, Undisturbed-refl, Undisturbed-trans, log_msg-Total, string_text,
}
use j_oe_s.Cpu.Interrupts.{System, string_format, logged, drain, show_event, end_irq, timer_case}

-- The characters of several events, in order.
abbrev pub text_of : List KeyEvent → List ℕ
text_of [] = []
text_of (e ∷ rest) = key_event_to_ascii e ++ text_of rest

module _ {D : Type 0} (bus : Bus D) (wait : ℕ) where
  -- The events of a queue have been taken out, printed and logged.
  pub record Drained (q : List KeyEvent) (s s' : System D) : Type 0 where
    pub valid : IsValid s'.keyboard.buffer
    pub empty : contents s'.keyboard.buffer ≡ []
    pub printed : s'.terminal ≡ s.terminal ++ text_of q
    pub runs_on : s'.halted ≡ s.halted
    pub undisturbed : Undisturbed s.machine s'.machine

  abbrev Drains : ℕ → List KeyEvent → System D → Type 0
  Drains fuel q s = (s' : System D) × (drain bus wait fuel s ≡ some s') × Drained q s s'

  -- One event shown.
  record Shown (e : KeyEvent) (b : KeyBuffer) (s s' : System D) : Type 0 where
    buffer : s'.keyboard.buffer ≡ b
    printed : s'.terminal ≡ s.terminal ++ key_event_to_ascii e
    runs_on : s'.halted ≡ s.halted
    undisturbed : Undisturbed s.machine s'.machine

  module _ (ready : IsReady bus wait) where
    show_event_lem :
        (e : KeyEvent) (b : KeyBuffer) (s : System D)
        → (s' : System D) × (show_event bus wait e b s ≡ some s') × Shown e b s s'
    unfolding show_event logged
    show_event_lem e b s =
        let (text, made) = string_text s.site (key_event_to_ascii e) in
        let t =
          log_msg-Total bus wait ready s.site level_info string_format
            (a_string (key_event_to_ascii e) ∷ []) text s.machine made in
        (
          record s {
            machine = t.after;
            keyboard = record s.keyboard { buffer = b };
            terminal = s.terminal ++ key_event_to_ascii e;
          },
          rw (t.returns, show_event, logged) refl,
          record { buffer = refl; printed = refl; runs_on = refl; undisturbed = t.holds },
        )

    -- One round, by what the buffer gives.
    drain_round :
        (fuel : ℕ) (q : List KeyEvent) (s : System D) (r : Option (Option KeyEvent × KeyBuffer))
        → get_key_event s.keyboard.buffer ≡ r
        → IsValid s.keyboard.buffer
        → contents s.keyboard.buffer ≡ q
        → Gets s.keyboard.buffer r (pop q)
        → ((rest : List KeyEvent) (s' : System D)
            → IsValid s'.keyboard.buffer
            → contents s'.keyboard.buffer ≡ rest
            → suc (length rest) ≡ length q
            → Drains fuel rest s')
        → Drains (suc fuel) q s
    unfolding drain
    drain_round fuel [] s none e valid c gets next = (
      s,
      rw (e, drain) refl,
      record {
        valid = valid;
        empty = c;
        printed = sym (append-nil s.terminal);
        runs_on = refl;
        undisturbed = Undisturbed-refl s.machine;
      },
    )
    drain_round fuel (ev ∷ rest) s none e valid c gets next = absurd gets
    drain_round fuel [] s (some (out, b)) e valid c gets next = absurd gets
    drain_round fuel (ev ∷ rest) s (some (none, b)) e valid c gets next = cc gets.0
    drain_round fuel (ev ∷ rest) s (some (some e', b)) e valid c (same, c', valid') next =
        let (s1, shown, h) = show_event_lem e' b s in
        let (s2, run, d) = next rest s1 (rw h.buffer valid') (ap contents h.buffer ∙ c') refl in
        (
          s2,
          rw (e, drain, shown) run,
          record {
            valid = d.valid;
            empty = d.empty;
            printed =
                d.printed
                ∙ ap (λ t. t ++ text_of rest) h.printed
                ∙ append_assoc s.terminal (key_event_to_ascii e') (text_of rest)
                ∙ ap (λ x. s.terminal ++ text_of (x ∷ rest)) (eq_of_some same);
            runs_on = d.runs_on ∙ h.runs_on;
            undisturbed = Undisturbed-trans h.undisturbed d.undisturbed;
          },
        )

    drains :
        (fuel : ℕ) (q : List KeyEvent) (s : System D)
        → IsValid s.keyboard.buffer
        → contents s.keyboard.buffer ≡ q
        → length q < fuel
        → Drains fuel q s
    drains zero q s valid c lt = absurd (omega arith)
    drains (suc fuel) q s valid c lt =
        drain_round fuel q s (get_key_event s.keyboard.buffer) refl valid c
          (subst (λ p. Gets s.keyboard.buffer (get_key_event s.keyboard.buffer) (pop p)) c
            (get_key_event_refines s.keyboard.buffer valid))
          (λ rest s' valid' c' shorter. drains fuel rest s' valid' c' (omega arith))

    -- With a valid key buffer, 33 rounds are enough for the timer's interrupt: it takes every event
    -- out, oldest first, prints and logs the characters of each, leaves the buffer valid and empty,
    -- and ends with the end-of-interrupt command for IRQ 0.
    pub timer_case-drain :
        (s : System D)
        → IsValid s.keyboard.buffer
        → (s' : System D) × Drained (contents s.keyboard.buffer) s s'
          × (timer_case bus wait 33 s ≡ some (end_irq bus wait 0 s'))
    unfolding timer_case
    timer_case-drain s valid =
        let (s', run, d) =
          drains 33 (contents s.keyboard.buffer) s valid refl
            (omega (arith, length-contents s.keyboard.buffer, valid.size_in)) in
        (s', d, rw (run, timer_case) refl)
