-- ===== src/Cpu/Interrupts/Eoi.antt =====
-- Which end-of-interrupt commands the handler sends, and when it halts.
use j_oe_s.Base.{
  ℕ, zero, suc, ap, ◌+◌, ◌^◌, word64, ◌-◌, Bool, none, get_elem?_of_ge, ◌<◌, ◌≤◌, ◌≡◌, refl, true,
  some, List, [], ◌∷◌, ltb, if◌then◌else◌, ltb→le, ltb→lt, Bool-cases, ◌⊎◌, inl, inr, arith, ◌∙◌,
}
use j_oe_s.Keyboard.Buffer.Queue.{IsValid}
use j_oe_s.Drivers.Port.{Bus, Machine, Access, wrote, port_read_byte, port_write_byte}
use j_oe_s.Drivers.Port.Total.{Total}
use j_oe_s.Drivers.Pic.{pic_send_eoi}
use j_oe_s.Drivers.Ps2.{
  ps2_ok, timed_out, timeout_rounds, output_buffer_empty, wait_bounded, ps2_receive_byte, ps2_data,
}
use j_oe_s.Keyboard.Irq.{irq_callback}
use j_oe_s.Cpu.Interrupts.{
  System, Frame, ext_text, logged, keyboard_case, external_case, interrupt_handler, end_irq,
  halt_with, arguments_of,
}
use j_oe_s.Cpu.Interrupts.Descriptions.{interrupt_descriptions, description_of}
use j_oe_s.Cpu.Interrupts.Faults.{IsReported, Unfit, reads, message_text-Fits, lacks_argument}
use j_oe_s.Format.{Argument}
use j_oe_s.Format.Logging.{level_debug, level_error}
use j_oe_s.Drivers.Serial.Log.{
  IsReady, Undisturbed, elsewhere, plain, message_text, log_msg-Total, log_msg-none,
  logging_log_msg-plain,
}
use j_oe_s.Cpu.Interrupts.Drain.{timer_case-drain}

-- The log after the end-of-interrupt commands for an IRQ: to PIC1, and before that to PIC2 for its
-- own IRQs.
abbrev pub eoi_of : ℕ → List Access → List Access
eoi_of irq log = wrote 0x20 0x20 ∷ (if ltb 7 irq then wrote 0xa0 0x20 ∷ log else log)

ext_text-plain : (irq : ℕ) → plain (ext_text (suc (suc irq))) ≡ true
unfolding plain
ext_text-plain irq = ground arith

undescribed : (v : ℕ) → 24 ≤ v → description_of v ≡ none
undescribed v ge = get_elem?_of_ge interrupt_descriptions v ge

-- The vectors at which the handler reads a description or an argument that is not there.
abbrev pub IsFaulty : ℕ → Type 0
IsFaulty v = (v ≡ 20) ⊎ (((22 ≤ v) × (v < 32)) ⊎ (48 ≤ v))

no_arguments :
    (f : Frame) → f.interrupt_vector < 24 → Unfit f.interrupt_vector → arguments_of f ≡ []
no_arguments f lt (inl e) = rw e refl
no_arguments f lt (inr ge) = ground (arith, lt, ge)

module _ {D : Type 0} (bus : Bus D) where
  pub pic_send_eoi-log : (irq : ℕ) (m : Machine D) → (pic_send_eoi bus irq m).log ≡ eoi_of irq m.log
  unfolding pic_send_eoi port_write_byte
  pic_send_eoi-log irq m = ground arith

  -- The keyboard's byte is received without a write.
  wait_bounded-elsewhere :
      (timeout : ℕ) (busy : ℕ → Bool) (m : Machine D)
      → elsewhere (wait_bounded bus timeout busy m).1.log ≡ elsewhere m.log
  unfolding wait_bounded port_read_byte elsewhere
  wait_bounded-elsewhere zero busy m = refl
  wait_bounded-elsewhere (suc timeout) busy m =
      ground (arith, wait_bounded-elsewhere timeout busy (port_read_byte bus 0x64 m).1)

  ps2_receive_byte-elsewhere :
      (m : Machine D) → Total (ps2_receive_byte bus) (λ r m'. elsewhere m'.log ≡ elsewhere m.log) m
  unfolding ps2_receive_byte port_read_byte elsewhere
  ps2_receive_byte-elsewhere m =
      let same = wait_bounded-elsewhere timeout_rounds output_buffer_empty m in
      let waited = (wait_bounded bus timeout_rounds output_buffer_empty m).1 in
      let (byte, m'') = port_read_byte bus ps2_data waited in
      elim (Bool-cases (wait_bounded bus timeout_rounds output_buffer_empty m).0) [
        | inl ready ↦ record {
          value = (ps2_ok, byte);
          after = m'';
          returns = rw ready refl;
          holds = same;
        }
        | inr late ↦ record {
          value = (timed_out, 0);
          after = waited;
          returns = rw late refl;
          holds = same;
        }
      ]

  -- The handler goes on after an external interrupt. Its last writes are the end-of-interrupt commands,
  -- and all its writes before them went to the data register of COM1.
  abbrev pub Signals : ℕ → System D → System D → Type 0
  Signals irq s s' =
      (s'.halted ≡ s.halted)
      × ((log : List Access) × (s'.machine.log ≡ eoi_of irq log)
          × (elsewhere log ≡ elsewhere s.machine.log))

  -- The handler halts, with nothing done but bytes sent to COM1.
  abbrev pub Halts : System D → System D → Type 0
  Halts s s' =
      (s'.halted ≡ true)
      × Undisturbed s.machine s'.machine
      × (s'.keyboard ≡ s.keyboard)
      × (s'.terminal ≡ s.terminal)

  module _ (wait : ℕ) (ready : IsReady bus wait) where
    external_case-Signals :
        (irq : ℕ) (s : System D)
        → IsValid s.keyboard.buffer
        → (s' : System D) × (external_case bus wait 33 irq s ≡ some s') × Signals irq s s'
    unfolding external_case keyboard_case logged
    external_case-Signals zero s valid =
        let (s', d, run) = timer_case-drain bus wait ready s valid in
        (
          _,
          run,
          (
            d.runs_on,
            (s'.machine.log, pic_send_eoi-log 0 s'.machine, d.undisturbed.same_elsewhere),
          ),
        )
    external_case-Signals (suc zero) s valid =
        let t = ps2_receive_byte-elsewhere s.machine in
        (
          end_irq bus wait 1
              (record s { machine = t.after; keyboard = irq_callback s.keyboard t.value.1 }),
          rw (t.returns, keyboard_case) refl,
          (refl, (t.after.log, pic_send_eoi-log 1 t.after, t.holds)),
        )
    external_case-Signals (suc (suc irq)) s valid =
        let msg = ext_text (suc (suc irq)) in
        let (text, made) = logging_log_msg-plain s.site level_debug msg [] (ext_text-plain irq) in
        let t = log_msg-Total bus wait ready s.site level_debug msg [] text s.machine made in
        (
          end_irq bus wait (suc (suc irq)) (record s { machine = t.after }),
          rw (t.returns, external_case, logged) refl,
          (refl, (t.after.log, pic_send_eoi-log (suc (suc irq)) t.after, t.holds.same_elsewhere)),
        )

    halt_with-Halts :
        (index : ℕ) (msg text : List ℕ) (arguments : List Argument) (s : System D)
        → description_of index ≡ some msg
        → message_text s.site level_error msg arguments ≡ some text
        → (s' : System D) × (halt_with bus wait index arguments s ≡ some s') × Halts s s'
    unfolding halt_with logged
    halt_with-Halts index msg text arguments s there made =
        let t = log_msg-Total bus wait ready s.site level_error msg arguments text s.machine made in
        (
          record s { machine = t.after; halted = true },
          rw (there, halt_with, logged, t.returns) refl,
          (refl, t.holds, refl, refl),
        )

    halt_with-none :
        (index : ℕ) (arguments : List Argument) (s : System D)
        → description_of index ≡ none
        → halt_with bus wait index arguments s ≡ none
    unfolding halt_with
    halt_with-none index arguments s missing = rw (missing, halt_with) refl

    halt_with-textless :
        (index : ℕ) (msg : List ℕ) (arguments : List Argument) (s : System D)
        → description_of index ≡ some msg
        → message_text s.site level_error msg arguments ≡ none
        → halt_with bus wait index arguments s ≡ none
    unfolding halt_with logged
    halt_with-textless index msg arguments s there missing =
        rw
          (
            there,
            halt_with,
            logged,
            log_msg-none bus wait s.site level_error msg arguments s.machine missing,
          )
          refl

    -- An exception by its vector.
    exceptions :
        (f : Frame) (s : System D)
        → s.site.buffer + 66 < word64
        → s.site.backend.level ≤ 3
        → f.error_code < 2 ^ 31
        → f.interrupt_vector < 24
        → (IsReported f.interrupt_vector
            × ((s' : System D) × (halt_with bus wait f.interrupt_vector (arguments_of f) s
                  ≡ some s')
                × Halts s s'))
          ⊎ (IsFaulty f.interrupt_vector
              × (halt_with bus wait f.interrupt_vector (arguments_of f) s ≡ none))
    exceptions f s room shown small lt =
        let v = f.interrupt_vector in
        elim (reads v f.error_code f.cr2 lt (omega (arith, small))) [
          | inl (sound, (msg, there, fits)) ↦
              let (text, made) = message_text-Fits s.site shown msg (arguments_of f) room fits in
              inl (sound, halt_with-Halts v msg text (arguments_of f) s there made)
          | inr unfit ↦
              let (msg, there, missing) = lacks_argument s.site shown v lt unfit in
              inr (
                elim unfit [ inl e ↦ inl e | inr ge ↦ inr (inl (ge, omega (arith, lt))) ],
                ap (λ a. halt_with bus wait v a s) (no_arguments f lt unfit)
                    ∙ halt_with-textless v msg [] s there missing,
              )
        ]

    -- From a system with a valid key buffer, with a serial port that gets ready in the rounds given, a
    -- level of the backend that shows errors, room behind the buffer for numbers, and an error code
    -- below 2^31, the handler does as follows with 33 rounds for the events. For the vectors 32 to 47,
    -- the external interrupts, it goes on: its last writes are the end-of-interrupt commands of that
    -- IRQ, and all its writes before them are bytes for COM1. For the vectors below 20, and for 21, it
    -- halts, with nothing but bytes for COM1 written and interrupts, keyboard and terminal untouched.
    -- For 20, 22 to 31 and all from 48 on, it reads an argument or a description that is not there.
    pub interrupt_handler_lem :
        (f : Frame) (s : System D)
        → IsValid s.keyboard.buffer
        → s.site.buffer + 66 < word64
        → s.site.backend.level ≤ 3
        → f.error_code < 2 ^ 31
        → ((32 ≤ f.interrupt_vector)
            × (f.interrupt_vector < 48)
            × ((s' : System D) × (interrupt_handler bus wait 33 f s ≡ some s')
                × Signals (f.interrupt_vector - 32) s s'))
          ⊎ ((IsReported f.interrupt_vector
                × ((s' : System D) × (interrupt_handler bus wait 33 f s ≡ some s') × Halts s s'))
              ⊎ (IsFaulty f.interrupt_vector × (interrupt_handler bus wait 33 f s ≡ none)))
    unfolding interrupt_handler
    interrupt_handler_lem f s valid room shown small =
        elim (Bool-cases (ltb f.interrupt_vector 32)) [
          | inl exception ↦
              let same : interrupt_handler bus wait 33 f s
                  ≡ halt_with bus wait f.interrupt_vector (arguments_of f) s =
                rw (exception, interrupt_handler) refl in
              elim (Bool-cases (ltb f.interrupt_vector 24)) [
                | inl few ↦ elim (exceptions f s room shown small (ltb→lt _ _ few)) [
                  | inl (reported, (s', e, halts)) ↦ inr (inl (reported, (s', same ∙ e, halts)))
                  | inr (faulty, e) ↦ inr (inr (faulty, same ∙ e))
                ]
                | inr behind ↦
                    let ge = ltb→le _ _ behind in
                    inr (
                      inr (
                        inr (inl (omega (arith, ge), ltb→lt _ _ exception)),
                        same
                            ∙ halt_with-none f.interrupt_vector (arguments_of f) s
                                (undescribed f.interrupt_vector ge),
                      ))
              ]
          | inr other ↦ elim (Bool-cases (ltb f.interrupt_vector 48)) [
            | inl external ↦
                let (s', run, signals) = external_case-Signals (f.interrupt_vector - 32) s valid in
                inl (
                  ltb→le _ _ other,
                  ltb→lt _ _ external,
                  (s', rw (other, external, interrupt_handler) run, signals),
                )
            | inr unknown ↦ inr (
                inr (
                  inr (inr (ltb→le _ _ unknown)),
                  rw (other, unknown, interrupt_handler)
                      (halt_with-none 24 _ s (undescribed 24 (omega arith))),
                ))
          ]
        ]
