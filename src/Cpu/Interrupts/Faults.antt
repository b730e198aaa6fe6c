-- ===== src/Cpu/Interrupts/Faults.antt =====
-- The descriptions of the exceptions, and the arguments that they are logged with.
use j_oe_s.Base.{
  ℕ, zero, suc, ◌+◌, ◌<◌, ◌≤◌, ◌^◌, ◌≡◌, ◌⊎◌, inl, inr, refl, ap, arith, false, none, some, List,
  [], ◌∷◌, ◌++◌, ltb, u32, word64, Bool-cases, ◌==◌, ==_iff, ==→ne,
}
use j_oe_s.Format.{Argument, next_number, specifier_of}
use j_oe_s.Format.Logging.{
  level_error, log_loop, log_char, convert, message_of, complaint_of, label_of, origin_of,
  logging_log_msg,
}
use j_oe_s.Format.Numbers.{Fits, log_loop-Fits}
use j_oe_s.Drivers.Serial.Log.{Site, message_text}
use j_oe_s.Cpu.Interrupts.{Frame, arguments_of}
use j_oe_s.Cpu.Interrupts.Descriptions.{description_of}

abbrev frame : ℕ → ℕ → ℕ → Frame
frame v e c = record { interrupt_vector = v; error_code = e; cr2 = c }

-- The vectors at which the handler reports an exception.
abbrev pub IsReported : ℕ → Type 0
IsReported v = (v < 20) ⊎ (v ≡ 21)

-- The vector has a description, whose specifiers have their arguments.
abbrev pub Fitting : ℕ → ℕ → ℕ → Type 0
Fitting v e c =
    IsReported v
    × ((msg : List ℕ) × (description_of v ≡ some msg) × Fits false msg (arguments_of (frame v e c)))

-- The vectors below 24 whose descriptions have specifiers without arguments.
abbrev pub Unfit : ℕ → Type 0
Unfit v = (v ≡ 20) ⊎ (22 ≤ v)

pub reads : (v e c : ℕ) → v < 24 → u32 e < 2 ^ 31 → Fitting v e c ⊎ Unfit v
reads zero e c lt small = inl (inl (omega arith), (_, refl, tt))
reads (suc zero) e c lt small = inl (inl (omega arith), (_, refl, tt))
reads (suc (suc zero)) e c lt small = inl (inl (omega arith), (_, refl, tt))
reads (suc (suc (suc zero))) e c lt small = inl (inl (omega arith), (_, refl, tt))
reads (suc (suc (suc (suc zero)))) e c lt small = inl (inl (omega arith), (_, refl, tt))
reads (suc (suc (suc (suc (suc zero))))) e c lt small = inl (inl (omega arith), (_, refl, tt))
reads (suc (suc (suc (suc (suc (suc zero)))))) e c lt small = inl (inl (omega arith), (_, refl, tt))
reads (suc (suc (suc (suc (suc (suc (suc zero))))))) e c lt small =
    inl (inl (omega arith), (_, refl, tt))
reads (suc (suc (suc (suc (suc (suc (suc (suc zero)))))))) e c lt small =
    inl (inl (omega arith), (_, refl, (inl (refl, small), tt)))
reads (suc (suc (suc (suc (suc (suc (suc (suc (suc zero))))))))) e c lt small =
    inl (inl (omega arith), (_, refl, tt))
reads (suc (suc (suc (suc (suc (suc (suc (suc (suc (suc zero)))))))))) e c lt small =
    inl (inl (omega arith), (_, refl, (inl (refl, small), tt)))
reads (suc (suc (suc (suc (suc (suc (suc (suc (suc (suc (suc zero))))))))))) e c lt small =
    inl (inl (omega arith), (_, refl, (inl (refl, small), tt)))
reads (suc (suc (suc (suc (suc (suc (suc (suc (suc (suc (suc (suc zero)))))))))))) e c lt small =
    inl (inl (omega arith), (_, refl, (inl (refl, small), tt)))
reads (suc (suc (suc (suc (suc (suc (suc (suc (suc (suc (suc (suc (suc zero))))))))))))) e c lt
      small =
    inl (inl (omega arith), (_, refl, (inl (refl, small), tt)))
reads (suc (suc (suc (suc (suc (suc (suc (suc (suc (suc (suc (suc (suc (suc zero)))))))))))))) e c
      lt small =
    inl (inl (omega arith), (_, refl, (inl (refl, small), (inr refl, tt))))
reads (suc (suc (suc (suc (suc (suc (suc (suc (suc (suc (suc (suc (suc (suc (suc zero)))))))))))))))
      e c lt small =
    inl (inl (omega arith), (_, refl, tt))
reads
      (suc (
        suc
          (suc (suc (suc (suc (suc (suc (suc (suc (suc (suc (suc (suc (suc (suc zero))))))))))))))))
      e c lt small =
    inl (inl (omega arith), (_, refl, tt))
reads
      (suc (
        suc (
          suc (
            suc
              (suc (suc (suc (suc (suc (suc (suc (suc (suc (suc (suc (suc (suc zero)))))))))))))))))
      e c lt small =
    inl (inl (omega arith), (_, refl, (inl (refl, small), tt)))
reads
      (suc (
        suc (
          suc (
            suc (
              suc (
                suc
                  (suc (suc (suc (suc (suc (suc (suc (suc (suc (suc (suc (suc zero))))))))))))))))))
      e c lt small =
    inl (inl (omega arith), (_, refl, tt))
reads
      (suc (
        suc (
          suc (
            suc (
              suc (
                suc (
                  suc (
                    suc
                      (suc (suc (suc (suc (suc (suc (suc (suc (suc (suc (suc zero)))))))))))))))))))
      e c lt small =
    inl (inl (omega arith), (_, refl, tt))
reads
      (suc (
        suc (
          suc (
            suc (
              suc (
                suc (
                  suc (
                    suc (
                      suc (
                        suc
                          (suc (suc (suc (suc (suc (suc (suc (suc (suc (suc zero))))))))))))))))))))
      e c lt small =
    inr (inl refl)
reads
      (suc (
        suc (
          suc (
            suc (
              suc (
                suc (
                  suc (
                    suc (
                      suc (
                        suc (
                          suc (
                            suc
                              (suc (suc (suc (suc (suc (suc (suc (suc (suc zero)))))))))))))))))))))
      e c lt small =
    inl (inr refl, (_, refl, tt))
reads
      (suc (
        suc (
          suc (
            suc (
              suc (
                suc (
                  suc (
                    suc (
                      suc (
                        suc (
                          suc (
                            suc (
                              suc (
                                suc
                                  (suc (suc (suc (suc (suc (suc (suc (suc zero))))))))))))))))))))))
      e c lt small =
    inr (inr (omega arith))
reads
      (suc (
        suc (
          suc (
            suc (
              suc (
                suc (
                  suc (
                    suc (
                      suc (
                        suc (
                          suc (
                            suc (
                              suc (
                                suc (
                                  suc (
                                    suc
                                      (suc (suc (suc (suc (suc (suc (suc zero)))))))))))))))))))))))
      e c lt small =
    inr (inr (omega arith))
reads
      (suc (
        suc (
          suc (
            suc (
              suc (
                suc (
                  suc (
                    suc (
                      suc (
                        suc (
                          suc (
                            suc (
                              suc (
                                suc (
                                  suc (
                                    suc (
                                      suc
                                        (suc (suc (suc (suc (suc (suc (suc v))))))))))))))))))))))))
      e c lt small =
    absurd (omega arith)

module _ (site : Site) (shown : site.backend.level ≤ 3) where
  -- The text of a message is made where its specifiers have their arguments.
  pub message_text-Fits :
      (msg : List ℕ) (args : List Argument)
      → site.buffer + 66 < word64
      → Fits false msg args
      → (text : List ℕ) × (message_text site level_error msg args ≡ some text)
  unfolding logging_log_msg
  message_text-Fits msg args room fits =
      let (l, e) =
        log_loop-Fits site.memory site.buffer room (complaint_of site.logging_file) false msg 0 []
          args fits in
      let above : ltb 3 site.backend.level ≡ false = ground (arith, shown) in
      (
        label_of level_error ++ origin_of level_error site.file ++ l.output ++ (10 ∷ []),
        rw (above, logging_log_msg) (ap (message_of level_error site.file) e),
      )

  text_missing :
      (msg : List ℕ)
      → log_loop site.memory site.buffer
          (complaint_of site.logging_file)
          msg
          (record { formatting = false; prefix = 0; output = []; args = [] })
        ≡ none
      → message_text site level_error msg [] ≡ none
  unfolding logging_log_msg
  text_missing msg e =
      let above : ltb 3 site.backend.level ≡ false = ground (arith, shown) in
      rw (above, logging_log_msg) (ap (message_of level_error site.file) e)

  -- The descriptions at 20, 22 and 23 ask for arguments that they do not get.
  pub lacks_argument :
      (v : ℕ)
      → v < 24
      → Unfit v
      → (msg : List ℕ) × (description_of v ≡ some msg)
        × (message_text site level_error msg [] ≡ none)
  unfolding log_loop log_char convert next_number specifier_of
  lacks_argument v lt (inl e) = (_, ap description_of e, text_missing _ refl)
  lacks_argument v lt (inr ge) = elim (Bool-cases (v == 22)) [
    | inl e ↦ (_, ap description_of ((==_iff v 22).0 e), text_missing _ refl)
    | inr ne ↦
        let last : v ≡ 23 = omega (arith, lt, ge, ==→ne v 22 ne) in
        (_, ap description_of last, text_missing _ refl)
  ]
