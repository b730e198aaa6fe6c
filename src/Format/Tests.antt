-- ===== src/Format/Tests.antt =====
-- A run of both interpreters.
use j_oe_s.Base.{some, ltb, if◌then◌else◌, ℕ, ◌≡◌, false, List, [], ◌∷◌}
use j_oe_s.Libc.{Memory}
use j_oe_s.Format.{a_number, specifier_of}
use j_oe_s.Format.Printf.{printf}
use j_oe_s.Format.Logging.{initial_backend, logging_log_msg}
use j_oe_s.Format.Agree.{IsPlain, framed, logging_log_msg-printf}

abbrev junk : Memory
junk _ = 7

-- "n=%u"
abbrev format : List ℕ
format = b'n' ∷ b'=' ∷ b'%' ∷ b'u' ∷ []

format-IsPlain : IsPlain false format
unfolding specifier_of
format-IsPlain = (tt, tt)

logging_log_msg_example :
    logging_log_msg junk 100 (b'l' ∷ []) initial_backend 1 (b'f' ∷ []) format (a_number 42 ∷ []) ≡ (
      if ltb 1 0 then some [] else framed 1 (b'f' ∷ []) (printf junk 100 format (a_number 42 ∷ [])))
logging_log_msg_example =
    logging_log_msg-printf junk 100 (b'l' ∷ []) initial_backend 1 (b'f' ∷ []) format
      (a_number 42 ∷ []) format-IsPlain
