-- ===== src/AsyncLogger/Tests.antt =====
-- The theorems on the logger at concrete schedules.
use cppev.Prelude.{◌≡◌, refl, List, [], ◌∷◌, ◌++◌, none, some}
use cppev.Nio.{Outcome, returned}
use cppev.Buffer.{Buffer, create, put_string}
use cppev.AsyncLogger.{System, Move, log_text, log_end, write_step, header, run, started}
use cppev.AsyncLogger.Pending.{Consistent, all_bytes, held}
use cppev.AsyncLogger.Stepping.{run-account}
use cppev.AsyncLogger.Lines.{open_after, run-lines}
use cppev.AsyncLogger.Stopping.{run-written}

abbrev fresh : Buffer
fresh = record { cap = 1; start = 0; offset = 0; store = 0 ∷ [] }

created : create 1 ≡ some fresh
unfolding create
created = refl

abbrev begun : System
begun = started 1 fresh

abbrev result_or : System → Outcome System → System
result_or s (returned t) = t
result_or s _ = s

-- Thread 7 logs a text and ends its line.
abbrev one_line : List Move
one_line = log_text 7 (49 ∷ []) (55 ∷ []) (97 ∷ 98 ∷ []) ∷ log_end 7 (49 ∷ []) (55 ∷ []) ∷ []

unfoldable lined : System
unfolding run
lined = result_or begun (run (one_line ++ write_step ∷ []) begun)

run-lined : run (one_line ++ write_step ∷ []) begun ≡ returned lined
unfolding lined put_string header
run-lined = refl

lined-Consistent : Consistent lined
lined-Consistent = run-account 1 fresh (one_line ++ write_step ∷ []) lined created run-lined

run-account_example : Consistent lined
run-account_example = run-account 1 fresh (one_line ++ write_step ∷ []) lined created run-lined

run-lines_example : open_after none lined.logged ≡ some none
unfolding lined put_string header
run-lines_example = run-lines 1 fresh (one_line ++ write_step ∷ []) lined created run-lined

run-written_example :
    (t : System) × (run (write_step ∷ write_step ∷ []) lined ≡ returned t)
    × (t.passed ≡ all_bytes lined.logged)
    × (t.logged ≡ lined.logged)
    × (held t.logger ≡ [])
unfolding lined put_string header
run-written_example = run-written lined lined-Consistent refl refl refl
