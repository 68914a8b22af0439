-- ===== src/Logs/Examples.antt =====
-- The log buffer at concrete inputs.
use beam_init.Base.{◌++◌, ℕ, ◌≡◌, some, List, [], ◌∷◌, arith}
use beam_init.Base.Text.{Text, codes}
use beam_init.Logs.Writer.{write_log, AreSanitized, closed_text, drain-write_log}
use beam_init.Logs.{RingBuffer, new, drain}
use beam_init.Logs.Retention.{push_all}
use beam_init.Logs.Reader.{drain-push_all, shown}

abbrev output : List Text
output = codes "a" ∷ codes "b" ∷ codes "c" ∷ codes "d" ∷ []

drain-push_all_example : drain 6 (push_all output (new 2)) 1 ≡ some (shown 2 output 1, 4)
drain-push_all_example = drain-push_all 2 output 1 6 (omega arith) (omega arith)

abbrev latin : List ℕ → List ℕ
latin bytes = bytes

drain-write_log_example :
    (b : RingBuffer) × (lines : List Text) × AreSanitized latin latin
      ((104 ∷ 27 ∷ []) ∷ (105 ∷ []) ∷ [])
      lines
    × (write_log latin latin ((104 ∷ 27 ∷ []) ∷ (105 ∷ []) ∷ []) (new 2) ≡ some b)
    × (drain 5 b 0 ≡ some (shown 2 (lines ++ closed_text ∷ []) 0, 3))
drain-write_log_example =
    drain-write_log latin latin 2 ((104 ∷ 27 ∷ []) ∷ (105 ∷ []) ∷ []) 0 5 (omega arith)
      (omega arith)
