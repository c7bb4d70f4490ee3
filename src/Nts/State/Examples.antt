-- ===== src/Nts/State/Examples.antt =====
-- The cookies of `NtsState` at concrete inputs.
use ntpsec_rs.Prelude.{◌≡◌, refl, List, [], ◌∷◌, arith}
use ntpsec_rs.Nts.State.{new, add_cookie, pop_from, pop_cookie, cookie_count}
use ntpsec_rs.Nts.State.Fifo.{Call, add, pop, run, hand_out, admitted, IsFifo, run-IsFifo}

abbrev calls : List Call
calls =
    add (1 ∷ 2 ∷ [])
    ∷ add (3 ∷ [])
    ∷ pop
    ∷ add (4 ∷ [])
    ∷ add (5 ∷ [])
    ∷ add (6 ∷ [])
    ∷ add (7 ∷ [])
    ∷ add (8 ∷ [])
    ∷ add (9 ∷ [])
    ∷ add (10 ∷ [])
    ∷ add (11 ∷ [])
    ∷ pop
    ∷ []

-- The cookie that comes while eight are held is dropped.
last_dropped :
    admitted 0 calls
    ≡ (1 ∷ 2 ∷ [])
      ∷ (3 ∷ [])
      ∷ (4 ∷ [])
      ∷ (5 ∷ [])
      ∷ (6 ∷ [])
      ∷ (7 ∷ [])
      ∷ (8 ∷ [])
      ∷ (9 ∷ [])
      ∷ (10 ∷ [])
      ∷ []
unfolding admitted
last_dropped = refl

handed_out : (run calls new).0 ≡ (1 ∷ 2 ∷ []) ∷ (3 ∷ []) ∷ []
unfolding run add_cookie pop_cookie pop_from hand_out
handed_out = refl

run-IsFifo_example : IsFifo calls new (run calls new)
unfolding cookie_count
run-IsFifo_example = run-IsFifo calls new (omega arith)
