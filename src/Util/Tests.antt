-- ===== src/Util/Tests.antt =====
-- Runs of the containers, and the theorems at them.
use sc_code.Common.{ℕ, ◌≡◌, refl, List, [], ◌∷◌, ok, arith}
use sc_code.Util.FixedVector
use sc_code.Util.FixedVector.{FixedVector, Call, push_call, pop_call}

abbrev two_slots : FixedVector ℕ
two_slots = record { arr = 0 ∷ 0 ∷ []; free_index = 0 }

abbrev calls : List (Call ℕ)
calls = push_call 7 ∷ push_call 8 ∷ pop_call ∷ push_call 9 ∷ []

run_runs :
    FixedVector.run calls two_slots [] ≡ ok (record { arr = 7 ∷ 9 ∷ []; free_index = 2 }, 8 ∷ [])
unfolding FixedVector.run
run_runs = refl

run_refines_stack_example :
    FixedVector.view (FixedVector.run calls two_slots []) ≡ ok (9 ∷ 7 ∷ [], 8 ∷ [])
unfolding FixedVector.run_stack FixedVector.stack_of
run_refines_stack_example = FixedVector.run_refines_stack calls two_slots [] (omega arith)
