-- ===== src/Bqueue/Tests.antt =====
-- The linked queue (bqueue) on a few values.
use go_phat.Prelude.{◌≡◌, refl, some, List, [], ◌∷◌, arith}
use go_phat.Bqueue.{new_store, push_value, peek}
use go_phat.Bqueue.Fifo.{
  Op, push_op, pop_op, len_op, run, run_list, no_answer, value_answer, len_answer, run-run_list,
}

abbrev ops : List Op
ops =
    push_op "cat" ∷ len_op ∷ push_op "meow" ∷ pop_op ∷ pop_op ∷ pop_op ∷ push_op "dog" ∷ pop_op ∷ []

-- The values come in the order in which they were pushed.
in_order :
    run_list ops []
    ≡ no_answer
      ∷ len_answer 1
      ∷ no_answer
      ∷ value_answer "cat"
      ∷ value_answer "meow"
      ∷ no_answer
      ∷ no_answer
      ∷ value_answer "dog"
      ∷ []
in_order = refl

peeks : peek (push_value "cat" new_store) ≡ some "cat"
unfolding peek push_value
peeks = refl

run-run_list_example : run ops new_store ≡ run_list ops []
run-run_list_example = run-run_list ops new_store [] (omega arith) (refl, refl, refl)
