-- ===== src/Pcq/Tests.antt =====
-- Applications of the theorems on the queue to small queues.
use proj_so.Prelude.{
  ℕ, ◌-◌, ◌+◌, ◌^◌, ◌≤◌, ◌≡◌, refl, true, List, [], ◌∷◌, ◌++◌, length, pos, minus_one, arith,
  if◌then◌else◌,
}
use proj_so.Pcq.Queue.{PcQueue, Consumer, producer_step, consumer_step}
use proj_so.Pcq.Create.{
  Answers, nothing, everything, all_succeed, pcq_create, pcq_destroy, pcq_create_all_or_nothing,
}
use proj_so.Pcq.Pair.{Pair, produces, consumes, start, here, next, pending, held, produce, consume}
use proj_so.Pcq.Fifo.{pair_is_fifo}
use proj_so.Pcq.Race.{both_test_first, both_testing, run, two_consumers_underflow}

-- A queue with room for two, in which a producer has stored 5 and a consumer has returned it.
abbrev before : Pair ℕ
before = start (λ _. 0) 2 5

abbrev stored : Pair ℕ
stored = produce (produce (produce before))

abbrev after : Pair ℕ
after = consume (consume (consume (consume stored)))

returns_five : after.given ≡ 5 ∷ []
unfolding consumer_step producer_step
returns_five = refl

-- A call in which the third mutex cannot be initialised.
abbrev one_fails : Answers
one_fails = record {
  memory = true;
  current_size_lock = pos 0;
  head_lock = pos 0;
  tail_lock = pos 12;
  pusher_condvar_lock = pos 0;
  popper_condvar_lock = pos 0;
  pusher_condvar = pos 0;
  popper_condvar = pos 0;
}

abbrev one_element : PcQueue ℕ
one_element = record {
  pcq_buffer = λ i. i + 7;
  pcq_capacity = 4;
  pcq_current_size = 1;
  pcq_head = 3;
  pcq_tail = 0;
}

pair_is_fifo_example :
    (rest : List ℕ) × (after.passed
      ≡ after.given ++ (held after.consumer ++ (rest ++ pending after.producer)))
    × (length rest ≤ 2)
    × (after.queue.pcq_current_size ≤ 2)
pair_is_fifo_example =
    pair_is_fifo (λ _. 0) 2 5 (omega arith) (omega arith)
      (next
        (next
          (next
            (next
              (next (next (next here (produces before)) (produces (produce before)))
                (produces (produce (produce before))))
              (consumes stored))
            (consumes (consume stored)))
          (consumes (consume (consume stored))))
        (consumes (consume (consume (consume stored)))))

pcq_create_all_or_nothing_example :
    ((pcq_create 2 (λ _. 0) one_fails nothing one_element).0
      ≡ (if all_succeed 2 one_fails then (pos 0, everything) else (minus_one, nothing)))
    × ((pcq_destroy (pcq_create 2 (λ _. 0) one_fails nothing one_element).0.1).1 ≡ nothing)
pcq_create_all_or_nothing_example = pcq_create_all_or_nothing 2 (λ _. 0) one_fails one_element

two_consumers_underflow_example :
    ((run both_test_first (both_testing one_element)).one ≡ Consumer.returned 10)
    × ((run both_test_first (both_testing one_element)).two ≡ Consumer.returned 7)
    × ((run both_test_first (both_testing one_element)).queue.pcq_current_size ≡ 2 ^ 64 - 1)
two_consumers_underflow_example = two_consumers_underflow one_element refl (omega arith)
