-- ===== src/Pcq/Race.antt =====
-- Several consumers over one queue, as the sessions of mbroker/mbroker.c are: the test of
-- pcq_dequeue and its removal of an element are two critical sections, under two mutexes.
use proj_so.Prelude.{
  ◌+◌, ◌-◌, ◌%◌, ◌^◌, ◌<◌, ◌≡◌, refl, Bool, true, false, List, [], ◌∷◌, arith, ◌==◌, add_size,
}
use proj_so.Pcq.Queue.{PcQueue, Consumer, consumer_step}

-- Two consumers; a schedule says whose step is next, `true` for the first.
pub record Consumers (A : Type 0) : Type 0 where
  pub queue : PcQueue A
  pub one : Consumer A
  pub two : Consumer A

-- Both threads test before either removes.
abbrev pub both_test_first : List Bool
both_test_first = true ∷ false ∷ true ∷ false ∷ true ∷ false ∷ true ∷ false ∷ []

module _ {A : Type 0} where
  pub step_of : Bool → Consumers A → Consumers A
  step_of true s = let (q, c) = consumer_step s.queue s.one in record s { queue = q; one = c }
  step_of false s = let (q, c) = consumer_step s.queue s.two in record s { queue = q; two = c }

  pub run : List Bool → Consumers A → Consumers A
  run [] s = s
  run (turn ∷ turns) s = run turns (step_of turn s)

  abbrev pub both_testing : PcQueue A → Consumers A
  both_testing q = record { queue = q; one = Consumer.testing; two = Consumer.testing }

  -- Of a queue with exactly one element, two consumers that both test before either removes both
  -- return: the first with the element, the second with what stands in the slot behind it; and the
  -- counter of elements ends at 2 ^ 64 - 1.
  pub two_consumers_underflow :
      (q : PcQueue A)
      → q.pcq_current_size ≡ 1
      → q.pcq_head < 2 ^ 63
      → ((run both_test_first (both_testing q)).one ≡ Consumer.returned (q.pcq_buffer q.pcq_head))
        × ((run both_test_first (both_testing q)).two
            ≡ Consumer.returned (q.pcq_buffer ((q.pcq_head + 1) % q.pcq_capacity)))
        × ((run both_test_first (both_testing q)).queue.pcq_current_size ≡ 2 ^ 64 - 1)
  unfolding run step_of consumer_step
  two_consumers_underflow q one small =
      let e : (q.pcq_current_size == 0) ≡ false = ground arith in
      let behind : add_size q.pcq_head 1 ≡ q.pcq_head + 1 = omega arith in
      rw (e, one, behind) (refl, refl, refl)
