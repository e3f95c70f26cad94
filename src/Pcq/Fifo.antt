-- ===== src/Pcq/Fifo.antt =====
-- What one producer and one consumer can rely on.
use proj_so.Prelude.{
  ℕ, ◌-◌, ◌^◌, ◌≤◌, ◌<◌, ◌≡◌, refl, sym, ap, ◌∙◌, List, [], ◌∷◌, ◌++◌, append_assoc, arith,
}
use proj_so.Pcq.Queue.{PcQueue, Producer, Consumer, producer_step, consumer_step}
use proj_so.Pcq.Ring.{items, items-nil, length-items}
use proj_so.Prelude.{length}
use proj_so.Pcq.Pair.{
  Pair, Step, produces, consumes, enqueues, dequeues, start, Reach, here, next, pending, held,
}
use proj_so.Pcq.Pair.Invariant.{
  Inv, uncounted, still_counted, about_to_store, about_to_take, produce-Inv, consume-Inv,
}

module _ {A : Type 0} where
  -- The invariant for some counts of stored and taken elements.
  abbrev Holds : Pair A → Type 0
  Holds s = (first : ℕ) × (last : ℕ) × Inv s first last

  Inv-start :
      (buffer : ℕ → A) (capacity : ℕ) (elem : A)
      → 0 < capacity
      → capacity < 2 ^ 63
      → Inv (start buffer capacity elem) 0 0
  Inv-start buffer capacity elem p q = record {
    some_room = p;
    small = q;
    head = omega arith;
    tail = omega arith;
    size = omega arith;
    room = omega arith;
    full = omega arith;
    log = ap (λ l. l ++ (elem ∷ [])) (sym (items-nil capacity buffer 0));
  }

  -- The next call begins where the last one has returned.
  enqueues-Inv :
      (s : Pair A) (elem : A) (first last : ℕ)
      → s.producer ≡ Producer.returned
      → Inv s first last
      → Inv
          (record s { producer = Producer.testing elem; passed = s.passed ++ (elem ∷ []) })
          first
          last
  enqueues-Inv s elem first last e i =
      let now : List A = items s.queue.pcq_capacity s.queue.pcq_buffer first (last - first) in
      record {
        some_room = i.some_room;
        small = i.small;
        head = i.head;
        tail = i.tail;
        size = omega (arith, i.size, ap uncounted e);
        room = omega (arith, i.room, ap about_to_store e);
        full = omega (arith, i.full, ap uncounted e);
        log =
            ap (λ l. l ++ (elem ∷ []))
              (i.log ∙ ap (λ l. s.given ++ (held s.consumer ++ (now ++ l))) (ap pending e))
            ∙ append_assoc s.given (held s.consumer ++ (now ++ [])) (elem ∷ [])
            ∙ ap (λ l. s.given ++ l) (append_assoc (held s.consumer) (now ++ []) (elem ∷ []))
            ∙ ap (λ l. s.given ++ (held s.consumer ++ l)) (append_assoc now [] (elem ∷ []));
      }

  dequeues-Inv :
      (s : Pair A) (elem : A) (first last : ℕ)
      → s.consumer ≡ Consumer.returned elem
      → Inv s first last
      → Inv (record s { consumer = Consumer.testing }) first last
  dequeues-Inv s elem first last e i = record {
    some_room = i.some_room;
    small = i.small;
    head = i.head;
    tail = i.tail;
    size = omega (arith, i.size, ap still_counted e);
    room = omega (arith, i.room, ap still_counted e);
    full = omega (arith, i.full, ap about_to_take e);
    log =
        i.log
        ∙ ap
            (λ l.
              s.given
              ++ (l
                  ++ (items s.queue.pcq_capacity s.queue.pcq_buffer first (last - first)
                      ++ pending s.producer)))
            (ap held e);
  }

  producer_step-capacity :
      (q : PcQueue A) (p : Producer A) → (producer_step q p).0.pcq_capacity ≡ q.pcq_capacity
  unfolding producer_step
  producer_step-capacity q (Producer.testing elem) = refl
  producer_step-capacity q p = refl

  consumer_step-capacity :
      (q : PcQueue A) (c : Consumer A) → (consumer_step q c).0.pcq_capacity ≡ q.pcq_capacity
  unfolding consumer_step
  consumer_step-capacity q Consumer.testing = refl
  consumer_step-capacity q c = refl

  Step-capacity : {s t : Pair A} → Step s t → t.queue.pcq_capacity ≡ s.queue.pcq_capacity
  Step-capacity (produces s) = producer_step-capacity s.queue s.producer
  Step-capacity (consumes s) = consumer_step-capacity s.queue s.consumer
  Step-capacity (enqueues s elem e) = refl
  Step-capacity (dequeues s elem e) = refl

  Step-Holds : {s t : Pair A} → Step s t → Holds s → Holds t
  Step-Holds (produces s) (first, last, i) =
      let (last', j) = produce-Inv s.queue s.consumer s.passed s.given s.producer first last i in
      (first, last', j)
  Step-Holds (consumes s) (first, last, i) =
      let (first', j) = consume-Inv s.queue s.producer s.passed s.given s.consumer first last i in
      (first', last, j)
  Step-Holds (enqueues s elem e) (first, last, i) =
      (first, last, enqueues-Inv s elem first last e i)
  Step-Holds (dequeues s elem e) (first, last, i) =
      (first, last, dequeues-Inv s elem first last e i)

  Reach-Holds :
      (buffer : ℕ → A) (capacity : ℕ) (elem : A) {s : Pair A}
      → 0 < capacity
      → capacity < 2 ^ 63
      → Reach (start buffer capacity elem) s
      → Holds s
  Reach-Holds buffer capacity elem p q here = (0, 0, Inv-start buffer capacity elem p q)
  Reach-Holds buffer capacity elem p q (next r st) =
      Step-Holds st (Reach-Holds buffer capacity elem p q r)

  Reach-capacity :
      (buffer : ℕ → A) (capacity : ℕ) (elem : A) {s : Pair A}
      → Reach (start buffer capacity elem) s
      → s.queue.pcq_capacity ≡ capacity
  Reach-capacity buffer capacity elem here = refl
  Reach-capacity buffer capacity elem (next r st) =
      Step-capacity st ∙ Reach-capacity buffer capacity elem r

  -- With one producer and one consumer, in any interleaving of their steps, the elements that
  -- pcq_enqueue was called with are, in the same order, those that pcq_dequeue has returned, then the
  -- one that a call of it has taken and not returned yet, if any, then those in the queue, and then the
  -- one that pcq_enqueue has not stored yet, if any; those in the queue are at most as many as the
  -- capacity, and the counter of elements never exceeds the capacity.
  pub pair_is_fifo :
      (buffer : ℕ → A) (capacity : ℕ) (elem : A) {s : Pair A}
      → 0 < capacity
      → capacity < 2 ^ 63
      → Reach (start buffer capacity elem) s
      → (rest : List A) × (s.passed ≡ s.given ++ (held s.consumer ++ (rest ++ pending s.producer)))
        × (length rest ≤ capacity)
        × (s.queue.pcq_current_size ≤ capacity)
  pair_is_fifo buffer capacity elem {s} p q r =
      let (first, last, i) = Reach-Holds buffer capacity elem p q r in
      let same = Reach-capacity buffer capacity elem r in
      (
        items s.queue.pcq_capacity s.queue.pcq_buffer first (last - first),
        i.log,
        omega (
          arith,
          length-items s.queue.pcq_capacity s.queue.pcq_buffer first (last - first),
          i.room,
        ),
        omega (arith, i.size, i.room),
      )
