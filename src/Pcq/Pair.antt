-- ===== src/Pcq/Pair.antt =====
-- One producer and one consumer over a queue, interleaved in any order.
pub mod Invariant
use proj_so.Prelude.{ℕ, ◌+◌, ◌%◌, ◌^◌, ◌≤◌, ◌<◌, ◌≡◌, List, [], ◌∷◌, ◌++◌, Bool, true, false}
use proj_so.Pcq.Queue.{PcQueue, Producer, Consumer, producer_step, consumer_step}

-- `passed` are the elements that pcq_enqueue was called with, and `given` those that pcq_dequeue has
-- returned, in order.
pub record Pair (A : Type 0) : Type 0 where
  pub queue : PcQueue A
  pub producer : Producer A
  pub consumer : Consumer A
  pub passed : List A
  pub given : List A

module _ {A : Type 0} where
  -- The element of a call of pcq_enqueue that is not stored yet.
  abbrev pub pending : Producer A → List A
  pending (Producer.testing elem) = elem ∷ []
  pending (Producer.waiting elem) = elem ∷ []
  pending (Producer.storing elem) = elem ∷ []
  pending _ = []

  -- The element that a call of pcq_dequeue has taken and not returned yet.
  abbrev pub held : Consumer A → List A
  held (Consumer.counting elem) = elem ∷ []
  held (Consumer.signalling elem) = elem ∷ []
  held _ = []

  -- What a step of pcq_dequeue returns, from where the thread stands behind it.
  abbrev pub result : Consumer A → List A
  result (Consumer.returned elem) = elem ∷ []
  result _ = []

  -- A thread whose call has returned takes no step.
  abbrev pub gives : Consumer A → Consumer A → List A
  gives (Consumer.returned elem) c = []
  gives _ c = result c

  abbrev pub produce : Pair A → Pair A
  produce s = let (q, p) = producer_step s.queue s.producer in record s { queue = q; producer = p }

  abbrev pub consume : Pair A → Pair A
  consume s =
      let (q, c) = consumer_step s.queue s.consumer in
      record s { queue = q; consumer = c; given = s.given ++ gives s.consumer c }

  -- A step of a thread inside its call, or the next call of a thread whose call has returned.
  pub data Step : Pair A → Pair A → Type 0 where
    produces : (s : Pair A) → Step s (produce s)
    consumes : (s : Pair A) → Step s (consume s)
    enqueues :
        (s : Pair A) (elem : A)
        → s.producer ≡ Producer.returned
        → Step s (record s { producer = Producer.testing elem; passed = s.passed ++ (elem ∷ []) })
    dequeues :
        (s : Pair A) (elem : A)
        → s.consumer ≡ Consumer.returned elem
        → Step s (record s { consumer = Consumer.testing })

  -- What pcq_create leaves, with buffer memory of any contents, and a thread at the start of a call
  -- on each side.
  abbrev pub start : (ℕ → A) → ℕ → A → Pair A
  start buffer capacity elem = record {
    queue = record {
      pcq_buffer = buffer;
      pcq_capacity = capacity;
      pcq_current_size = 0;
      pcq_head = 0;
      pcq_tail = 0;
    };
    producer = Producer.testing elem;
    consumer = Consumer.testing;
    passed = elem ∷ [];
    given = [];
  }

  pub data Reach (s : Pair A) : Pair A → Type 0 where
    here : Reach s s
    next : {t u : Pair A} → Reach s t → Step t u → Reach s u
