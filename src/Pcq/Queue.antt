-- ===== src/Pcq/Queue.antt =====
-- The queue of producer-consumer/producer-consumer.h, and pcq_enqueue and pcq_dequeue as the steps
-- that they take: each step is one critical section, under the mutex that the code holds there. The
-- elements are pointers that the queue only moves, so their type is a parameter.
use proj_so.Prelude.{ℕ, ◌%◌, Bool, ◌==◌, if◌then◌else◌, update, add_size, sub_size}

-- pc_queue_t, less its mutexes and condition variables, which the steps stand for.
pub record PcQueue (A : Type 0) : Type 0 where
  pub pcq_buffer : ℕ → A
  pub pcq_capacity : ℕ
  pub pcq_current_size : ℕ
  pub pcq_head : ℕ
  pub pcq_tail : ℕ

-- Where a thread stands in pcq_enqueue. `waiting` is the sleep in pthread_cond_wait, which a signal
-- or a spurious wakeup ends; it then tests again.
pub data Producer (A : Type 0) : Type 0 where
  testing : A → Producer A
  waiting : A → Producer A
  storing : A → Producer A
  counting : Producer A
  signalling : Producer A
  returned : Producer A

-- Where a thread stands in pcq_dequeue; it carries the element from the read on.
pub data Consumer (A : Type 0) : Type 0 where
  testing : Consumer A
  waiting : Consumer A
  taking : Consumer A
  counting : A → Consumer A
  signalling : A → Consumer A
  returned : A → Consumer A

module _ {A : Type 0} where
  -- `buffer[tail] = elem; tail = (tail + 1) % capacity;` under pcq_tail_lock
  unfoldable pub store : A → PcQueue A → PcQueue A
  store elem q = record q {
    pcq_buffer = update q.pcq_buffer q.pcq_tail elem;
    pcq_tail = add_size q.pcq_tail 1 % q.pcq_capacity;
  }

  -- `elem = buffer[head]; head = (head + 1) % capacity;` under pcq_head_lock
  unfoldable pub front : PcQueue A → A
  front q = q.pcq_buffer q.pcq_head

  unfoldable pub drop_front : PcQueue A → PcQueue A
  drop_front q = record q { pcq_head = add_size q.pcq_head 1 % q.pcq_capacity }

  -- `current_size++` and `current_size--` under pcq_current_size_lock
  unfoldable pub count_up : PcQueue A → PcQueue A
  count_up q = record q { pcq_current_size = add_size q.pcq_current_size 1 }

  unfoldable pub count_down : PcQueue A → PcQueue A
  count_down q = record q { pcq_current_size = sub_size q.pcq_current_size 1 }

  abbrev pub is_full : PcQueue A → Bool
  is_full q = q.pcq_current_size == q.pcq_capacity

  abbrev pub is_empty : PcQueue A → Bool
  is_empty q = q.pcq_current_size == 0

  -- One step of pcq_enqueue.
  unfoldable pub producer_step : PcQueue A → Producer A → PcQueue A × Producer A
  unfolding store count_up
  producer_step q (Producer.testing elem) =
      (q, if is_full q then Producer.waiting elem else Producer.storing elem)
  producer_step q (Producer.waiting elem) = (q, Producer.testing elem)
  producer_step q (Producer.storing elem) = (store elem q, Producer.counting)
  producer_step q Producer.counting = (count_up q, Producer.signalling)
  producer_step q Producer.signalling = (q, Producer.returned)
  producer_step q Producer.returned = (q, Producer.returned)

  -- One step of pcq_dequeue.
  unfoldable pub consumer_step : PcQueue A → Consumer A → PcQueue A × Consumer A
  unfolding front drop_front count_down
  consumer_step q Consumer.testing = (q, if is_empty q then Consumer.waiting else Consumer.taking)
  consumer_step q Consumer.waiting = (q, Consumer.testing)
  consumer_step q Consumer.taking = (drop_front q, Consumer.counting (front q))
  consumer_step q (Consumer.counting elem) = (count_down q, Consumer.signalling elem)
  consumer_step q (Consumer.signalling elem) = (q, Consumer.returned elem)
  consumer_step q (Consumer.returned elem) = (q, Consumer.returned elem)
