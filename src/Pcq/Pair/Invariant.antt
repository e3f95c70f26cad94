-- ===== src/Pcq/Pair/Invariant.antt =====
-- What holds in every state that one producer and one consumer reach.
use proj_so.Prelude.{
  ℕ, suc, ◌+◌, ◌-◌, ◌%◌, ◌^◌, ◌≤◌, ◌<◌, ◌≡◌, refl, sym, ap, ap₂, ◌∙◌, inl, inr, List, [], ◌∷◌, ◌++◌,
  arith, Bool-cases, update,
}
use mathlib.Core.List.{append-nil, append_assoc}
use proj_so.Pcq.Queue.{
  PcQueue, Producer, Consumer, front, is_full, is_empty, producer_step, consumer_step,
}
use proj_so.Pcq.Ring.{items, items-cons, items-store, advance-mod}
use proj_so.Pcq.Pair.{Pair, pending, held, gives, produce, consume}

module _ {A : Type 0} where
  -- An element is stored and not counted yet, or taken and still counted.
  abbrev pub uncounted : Producer A → ℕ
  uncounted Producer.counting = 1
  uncounted _ = 0

  abbrev pub still_counted : Consumer A → ℕ
  still_counted (Consumer.counting elem) = 1
  still_counted _ = 0

  -- The thread has passed its test and not acted on it yet.
  abbrev pub about_to_store : Producer A → ℕ
  about_to_store (Producer.storing elem) = 1
  about_to_store _ = 0

  abbrev pub about_to_take : Consumer A → ℕ
  about_to_take Consumer.taking = 1
  about_to_take _ = 0

  -- `first` and `last` count the elements that were taken and stored.
  pub record Inv (s : Pair A) (first last : ℕ) : Type 0 where
    pub some_room : 0 < s.queue.pcq_capacity
    pub small : s.queue.pcq_capacity < 2 ^ 63
    pub head : s.queue.pcq_head ≡ first % s.queue.pcq_capacity
    pub tail : s.queue.pcq_tail ≡ last % s.queue.pcq_capacity
    pub size :
        s.queue.pcq_current_size + uncounted s.producer + first ≡ last + still_counted s.consumer
    pub room :
        last + about_to_store s.producer + still_counted s.consumer ≤ first + s.queue.pcq_capacity
    pub full : first + about_to_take s.consumer + uncounted s.producer ≤ last
    pub log :
        s.passed
        ≡ s.given
          ++ (held s.consumer
              ++ (items s.queue.pcq_capacity s.queue.pcq_buffer first (last - first)
                  ++ pending s.producer))

module _ {A : Type 0} (q : PcQueue A) (c : Consumer A) (ps gs : List A) where
  abbrev at_producer : Producer A → Pair A
  at_producer p = record { queue = q; producer = p; consumer = c; passed = ps; given = gs }

  -- A step that changes the producer's place alone.
  moved-Inv :
      (p p' : Producer A) (first last : ℕ)
      → Inv (at_producer p) first last
      → uncounted p' ≡ uncounted p
      → pending p' ≡ pending p
      → last + about_to_store p' + still_counted c ≤ first + q.pcq_capacity
      → Inv (at_producer p') first last
  moved-Inv p p' first last i same still room = record {
    some_room = i.some_room;
    small = i.small;
    head = i.head;
    tail = i.tail;
    size = omega (arith, i.size);
    room = room;
    full = omega (arith, i.full);
    log =
        i.log
        ∙ ap
            (λ (l : List A).
              gs ++ (held c ++ (items q.pcq_capacity q.pcq_buffer first (last - first) ++ l)))
            (sym still);
  }

  store-Inv :
      (elem : A) (first last : ℕ)
      → Inv (at_producer (Producer.storing elem)) first last
      → Inv (produce (at_producer (Producer.storing elem))) first (last + 1)
  unfolding producer_step
  store-Inv elem first last i =
      let cap : ℕ = q.pcq_capacity in
      let n : ℕ = last - first in
      let in_order : first ≤ last = omega (arith, i.full) in
      let place : q.pcq_tail ≡ (first + n) % cap = i.tail ∙ ap (λ (k : ℕ). k % cap) (omega arith) in
      let one_more : last + 1 - first ≡ suc n = omega arith in
      let grown : items cap (update q.pcq_buffer q.pcq_tail elem) first (suc n)
          ≡ items cap q.pcq_buffer first n ++ (elem ∷ []) =
        items-store cap q.pcq_buffer first n q.pcq_tail elem (omega (arith, i.room)) place in
      record {
        some_room = i.some_room;
        small = i.small;
        head = i.head;
        tail = advance-mod cap last q.pcq_tail i.some_room i.small i.tail;
        size = omega (arith, i.size);
        room = omega (arith, i.room);
        full = omega (arith, i.full);
        log =
            i.log
            ∙ ap (λ l. gs ++ (held c ++ l))
                (sym grown
                  ∙ ap (items cap (update q.pcq_buffer q.pcq_tail elem) first) (sym one_more)
                  ∙ sym (append-nil _));
      }

  count_up-Inv :
      (first last : ℕ)
      → Inv (at_producer Producer.counting) first last
      → Inv (produce (at_producer Producer.counting)) first last
  unfolding producer_step
  count_up-Inv first last i = record {
    some_room = i.some_room;
    small = i.small;
    head = i.head;
    tail = i.tail;
    size = omega (arith, i.size, i.room, i.small);
    room = omega (arith, i.room);
    full = omega (arith, i.full);
    log = i.log;
  }

  pub produce-Inv :
      (p : Producer A) (first last : ℕ)
      → Inv (at_producer p) first last
      → (last' : ℕ) × Inv (produce (at_producer p)) first last'
  unfolding producer_step
  produce-Inv (Producer.testing elem) first last i = (
    last,
    elim (Bool-cases (is_full q)) [
      | inl e ↦ rw e (
          moved-Inv (Producer.testing elem) (Producer.waiting elem) first last i refl refl
            (omega (arith, i.room)))
      | inr e ↦ rw e (
          moved-Inv (Producer.testing elem) (Producer.storing elem) first last i refl refl
            (ground (arith, i.room, i.size)))
    ],
  )
  produce-Inv (Producer.waiting elem) first last i = (
    last,
    moved-Inv (Producer.waiting elem) (Producer.testing elem) first last i refl refl
        (omega (arith, i.room)),
  )
  produce-Inv (Producer.storing elem) first last i = (last + 1, store-Inv elem first last i)
  produce-Inv Producer.counting first last i = (last, count_up-Inv first last i)
  produce-Inv Producer.signalling first last i = (
    last,
    moved-Inv Producer.signalling Producer.returned first last i refl refl (omega (arith, i.room)),
  )
  produce-Inv Producer.returned first last i = (
    last,
    moved-Inv Producer.returned Producer.returned first last i refl refl (omega (arith, i.room)),
  )

module _ {A : Type 0} (q : PcQueue A) (p : Producer A) (ps gs : List A) where
  abbrev at_consumer : Consumer A → Pair A
  at_consumer c = record { queue = q; producer = p; consumer = c; passed = ps; given = gs }

  waited-Inv :
      (c c' : Consumer A) (first last : ℕ)
      → Inv (at_consumer c) first last
      → still_counted c' ≡ still_counted c
      → first + about_to_take c' + uncounted p ≤ last
      → held c ≡ gives c c' ++ held c'
      → Inv (record (at_consumer c') { given = gs ++ gives c c' }) first last
  waited-Inv c c' first last i same full moved =
      let rest : List A = items q.pcq_capacity q.pcq_buffer first (last - first) ++ pending p in
      record {
        some_room = i.some_room;
        small = i.small;
        head = i.head;
        tail = i.tail;
        size = omega (arith, i.size);
        room = omega (arith, i.room);
        full = full;
        log =
            i.log
            ∙ ap (λ l. gs ++ (l ++ rest)) moved
            ∙ ap (λ l. gs ++ l) (append_assoc (gives c c') (held c') rest)
            ∙ sym (append_assoc gs (gives c c') (held c' ++ rest));
      }

  take-Inv :
      (first last : ℕ)
      → Inv (at_consumer Consumer.taking) first last
      → Inv (consume (at_consumer Consumer.taking)) (first + 1) last
  unfolding consumer_step
  take-Inv first last i =
      let cap : ℕ = q.pcq_capacity in
      let n : ℕ = last - first in
      let rest : List A = items cap q.pcq_buffer (first + 1) (last - (first + 1)) ++ pending p in
      let one_less : n - 1 ≡ last - (first + 1) = omega arith in
      let cut : items cap q.pcq_buffer first n
          ≡ front q ∷ items cap q.pcq_buffer (first + 1) (last - (first + 1)) =
        items-cons cap q.pcq_buffer first n (omega (arith, i.full))
        ∙ ap₂ ◌∷◌ (ap q.pcq_buffer (sym i.head))
            (ap (items cap q.pcq_buffer (first + 1)) one_less) in
      record {
        some_room = i.some_room;
        small = i.small;
        head = advance-mod cap first q.pcq_head i.some_room i.small i.head;
        tail = i.tail;
        size = omega (arith, i.size);
        room = omega (arith, i.room);
        full = omega (arith, i.full);
        log =
            i.log
            ∙ ap (λ l. gs ++ (l ++ pending p)) cut
            ∙ ap (λ l. l ++ (front q ∷ rest)) (sym (append-nil gs));
      }

  count_down-Inv :
      (elem : A) (first last : ℕ)
      → Inv (at_consumer (Consumer.counting elem)) first last
      → Inv (consume (at_consumer (Consumer.counting elem))) first last
  unfolding consumer_step
  count_down-Inv elem first last i = record {
    some_room = i.some_room;
    small = i.small;
    head = i.head;
    tail = i.tail;
    size = omega (arith, i.size, i.room, i.small, i.full);
    room = omega (arith, i.room);
    full = omega (arith, i.full);
    log =
        i.log
        ∙ ap
            (λ l.
              l ++ (elem ∷ (items q.pcq_capacity q.pcq_buffer first (last - first) ++ pending p)))
            (sym (append-nil gs));
  }

  pub consume-Inv :
      (c : Consumer A) (first last : ℕ)
      → Inv (at_consumer c) first last
      → (first' : ℕ) × Inv (consume (at_consumer c)) first' last
  unfolding consumer_step
  consume-Inv Consumer.testing first last i = (
    first,
    elim (Bool-cases (is_empty q)) [
      | inl e ↦ rw e (
          waited-Inv Consumer.testing Consumer.waiting first last i refl (omega (arith, i.full))
            refl)
      | inr e ↦ rw e (
          waited-Inv Consumer.testing Consumer.taking first last i refl
            (ground (arith, i.full, i.size)) refl)
    ],
  )
  consume-Inv Consumer.waiting first last i = (
    first,
    waited-Inv Consumer.waiting Consumer.testing first last i refl (omega (arith, i.full)) refl,
  )
  consume-Inv Consumer.taking first last i = (first + 1, take-Inv first last i)
  consume-Inv (Consumer.counting elem) first last i = (first, count_down-Inv elem first last i)
  consume-Inv (Consumer.signalling elem) first last i = (
    first,
    waited-Inv (Consumer.signalling elem) (Consumer.returned elem) first last i refl
        (omega (arith, i.full)) refl,
  )
  consume-Inv (Consumer.returned elem) first last i = (
    first,
    waited-Inv (Consumer.returned elem) (Consumer.returned elem) first last i refl
        (omega (arith, i.full)) refl,
  )
