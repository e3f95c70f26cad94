-- ===== src/Pcq/Create.antt =====
-- pcq_create and pcq_destroy: which resources the queue holds when they return.
use proj_so.Prelude.{
  refl, ℕ, ◌≡◌, Bool, true, false, not, ◌&&◌, ◌==◌, if◌then◌else◌, arith, ℤ, pos, minus_one,
  is_zero,
}
use proj_so.Pcq.Queue.{PcQueue}
use proj_so.Pcq.Pair.{start}

-- What the queue has: the allocated buffer, and the mutexes and condition variables that are
-- initialised.
pub record Resources : Type 0 where
  pub buffer : Bool
  pub current_size_lock : Bool
  pub head_lock : Bool
  pub tail_lock : Bool
  pub pusher_condvar_lock : Bool
  pub popper_condvar_lock : Bool
  pub pusher_condvar : Bool
  pub popper_condvar : Bool

abbrev pub nothing : Resources
nothing = record {
  buffer = false;
  current_size_lock = false;
  head_lock = false;
  tail_lock = false;
  pusher_condvar_lock = false;
  popper_condvar_lock = false;
  pusher_condvar = false;
  popper_condvar = false;
}

-- What malloc and the calls of pthread_mutex_init and pthread_cond_init answer: whether there is
-- memory, and the code of each call.
pub record Answers : Type 0 where
  pub memory : Bool
  pub current_size_lock : ℤ
  pub head_lock : ℤ
  pub tail_lock : ℤ
  pub pusher_condvar_lock : ℤ
  pub popper_condvar_lock : ℤ
  pub pusher_condvar : ℤ
  pub popper_condvar : ℤ

-- The steps of pcq_create from its last test backwards; each failure releases what is there.
abbrev init_popper_condvar : Answers → Resources → ℤ × Resources
init_popper_condvar a r =
    if not (is_zero a.popper_condvar)
    then (
      minus_one,
      record r {
        buffer = false;
        current_size_lock = false;
        head_lock = false;
        tail_lock = false;
        pusher_condvar_lock = false;
        popper_condvar_lock = false;
        pusher_condvar = false;
      },
    )
    else (pos 0, record r { popper_condvar = true })

abbrev init_pusher_condvar : Answers → Resources → ℤ × Resources
init_pusher_condvar a r =
    if not (is_zero a.pusher_condvar)
    then (
      minus_one,
      record r {
        buffer = false;
        current_size_lock = false;
        head_lock = false;
        tail_lock = false;
        pusher_condvar_lock = false;
        popper_condvar_lock = false;
      },
    )
    else init_popper_condvar a (record r { pusher_condvar = true })

abbrev init_popper_condvar_lock : Answers → Resources → ℤ × Resources
init_popper_condvar_lock a r =
    if not (is_zero a.popper_condvar_lock)
    then (
      minus_one,
      record r {
        buffer = false;
        current_size_lock = false;
        head_lock = false;
        tail_lock = false;
        pusher_condvar_lock = false;
      },
    )
    else init_pusher_condvar a (record r { popper_condvar_lock = true })

abbrev init_pusher_condvar_lock : Answers → Resources → ℤ × Resources
init_pusher_condvar_lock a r =
    if not (is_zero a.pusher_condvar_lock)
    then (
      minus_one,
      record r { buffer = false; current_size_lock = false; head_lock = false; tail_lock = false },
    )
    else init_popper_condvar_lock a (record r { pusher_condvar_lock = true })

abbrev init_tail_lock : Answers → Resources → ℤ × Resources
init_tail_lock a r =
    if not (is_zero a.tail_lock)
    then (minus_one, record r { buffer = false; current_size_lock = false; head_lock = false })
    else init_pusher_condvar_lock a (record r { tail_lock = true })

abbrev init_head_lock : Answers → Resources → ℤ × Resources
init_head_lock a r =
    if not (is_zero a.head_lock)
    then (minus_one, record r { buffer = false; current_size_lock = false })
    else init_tail_lock a (record r { head_lock = true })

abbrev init_current_size_lock : Answers → Resources → ℤ × Resources
init_current_size_lock a r =
    if not (is_zero a.current_size_lock)
    then (minus_one, record r { buffer = false })
    else init_head_lock a (record r { current_size_lock = true })

-- What pcq_create writes into the queue before it calls malloc.
abbrev pub emptied : {A : Type 0} → ℕ → PcQueue A → PcQueue A
emptied capacity q = record q {
  pcq_capacity = capacity;
  pcq_current_size = 0;
  pcq_head = 0;
  pcq_tail = 0;
}

-- The code, the resources and the fields that pcq_create leaves; `memory` is what malloc provides.
pub pcq_create :
    {A : Type 0} → ℕ → (ℕ → A) → Answers → Resources → PcQueue A → (ℤ × Resources) × PcQueue A
pcq_create capacity memory a r q =
    if capacity == 0
    then ((minus_one, r), q)
    else if not a.memory
    then ((minus_one, r), emptied capacity q)
    else (
      init_current_size_lock a (record r { buffer = true }),
      record (emptied capacity q) { pcq_buffer = memory },
    )

pub pcq_destroy : Resources → ℤ × Resources
pcq_destroy r = (
  pos 0,
  record r {
    buffer = false;
    current_size_lock = false;
    head_lock = false;
    tail_lock = false;
    pusher_condvar_lock = false;
    popper_condvar_lock = false;
    pusher_condvar = false;
    popper_condvar = false;
  },
)

abbrev pub everything : Resources
everything = record {
  buffer = true;
  current_size_lock = true;
  head_lock = true;
  tail_lock = true;
  pusher_condvar_lock = true;
  popper_condvar_lock = true;
  pusher_condvar = true;
  popper_condvar = true;
}

-- The calls that pcq_create makes all succeed.
abbrev pub all_succeed : ℕ → Answers → Bool
all_succeed capacity a =
    not (capacity == 0)
    && a.memory
    && is_zero a.current_size_lock
    && is_zero a.head_lock
    && is_zero a.tail_lock
    && is_zero a.pusher_condvar_lock
    && is_zero a.popper_condvar_lock
    && is_zero a.pusher_condvar
    && is_zero a.popper_condvar

-- pcq_create of a queue that holds nothing returns 0 with every resource of the queue exactly if the
-- capacity is not 0 and every call succeeds, and pcq_destroy then releases them all; otherwise it
-- returns -1 and has released whatever it had got.
pub pcq_create_all_or_nothing :
    {A : Type 0} (capacity : ℕ) (memory : ℕ → A) (a : Answers) (q : PcQueue A)
    → ((pcq_create capacity memory a nothing q).0
        ≡ (if all_succeed capacity a then (pos 0, everything) else (minus_one, nothing)))
      × ((pcq_destroy (pcq_create capacity memory a nothing q).0.1).1 ≡ nothing)
unfolding pcq_create pcq_destroy
pcq_create_all_or_nothing capacity memory a q = ground arith

-- When every call succeeds, the queue is empty over the new memory: the one from which a producer
-- and a consumer start.
pub pcq_create-start :
    {A : Type 0} (capacity : ℕ) (memory : ℕ → A) (a : Answers) (q : PcQueue A) (elem : A)
    → all_succeed capacity a ≡ true
    → (pcq_create capacity memory a nothing q).1 ≡ (start memory capacity elem).queue
unfolding pcq_create
pcq_create-start capacity memory a q elem all =
    let some_room : (capacity == 0) ≡ false = ground arith in
    let allocated : a.memory ≡ true = ground arith in rw (some_room, allocated) refl
