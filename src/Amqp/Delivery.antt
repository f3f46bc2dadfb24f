-- ===== src/Amqp/Delivery.antt =====
-- What the listener and the workers of app/amqp/amqp_interface.py keep, in whatever order their steps
-- come: bounds, order, and no message that is lost or taken twice.
use svp_harvester.Amqp.Listening.{
  start, disconnects, next, takes, listens, finishes, arrives, Reach, Step, Phase, deciding, asking,
  putting, Received, timed_out, answered, Settings, Interface, connected, arrive, full, reaches,
  listen_to_messages, take_task, finish, Step, Reach, arrives, next, listens, finishes,
}
use mathlib.Core.List.{Permᴰ}
use mathlib.Core.List.Permᴰ
use svp_harvester.Prelude.{
  zero, ℕ, suc, zero, ◌≤◌, ◌<◌, Bool, true, false, List, [], ◌∷◌, ◌++◌, length, ◌≡◌, refl, arith,
  length-append, append_assoc, ap, ◌∙◌, if◌then◌else◌, subst,
}

-- The message that the listener has in hand.
abbrev pub in_hand : {Message : Type 0} → Phase Message → List Message
in_hand deciding = []
in_hand asking = []
in_hand (putting m) = m ∷ []

-- There is room for one more task once the listener asks for a message.
abbrev pub HasRoom : {Message : Type 0} → ℕ → Phase Message → ℕ → Type 0
HasRoom size deciding n = n ≤ size
HasRoom size asking n = n < size
HasRoom size (putting m) n = n < size

append_last :
    {A : Type 0} (a b c d e : List A) → a ++ (b ++ (c ++ (d ++ e))) ≡ (a ++ (b ++ (c ++ d))) ++ e
append_last a b c d e =
    rw (append_assoc a (b ++ (c ++ d)) e, append_assoc b (c ++ d) e, append_assoc c d e) refl

room_of_not-full :
    {Message : Type 0} (size : ℕ) (tasks : List Message)
    → 0 < size
    → full size tasks ≡ false
    → length tasks < size
room_of_not-full zero tasks h e = absurd (omega arith)
room_of_not-full (suc size) tasks h e = ground arith

below_of_not-reaches :
    {Message : Type 0} (limit : ℕ) (ms : List Message)
    → reaches limit ms ≡ false
    → length ms < limit
below_of_not-reaches limit ms e = ground arith

module _ {Message : Type 0} (settings : Settings) where
  pub record IsSound (i : Interface Message) : Type 0 where
    pub room : HasRoom settings.inner_task_queue_length i.phase (length i.inner_tasks_queue)
    pub workers : length i.processing ≤ settings.inner_task_parallelism_limit
    pub in_order :
        i.started ++ (i.inner_tasks_queue ++ (in_hand i.phase ++ i.pika_queue)) ≡ i.arrived
    pub accounted : Permᴰ i.started (i.processing ++ i.processed)

  module _ (bounded : 0 < settings.inner_task_queue_length) where
    connected-IsSound : IsSound connected
    connected-IsSound = record {
      room = omega arith;
      workers = omega arith;
      in_order = refl;
      accounted = Permᴰ.nil;
    }

    arrive-IsSound : (m : Message) (i : Interface Message) → IsSound i → IsSound (arrive m i)
    arrive-IsSound m i s = record {
      room = s.room;
      workers = s.workers;
      in_order =
          append_last i.started i.inner_tasks_queue (in_hand i.phase) i.pika_queue (m ∷ [])
          ∙ ap (λ l. l ++ m ∷ []) s.in_order;
      accounted = s.accounted;
    }

    module _ (tasks processing processed arrived started : List Message)
        (amqp_disconnected : Bool) where
      abbrev state : List Message → Phase Message → Interface Message
      state pika_queue phase = record {
        pika_queue = pika_queue;
        phase = phase;
        amqp_disconnected = amqp_disconnected;
        inner_tasks_queue = tasks;
        processing = processing;
        processed = processed;
        arrived = arrived;
        started = started;
      }

      decide-IsSound :
          (is_full disconnected : Bool) (pika_queue : List Message)
          → full settings.inner_task_queue_length tasks ≡ is_full
          → IsSound (state pika_queue deciding)
          → IsSound (
              if is_full
              then state pika_queue deciding
              else if disconnected
              then state pika_queue deciding
              else state pika_queue asking)
      decide-IsSound true disconnected pika_queue e s = s
      decide-IsSound false true pika_queue e s = s
      decide-IsSound false false pika_queue e s = record {
        room = room_of_not-full settings.inner_task_queue_length tasks bounded e;
        workers = s.workers;
        in_order = s.in_order;
        accounted = s.accounted;
      }

      put-IsSound :
          (is_full : Bool) (pika_queue : List Message) (m : Message)
          → IsSound (state pika_queue (putting m))
          → IsSound (
              if is_full
              then state pika_queue (putting m)
              else record (state pika_queue (putting m)) {
                phase = deciding;
                inner_tasks_queue = tasks ++ m ∷ [];
              })
      put-IsSound true pika_queue m s = s
      put-IsSound false pika_queue m s = record {
        room = omega (arith, length-append tasks (m ∷ []), s.room);
        workers = s.workers;
        in_order = ap (λ l. started ++ l) (append_assoc tasks (m ∷ []) pika_queue) ∙ s.in_order;
        accounted = s.accounted;
      }

      listen-IsSound :
          (received : Received) (pika_queue : List Message) (phase : Phase Message)
          → IsSound (state pika_queue phase)
          → IsSound (listen_to_messages settings received (state pika_queue phase))
      unfolding listen_to_messages
      listen-IsSound received pika_queue deciding s =
          decide-IsSound (full settings.inner_task_queue_length tasks) amqp_disconnected pika_queue
            refl s
      listen-IsSound timed_out pika_queue asking s = record {
        room = omega (arith, s.room);
        workers = s.workers;
        in_order = s.in_order;
        accounted = s.accounted;
      }
      listen-IsSound answered [] asking s = record {
        room = omega (arith, s.room);
        workers = s.workers;
        in_order = s.in_order;
        accounted = s.accounted;
      }
      listen-IsSound answered (m ∷ ms) asking s = record {
        room = s.room;
        workers = s.workers;
        in_order = s.in_order;
        accounted = s.accounted;
      }
      listen-IsSound received pika_queue (putting m) s =
          put-IsSound (full settings.inner_task_queue_length tasks) pika_queue m s

    room_of_longer :
        (phase : Phase Message) (n : ℕ)
        → HasRoom settings.inner_task_queue_length phase (suc n)
        → HasRoom settings.inner_task_queue_length phase n
    room_of_longer deciding n h = omega arith
    room_of_longer asking n h = omega arith
    room_of_longer (putting m) n h = omega arith

    last_in_first :
        (xs ys : List Message) (m : Message) → Permᴰ ((xs ++ ys) ++ m ∷ []) ((xs ++ m ∷ []) ++ ys)
    last_in_first xs ys m =
        rw (append_assoc xs ys (m ∷ []), append_assoc xs (m ∷ []) ys)
          (Permᴰ.append_left xs (Permᴰ.append_comm ys (m ∷ [])))

    taken-IsSound :
        (busy : Bool) (m : Message) (ms : List Message) (i : Interface Message)
        → i.inner_tasks_queue ≡ m ∷ ms
        → reaches settings.inner_task_parallelism_limit i.processing ≡ busy
        → IsSound i
        → IsSound (
            if busy then i else record i {
              inner_tasks_queue = ms;
              processing = i.processing ++ m ∷ [];
              started = i.started ++ m ∷ [];
            })
    taken-IsSound true m ms i q e s = s
    taken-IsSound false m ms i q e s = record {
      room =
          room_of_longer i.phase (length ms)
            (subst (λ l. HasRoom settings.inner_task_queue_length i.phase (length l)) q s.room);
      workers =
          let less = below_of_not-reaches settings.inner_task_parallelism_limit i.processing e in
          omega (arith, length-append i.processing (m ∷ []));
      in_order =
          append_assoc i.started (m ∷ []) (ms ++ (in_hand i.phase ++ i.pika_queue))
          ∙ subst (λ l. i.started ++ (l ++ (in_hand i.phase ++ i.pika_queue)) ≡ i.arrived) q
              s.in_order;
      accounted =
          Permᴰ.trans (Permᴰ.append_right (m ∷ []) s.accounted)
            (last_in_first i.processing i.processed m);
    }

    take_task-IsSound : (i : Interface Message) → IsSound i → IsSound (take_task settings i)
    unfolding take_task
    take_task-IsSound i s = go i.inner_tasks_queue refl
      where
        go :
            (tasks : List Message)
            → i.inner_tasks_queue ≡ tasks
            → IsSound (elim tasks as (λ _. Interface Message) [
              | [] ↦ i
              | m ∷ ms ↦
                  if reaches settings.inner_task_parallelism_limit i.processing
                  then i
                  else record i {
                    inner_tasks_queue = ms;
                    processing = i.processing ++ m ∷ [];
                    started = i.started ++ m ∷ [];
                  }
            ])
        go [] q = s
        go (m ∷ ms) q =
            taken-IsSound (reaches settings.inner_task_parallelism_limit i.processing) m ms i q refl
              s

    finish-IsSound :
        (before : List Message) (m : Message) (after : List Message) (i : Interface Message)
        → i.processing ≡ before ++ m ∷ after
        → IsSound i
        → IsSound (finish settings before m after i)
    finish-IsSound before m after i e s = record {
      room = s.room;
      workers = omega (
        arith,
        ap length e,
        length-append before (m ∷ after),
        length-append before after,
        s.workers,
      );
      in_order = s.in_order;
      accounted =
          subst (λ l. Permᴰ i.started l) (append_assoc (before ++ after) i.processed (m ∷ []))
            (Permᴰ.trans (subst (λ l. Permᴰ i.started (l ++ i.processed)) e s.accounted) (
              Permᴰ.trans (Permᴰ.append_right i.processed (Permᴰ.middle m before after))
                (Permᴰ.append_comm (m ∷ []) ((before ++ after) ++ i.processed))));
    }

    Step-IsSound : {i j : Interface Message} → Step settings i j → IsSound i → IsSound j
    Step-IsSound {i} (arrives m) s = arrive-IsSound m i s
    Step-IsSound {i} disconnects s = record {
      room = s.room;
      workers = s.workers;
      in_order = s.in_order;
      accounted = s.accounted;
    }
    Step-IsSound {i} (listens received) s =
        listen-IsSound i.inner_tasks_queue i.processing i.processed i.arrived i.started
          i.amqp_disconnected received i.pika_queue i.phase s
    Step-IsSound {i} takes s = take_task-IsSound i s
    Step-IsSound {i} (finishes before m after e) s = finish-IsSound before m after i e s

    -- From the connection on, with a task queue of some length, whatever steps the listener, the workers
    -- and the AMQP queue make in whatever order: the task queue is never longer than allowed and has
    -- room for the message that the listener has in hand, so that it never waits to put it, and no
    -- more messages are processed at the same time than allowed. The messages that workers took, then
    -- those of the task queue, the one in hand and those of the AMQP queue are all that have
    -- arrived, in the order of arrival, and each one that was taken is processed now or done with.
    pub Reach-IsSound : {i : Interface Message} → Reach settings i → IsSound i
    Reach-IsSound start = connected-IsSound
    Reach-IsSound (next r step) = Step-IsSound step (Reach-IsSound r)
