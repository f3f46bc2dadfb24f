-- ===== src/Amqp/Listening.antt =====
-- `AMQPInterface` of app/amqp/amqp_interface.py: the listener takes messages from the AMQP queue and
-- puts them into the queue of tasks, from which the workers take them. Listener and workers are
-- interleaved in any order. The AMQP queue is a list to which messages arrive.
use svp_harvester.Prelude.{
  zero, ℕ, Bool, true, false, List, [], ◌∷◌, ◌++◌, length, ◌≡◌, if◌then◌else◌,
}
use Prim.Native.Nat.{compare, Ordering, suc}

-- Where the loop of `_listen_to_messages` stands: before its tests, at the call of `get`, or at the call
-- of `put` with a message.
pub data Phase (Message : Type 0) : Type 0 where
  deciding asking : Phase Message
  putting : Message → Phase Message

-- How the call of `get` ends: with a timeout, or with what the AMQP queue has.
pub data Received : Type 0 where
  timed_out answered : Received

pub record Settings : Type 0 where
  pub inner_task_queue_length : ℕ
  pub inner_task_parallelism_limit : ℕ

-- The AMQP queue, the listener, the queue of tasks, and the workers: the messages that they are
-- processing and those that they are done with. `arrived` and `started` record all messages that
-- have come to the AMQP queue and that workers have taken, in order.
pub record Interface (Message : Type 0) : Type 0 where
  pub pika_queue : List Message
  pub phase : Phase Message
  pub amqp_disconnected : Bool
  pub inner_tasks_queue : List Message
  pub processing : List Message
  pub processed : List Message
  pub arrived : List Message
  pub started : List Message

module _ {Message : Type 0} where
  -- The state after `connect`.
  abbrev pub connected : Interface Message
  connected = record {
    pika_queue = [];
    phase = deciding;
    amqp_disconnected = false;
    inner_tasks_queue = [];
    processing = [];
    processed = [];
    arrived = [];
    started = [];
  }

  -- A message comes to the AMQP queue.
  abbrev pub arrive : Message → Interface Message → Interface Message
  arrive m i = record i { pika_queue = i.pika_queue ++ m ∷ []; arrived = i.arrived ++ m ∷ [] }

  -- `_listen_for_reconnect`, once a worker has set the event.
  abbrev pub listen_for_reconnect : Interface Message → Interface Message
  listen_for_reconnect i = record i { amqp_disconnected = true }

abbrev pub reaches : {Message : Type 0} → ℕ → List Message → Bool
reaches limit ms = elim (compare (length ms) limit) [ Ordering.lt ↦ false | _ ↦ true ]

-- `asyncio.Queue.full`: a maximal size of 0 stands for no limit.
abbrev pub full : {Message : Type 0} → ℕ → List Message → Bool
full zero tasks = false
full (suc size) tasks = reaches (suc size) tasks

module _ {Message : Type 0} (settings : Settings) where
  -- The tests at the start of a round.
  abbrev decide : Interface Message → Interface Message
  decide i =
      if full settings.inner_task_queue_length i.inner_tasks_queue
      then i
      else if i.amqp_disconnected
      then i
      else record i { phase = asking }

  -- `get(no_ack=True, fail=False)`, after which the AMQP queue has forgotten the message.
  abbrev receive : Received → Interface Message → Interface Message
  receive timed_out i = record i { phase = deciding }
  receive answered i = elim i.pika_queue [
    | [] ↦ record i { phase = deciding }
    | m ∷ ms ↦ record i { phase = putting m; pika_queue = ms }
  ]

  -- `put`, which waits as long as the queue is full.
  abbrev put : Message → Interface Message → Interface Message
  put m i =
      if full settings.inner_task_queue_length i.inner_tasks_queue
      then i
      else record i { phase = deciding; inner_tasks_queue = i.inner_tasks_queue ++ m ∷ [] }

  -- `_listen_to_messages` up to its next call that waits.
  unfoldable pub listen_to_messages : Received → Interface Message → Interface Message
  listen_to_messages received i = elim i.phase [
    | deciding ↦ decide i
    | asking ↦ receive received i
    | putting m ↦ put m i
  ]

  -- One of the workers that `_attach_message_processing_workers` starts takes a task, if it is idle.
  unfoldable pub take_task : Interface Message → Interface Message
  take_task i = elim i.inner_tasks_queue [
    | [] ↦ i
    | m ∷ ms ↦ if reaches settings.inner_task_parallelism_limit i.processing then i else record i {
      inner_tasks_queue = ms;
      processing = i.processing ++ m ∷ [];
      started = i.started ++ m ∷ [];
    }
  ]

  -- A worker is done with one of the messages that are processed.
  abbrev pub finish : List Message → Message → List Message → Interface Message → Interface Message
  finish before m after i = record i {
    processing = before ++ after;
    processed = i.processed ++ m ∷ [];
  }

  -- One step of the service.
  pub data Step (i : Interface Message) : Interface Message → Type 0 where
    arrives : (m : Message) → Step i (arrive m i)
    disconnects : Step i (listen_for_reconnect i)
    listens : (received : Received) → Step i (listen_to_messages received i)
    takes : Step i (take_task i)
    finishes :
        (before : List Message) (m : Message) (after : List Message)
        → i.processing ≡ before ++ m ∷ after
        → Step i (finish before m after i)

  pub data Reach : Interface Message → Type 0 where
    start : Reach connected
    next : {i j : Interface Message} → Reach i → Step i j → Reach j
