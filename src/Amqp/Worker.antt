-- ===== src/Amqp/Worker.antt =====
-- `wait_for_message`, its handlers of errors and `_post_process_message` of
-- app/amqp/amqp_message_processor.py: one round of a worker's loop.
use svp_harvester.Prelude.{
  ℕ, ◌-◌, Bool, true, false, Option, none, some, List, [], ◌∷◌, ◌++◌, if◌then◌else◌,
}

-- The exceptions that the `except` clauses tell apart, and the one that the last statement of the
-- `finally` block raises where `payload` was never assigned.
pub data Failure : Type 0 where
  channel_invalid_state amqp_error keyboard_interrupt : Failure
  invalid_entity connection_error unexpected unbound_local : Failure

-- How the `try` block went: the payload could not be read, or it was read and processed or not.
pub data Attempt (Payload : Type 0) : Type 0 where
  unread : Failure → Attempt Payload
  succeeded : Payload → Attempt Payload
  unprocessed : Payload → Failure → Attempt Payload

pub record Round (Payload : Type 0) : Type 0 where
  pub attempt : Attempt Payload
  pub processed : Bool
  pub nack_fails : Bool

-- The queue's count of unfinished tasks, the reconnect event, the `requeue` of each negative
-- acknowledgement, and the local variable `payload`.
pub record Worker (Payload : Type 0) : Type 0 where
  pub unfinished : ℕ
  pub reconnect : Bool
  pub nacks : List Bool
  pub payload : Option Payload

pub data Next : Type 0 where
  waits returns : Next
  raises : Failure → Next

module _ {Payload : Type 0} where
  -- A task was taken from the queue before, so the count is not zero.
  abbrev pub task_done : Worker Payload → Worker Payload
  task_done w = record w { unfinished = w.unfinished - 1 }

  abbrev pub set_reconnect : Worker Payload → Worker Payload
  set_reconnect w = record w { reconnect = true }

  abbrev pub nack : Bool → Worker Payload → Worker Payload
  nack requeue w = record w { nacks = w.nacks ++ requeue ∷ [] }

  -- `_post_process_message`
  unfoldable pub post_process_message : Round Payload → Bool → Worker Payload → Worker Payload
  post_process_message round requeue w =
      if round.processed
      then w
      else task_done (if round.nack_fails then set_reconnect w else nack requeue w)

  -- `_handle_application_stop`, which settles the message itself. Its negative acknowledgement does
  -- not fail here.
  abbrev pub handle_application_stop : Round Payload → Worker Payload → Worker Payload
  handle_application_stop round w = if round.processed then w else nack true w

  -- The handlers: the worker, the value of `requeue`, whether the message is settled by them, and
  -- what the loop does next.
  unfoldable pub handle :
      Round Payload → Failure → Worker Payload → Worker Payload × Bool × Bool × Next
  handle round channel_invalid_state w = (set_reconnect w, false, round.processed, returns)
  handle round amqp_error w = (set_reconnect w, true, round.processed, waits)
  handle round keyboard_interrupt w =
      (handle_application_stop round w, false, true, raises keyboard_interrupt)
  handle round invalid_entity w = (w, false, round.processed, waits)
  handle round connection_error w = (w, true, round.processed, waits)
  handle round unexpected w = (w, true, round.processed, waits)
  handle round unbound_local w = (w, true, round.processed, waits)

  -- The log of the `finally` block reads `payload`, and an exception there takes the place of
  -- whatever the loop does next.
  unfoldable pub log_performance : Worker Payload → Next → Next
  log_performance w next = elim w.payload [ none ↦ raises unbound_local | some payload ↦ next ]

  abbrev pub finally : Round Payload → Worker Payload × Bool × Bool × Next → Worker Payload × Next
  finally round (w, requeue, settled, next) =
      let after = post_process_message record round { processed = settled } requeue w in
      (after, log_performance after next)

  unfoldable pub wait_for_message : Round Payload → Worker Payload → Worker Payload × Next
  wait_for_message round w = elim round.attempt [
    | succeeded payload ↦
        finally round (task_done record w { payload = some payload }, false, round.processed, waits)
    | unprocessed payload failure ↦
        finally round (handle round failure record w { payload = some payload })
    | unread failure ↦ finally round (handle round failure w)
  ]
