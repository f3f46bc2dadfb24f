-- ===== src/Amqp/Settling.antt =====
-- When a worker settles a message: `wait_for_message` of app/amqp/amqp_message_processor.py.
use svp_harvester.Prelude.{
  ◌-◌, Bool, true, false, ◌||◌, Option, none, some, List, [], ◌∷◌, ◌++◌, ◌≡◌, refl, arith,
}
use svp_harvester.Amqp.Worker.{
  Failure, channel_invalid_state, amqp_error, keyboard_interrupt, invalid_entity, connection_error,
  unexpected, unbound_local, unread, unprocessed, Round, Worker, Next, waits, returns, raises,
  wait_for_message, post_process_message, handle, log_performance,
}

-- Errors of the connection to the message broker.
abbrev pub is_broker_failure : Failure → Bool
is_broker_failure channel_invalid_state = true
is_broker_failure amqp_error = true
is_broker_failure _ = false

-- Errors after which the message is to be delivered again.
abbrev pub is_requeued : Failure → Bool
is_requeued channel_invalid_state = false
is_requeued keyboard_interrupt = false
is_requeued invalid_entity = false
is_requeued _ = true

abbrev pub next_of : Failure → Next
next_of channel_invalid_state = returns
next_of keyboard_interrupt = raises keyboard_interrupt
next_of _ = waits

-- What is put on record for a negative acknowledgement.
abbrev pub given_back : Bool → Failure → List Bool → List Bool
given_back true failure nacks = nacks
given_back false failure nacks = nacks ++ is_requeued failure ∷ []

module _ {Payload : Type 0} where
  -- A message that was read and is processed for the message library, as it is once it is
  -- acknowledged: whatever its processing raises, the worker neither gives it back nor counts its
  -- task as done. Only the reconnect event is set, if the broker failed.
  pub wait_for_message-lost :
      (payload : Payload) (failure : Failure) (nack_fails : Bool) (w : Worker Payload)
      → let round : Round Payload = record {
        attempt = unprocessed payload failure;
        processed = true;
        nack_fails = nack_fails;
      } in
        wait_for_message round w ≡ (
          record w { payload = some payload; reconnect = is_broker_failure failure || w.reconnect },
          next_of failure,
        )
  unfolding wait_for_message post_process_message handle log_performance
  wait_for_message-lost payload channel_invalid_state nack_fails w = refl
  wait_for_message-lost payload amqp_error nack_fails w = refl
  wait_for_message-lost payload keyboard_interrupt nack_fails w = refl
  wait_for_message-lost payload invalid_entity nack_fails w = refl
  wait_for_message-lost payload connection_error nack_fails w = refl
  wait_for_message-lost payload unexpected nack_fails w = refl
  wait_for_message-lost payload unbound_local nack_fails w = refl

  -- The log at the end of a round fails for a worker that never read a payload.
  abbrev pub logged : Option Payload → Next → Next
  logged none next = raises unbound_local
  logged (some payload) next = next

  pub wait_for_message-settled :
      (failure : Failure) (nack_fails : Bool) (w : Worker Payload)
      → (next_of failure ≡ raises keyboard_interrupt → ⊥)
      → let round : Round Payload = record {
        attempt = unread failure;
        processed = false;
        nack_fails = nack_fails;
      } in
        wait_for_message round w ≡ (
          record w {
            unfinished = w.unfinished - 1;
            reconnect = nack_fails || (is_broker_failure failure || w.reconnect);
            nacks = given_back nack_fails failure w.nacks;
          },
          logged w.payload (next_of failure),
        )
  unfolding wait_for_message post_process_message handle log_performance
  wait_for_message-settled channel_invalid_state true w kept = ground arith
  wait_for_message-settled channel_invalid_state false w kept = ground arith
  wait_for_message-settled amqp_error true w kept = ground arith
  wait_for_message-settled amqp_error false w kept = ground arith
  wait_for_message-settled keyboard_interrupt nack_fails w kept = absurd (kept refl)
  wait_for_message-settled invalid_entity true w kept = ground arith
  wait_for_message-settled invalid_entity false w kept = ground arith
  wait_for_message-settled connection_error true w kept = ground arith
  wait_for_message-settled connection_error false w kept = ground arith
  wait_for_message-settled unexpected true w kept = ground arith
  wait_for_message-settled unexpected false w kept = ground arith
  wait_for_message-settled unbound_local true w kept = ground arith
  wait_for_message-settled unbound_local false w kept = ground arith
