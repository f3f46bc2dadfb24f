-- ===== src/Amqp/Tests.antt =====
-- Sample messages: app/amqp/amqp_message_processor.py at concrete inputs.
use svp_harvester.Amqp.Listening
use svp_harvester.Amqp.Delivery
use svp_harvester.Prelude.{ℕ, refl, String, true, false, none, some, [], ◌∷◌, ◌≡◌, string_eq, arith}
use native.Mathlib.Omega.{arith}
use svp_harvester.Prelude.Action.{ok, raised}
use svp_harvester.Amqp.Worker.{
  Failure, unexpected, invalid_entity, unread, unprocessed, Round, Worker, waits, raises,
  wait_for_message,
}
use svp_harvester.Amqp.Settling.{wait_for_message-lost, wait_for_message-settled}
use svp_harvester.Amqp.Processing.{
  retrieval_error, retrieval, Request, Services, process_message, has_no_bibliographic_identifiers,
}
use svp_harvester.Amqp.Answers.{process_message-refused, process_message-registered}

abbrev worker : Worker String
worker = record { unfinished = 1; reconnect = false; nacks = []; payload = none }

abbrev failed_round : Round String
failed_round = record {
  attempt = unprocessed "body" unexpected;
  processed = true;
  nack_fails = false;
}

wait_for_message-lost_example :
    wait_for_message failed_round worker ≡ (record worker { payload = some "body" }, waits)
wait_for_message-lost_example = wait_for_message-lost "body" unexpected false worker

abbrev unread_round : Round String
unread_round = record { attempt = unread unexpected; processed = false; nack_fails = false }

waits-ne-raises : {f : Failure} → waits ≡ raises f → ⊥
waits-ne-raises h = ground (arith, h)

wait_for_message-settled_example :
    wait_for_message unread_round (record worker { payload = some "earlier" })
    ≡ (record worker { unfinished = 0; nacks = true ∷ []; payload = some "earlier" }, waits)
wait_for_message-settled_example =
    wait_for_message-settled unexpected false (record worker { payload = some "earlier" })
      waits-ne-raises

abbrev services : Services String
services = record {
  validate = λ fields. ok (("orcid", fields) ∷ []);
  register = λ arguments identifiers. ok 5;
  run = λ id. raised unexpected;
}

abbrev strict : Services String
strict = record services { validate = λ fields. raised "name missing" }

abbrev request : Request String
request = record {
  type = some "person";
  reply = true;
  fields = "0";
  identifiers_safe_mode = false;
  nullify = [];
  harvesters = none;
  events = [];
}

process_message-refused_example :
    ((process_message strict request []).0 ≡ raised invalid_entity)
    × ((message : String) × ((process_message strict request []).1 ≡ retrieval_error message ∷ []))
process_message-refused_example = process_message-refused strict request refl [] refl

process_message-registered_example : process_message services request [] ≡ (ok tt, retrieval 5 ∷ [])
unfolding has_no_bibliographic_identifiers string_eq
process_message-registered_example =
    process_message-registered services request refl [] (("orcid", "0") ∷ []) 5 refl refl

abbrev one_by_one : Listening.Settings
one_by_one = record { inner_task_queue_length = 1; inner_task_parallelism_limit = 1 }

abbrev one_round : Listening.Interface ℕ → Listening.Interface ℕ
one_round i = Listening.listen_to_messages one_by_one Listening.answered i

abbrev two_arrived : Listening.Interface ℕ
two_arrived = Listening.arrive 2 (Listening.arrive 1 Listening.connected)

-- Tests, get and put of the first message, and the tests that find the queue full.
abbrev full_queue : Listening.Interface ℕ
full_queue = one_round (one_round (one_round (one_round two_arrived)))

second_waits : full_queue.pika_queue ≡ 2 ∷ []
unfolding Listening.listen_to_messages
second_waits = refl

full_queue-reached : Listening.Reach one_by_one full_queue
full_queue-reached =
    Listening.next
      (Listening.next
        (Listening.next
          (Listening.next
            (Listening.next (Listening.next Listening.start (Listening.arrives 1))
              (Listening.arrives 2))
            (Listening.listens Listening.answered))
          (Listening.listens Listening.answered))
        (Listening.listens Listening.answered))
      (Listening.listens Listening.answered)

Reach-IsSound_example : Delivery.IsSound one_by_one full_queue
Reach-IsSound_example = Delivery.Reach-IsSound one_by_one (omega arith) full_queue-reached
