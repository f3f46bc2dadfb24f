-- ===== src/Amqp.antt =====
-- How AMQP messages are received and processed: `AMQPInterface` of app/amqp/amqp_interface.py in
-- Listening, and the workers, `AMQPMessageProcessor` of app/amqp/amqp_message_processor.py. The message library enters by what `message.processed` says and
-- by whether a negative acknowledgement fails, in each round; the listener of the results is left out.
pub mod Worker
pub mod Processing
pub mod Settling
pub mod Answers
pub mod Listening
pub mod Delivery
mod Tests
