-- ===== src/Mq.antt =====
-- The two levels of message queues (skynet-src/mq): the messages, the private queue of one service,
-- and the global list of the private queues that have work.
pub mod Message
pub mod Ring
pub mod Global
pub mod Dispatch
mod Tests
