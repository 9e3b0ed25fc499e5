-- ===== src/Stream.antt =====
-- Streams of objects: the events, the producer and the consumer of proxystore/stream.
pub mod Events
pub mod Producer
pub mod Consumer
pub mod Laws
pub mod Flush
pub mod Flushing
pub mod Delivery
pub mod Calls
pub mod Holding
pub mod Sending
pub mod Runs
pub mod Completion
pub mod Popping
pub mod Reading
pub mod Iteration
pub mod EndToEnd
mod Tests
