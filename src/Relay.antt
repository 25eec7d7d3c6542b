-- ===== src/Relay.antt =====
-- apps/outbox-relay/src: the relay that publishes the events of the product outbox.
pub mod Errors
pub mod Product
