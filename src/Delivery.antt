-- ===== src/Delivery.antt =====
-- A generation from the decode node's scheduler through the router to the client: the composition
-- of common/batching.py, services/decode/main.py, services/router/main.py and
-- scripts/load_client.py.
pub mod Relayed
pub mod Heard
pub mod Broken
pub mod Served
pub mod Delivered
pub mod Interrupted
pub mod Repeated
pub mod Refused
pub mod Colocated
pub mod Tests
