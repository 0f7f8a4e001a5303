-- ===== src/Tls.antt =====
-- src/frfw/tlsfp: a ClientHello, rebuilt from the TCP segments that a packet filter hands over, and
-- parsed. A byte is a number.
pub mod Records
pub mod Rounds
pub mod Scanned
pub mod Message
pub mod Framing
pub mod Reader
pub mod Hello
pub mod Wire
pub mod Hellos
pub mod Total
pub mod Fuel
pub mod Flows
pub mod Streams
pub mod Rebuilt
pub mod Delivered
pub mod Room
pub mod Pair
mod Tests
