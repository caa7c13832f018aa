-- ===== src/Server.antt =====
-- The gRPC server of the Raspberry Pi, pi-ap/grpc_server.py: `Queues` has its streams and `Streams`
-- what they deliver, `Discovery`
-- the answer of a discovery, which `Grouping` describes, `Calls` the requests.
pub mod Queues
pub mod Streams
pub mod Discovery
pub mod Grouping
pub mod Calls
pub mod Dongle
pub mod Outcomes
pub mod Balance
mod Tests
