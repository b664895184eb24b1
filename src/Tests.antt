-- ===== src/Tests.antt =====
-- The library at concrete values.
mod Samples
mod Bytes
mod Messages
mod Sockets
mod Tasks
mod Bridges
mod Clients
mod Reconnects
mod Loops
mod Configs
mod Arrivals
mod Gateways
mod Duplexes
mod Dials
mod Startups
mod Runs
mod Sessions
mod Commands
