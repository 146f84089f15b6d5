-- ===== src/Tests.antt =====
-- The theorems at concrete inputs, and runs that follow the repository's own unit tests.
mod Codec
mod Rules
mod Firewall
mod World
mod Flows
mod Daemon
mod Client
mod Table
mod Tasks
mod Blocking
mod Formats
mod Protocol
mod Clients
mod Host
mod Gui
