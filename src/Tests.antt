-- ===== src/Tests.antt =====
-- Runs on small inputs, and each theorem at a concrete input.
mod Platform
mod Open
mod Apply
mod Backend
mod Migration
mod Outbox
mod Protocol
mod Resolve
mod Secret
mod Contracts
mod Handoff
mod Tdd
mod Observer
mod Mcp
mod Harness
