-- ===== src/Tests.antt =====
-- Concrete instances: a small program state for the parts, and each theorem applied to it.
mod Data
mod Pool
mod Reputation
mod Watcher
mod Types
mod Builder
mod Bundler
mod Provider
mod Rpc
mod Node
mod Wire
mod Wiring
mod Program
mod Interleaved
mod Concurrent
