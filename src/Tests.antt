-- ===== src/Tests.antt =====
-- Runs of the definitions, and the theorems at concrete inputs.
mod Keywords
mod Tokens
pub mod Expand
pub mod Options
mod Parser
mod Control
mod Properties
mod Queue
mod Timer
pub mod Thread
mod Mutex
mod Event
pub mod Partition
mod Fastboot
