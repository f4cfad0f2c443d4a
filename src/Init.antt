-- ===== src/Init.antt =====
-- init: the first user process. Its configuration language, services, actions and properties.
pub mod Keywords
pub mod Tokens
pub mod Platform
pub mod Service
pub mod Options
pub mod Expand
pub mod Parser
pub mod Control
pub mod Reap
pub mod Properties
pub mod Queue
