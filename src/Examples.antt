-- ===== src/Examples.antt =====
-- Concrete settings, libraries, accounts and stores for the tests and examples of the other files.
pub mod Setup
pub mod Logins
pub mod Requests
pub mod Accounts
pub mod Limits
pub mod Stores
pub mod RedisServer
pub mod Sessions
pub mod Policies
pub mod Texts
pub mod Llm
pub mod Cluster
pub mod Agents
pub mod Chats
pub mod Repositories
pub mod Ops
pub mod Site
