-- ===== src/Tests.antt =====
-- Concrete inputs for the models of all components: what the definitions compute on them, and what
-- the theorems say of them.
mod Workflows
mod Rows
mod Stores
mod Services
mod Loads
mod Managers
mod Interpreters
mod Identities
mod Engines
mod Details
mod Repos
