-- ===== src/Examples.antt =====
-- The theorems at concrete inputs, and runs of the definitions.
mod Node
mod Blocks
mod Identities
mod Policies
mod Routes
mod Endpoints
mod Files
mod Checkpoints
mod Networks
mod Agents
mod Plugins
mod Flows
mod Commands
mod Restarts
