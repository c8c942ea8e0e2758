-- ===== src/Tests.antt =====
-- Concrete inputs: what the definitions compute on them, and the theorems applied to them.
mod Chain
mod Quorums
mod Queries
mod Handlers
mod Fps
mod Servers
mod Goroutines
mod Apps
mod Controllers
mod Configs
mod Settings
mod Machines
mod Startups
mod Programs
mod Eots
mod Signers
mod Caches
