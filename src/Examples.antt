-- ===== src/Examples.antt =====
-- Runs of the models on small inputs, and the theorems at inputs that meet their hypotheses.
mod Spaces
mod Tasks
mod Messages
mod Guests
mod Loads
mod Ticks
mod Boards
mod Assembly
mod ArmAssembly
mod Frames
pub mod Boots
pub mod Machines
