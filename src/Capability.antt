-- ===== src/Capability.antt =====
-- capability.rs: rights, capability tokens, and the CSpace of a task. `Rights`, `Token` and `Space`
-- hold the code; `Derivation`, `Fresh` and `Authority` prove what it guarantees.
pub mod Rights
pub mod Token
pub mod Space
pub mod Derivation
pub mod Fresh
pub mod Authority
