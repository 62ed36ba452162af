-- ===== src/Tree.antt =====
-- tree/: the nodes, the errors and the read-only interface that the calculators walk a tree by.
pub mod Node
pub mod Arena
pub mod Navigator
pub mod Unilevel
pub mod Binary
mod Examples
