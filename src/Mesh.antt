-- ===== src/Mesh.antt =====
-- internal/mesh: the trust scores of the nodes, and fraud proofs.
pub mod Reputation
pub mod Moderation
