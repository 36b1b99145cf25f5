-- ===== src/P2p.antt =====
-- internal/p2p: what the nodes of the mesh send each other.

pub mod Gossip
