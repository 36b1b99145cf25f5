-- ===== src/Cluster.antt =====
-- internal/cluster: the instances that share a Redis.
pub mod Leader
