-- ===== src/Pool.antt =====
-- internal/pool: the donated keys of the mesh.
pub mod Drr
