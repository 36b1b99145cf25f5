-- ===== src/Tests.antt =====
-- The theorems applied to concrete data, with amounts in thousandths, and runs of the code.
mod Budget
mod Mesh
mod Pool
mod PoolProofs
mod P2p
mod Cache
mod Proxy
mod Cluster
mod Retry
mod Payload
mod Admission
mod Codec
mod Screening
mod RoundTrip
mod Keys
