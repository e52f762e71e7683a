-- ===== src/Topology.antt =====
-- The topology manager (sdxctlr/TopologyManager.py) and the resources that it reserves
-- (shared/PathResource.py).
pub mod Graph
pub mod Manager
pub mod Loops
pub mod Bandwidth
pub mod Vlans
pub mod Resources
pub mod Available
pub mod Find
pub mod Steiner
mod Tests
