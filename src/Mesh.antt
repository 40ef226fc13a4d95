-- ===== src/Mesh.antt =====
-- frontend/src/lib/mesh: the gossip mesh between browsers.
pub mod Types
pub mod PeerScoring
pub mod Plumtree
