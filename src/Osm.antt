-- ===== src/Osm.antt =====
-- pkg/osm: which OSM ways become edges, at what speed.
pub mod Access
pub mod Speeds
pub mod Parse
