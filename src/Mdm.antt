-- ===== src/Mdm.antt =====
-- Master data (cde/jobs/build_mdm.py): one golden customer per real person.
pub mod Distance
pub mod Names
pub mod Clusters
pub mod Matching
pub mod Bureau
pub mod Golden
