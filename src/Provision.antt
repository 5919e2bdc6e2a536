-- ===== src/Provision.antt =====
-- provision: the boundary clients that the replay shares with the provisioner.
pub mod Client
