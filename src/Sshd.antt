-- ===== src/Sshd.antt =====
-- containers/side-containers/sshd: the forced command of the SSH server.
pub mod Parse
pub mod Gate
pub mod Environment
