-- ===== src/Peerfiles.antt =====
-- internal/peerfiles: the text that certhold puts into a peer's ~/.ssh.
pub mod Principals
pub mod Address
pub mod Lines
pub mod AuthorizedKeys
pub mod Layout
