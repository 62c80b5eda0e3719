-- ===== src/Tests.antt =====
-- Concrete runs of the modelled code, and the properties at concrete inputs.
mod Data
mod Tokens
mod Groups
mod Peerfiles
mod Http
mod Ops
mod Rekey
mod Tui
mod Sshpush
