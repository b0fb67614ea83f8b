-- ===== src/Transport.antt =====
-- net.c, ssl.c: how an answer of the system or of OpenSSL becomes a status, the set-up of OpenSSL,
-- and its sessions.
pub mod Defs
pub mod Sessions
mod Tests
