-- ===== src/Admin.antt =====
-- The parsers of the management protocol, src/parsers/admin_*.c: the administrator's messages and the
-- server's answers.
pub mod Reply
pub mod Connect
pub mod Put
pub mod Delete
pub mod Edit
pub mod Get
pub mod ConfigBuff
pub mod ConfigStatus
