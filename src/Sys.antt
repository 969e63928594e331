-- ===== src/Sys.antt =====
-- internal/backend/sys: the radio kill switch (rfkill.go) and the connectivity check (conn.go).
pub mod Rfkill
pub mod Conn
mod Tests
