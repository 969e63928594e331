-- ===== src/Wpa.antt =====
-- internal/backend/wpa/wpa.go: the backend of wpa_supplicant. What the control socket answers is an
-- argument, and so are the files of the saved networks.
pub mod Escape
pub mod Scan
pub mod Status
pub mod Profiles
pub mod Connect
mod Tests
