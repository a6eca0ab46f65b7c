-- ===== src/Auth/Logout.antt =====
-- service/auth/auth.go: after a user has logged out.
use go_mutuals.Cursor.Bytes.{Bytes}
