-- ===== src/Cursor.antt =====
-- publicapi/pagination.go, the cursors
pub mod Bytes
pub mod Base64
pub mod Varint
pub mod Times
pub mod Encoder
pub mod Pack
pub mod Kinds
