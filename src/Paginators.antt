-- ===== src/Paginators.antt =====
-- publicapi/pagination.go: the paginators, each with its cursor, its default cursors and the parameters
-- of its query. `E` is the type of the callbacks' errors, and `cursor_error` makes one of them of an
-- error of a cursor.
pub mod Bounds
pub mod TimeId
pub mod Compound
pub mod Queries
