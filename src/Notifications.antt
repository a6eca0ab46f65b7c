-- ===== src/Notifications.antt =====
-- service/notifications/notifications.go: what owners are told of, above the table of notifications.
--   Data      service/persist/notification.go
--   Store     the table, and the statements of db/queries/core/query.sql that the handlers make
--   Push      which notifications go to phones, and their text
--   Handlers  the dispatcher and the handlers
--   Weeks     the beginning of the week
--   Counts, Rows, Tables, Bounds
--             how often an id stands in the table, and what the handlers make of the table
--   Viewers, Recorded
--             the viewers of the week's notifications
--   Amounts   the updates that the amount of a notification stops
pub mod Data
pub mod Store
pub mod Push
pub mod Handlers
pub mod Weeks
pub mod Counts
pub mod Rows
pub mod Tables
pub mod Bounds
pub mod Amounts
pub mod Recorded
pub mod Viewers
