-- ===== src/Tests.antt =====
-- Tests and instances of the theorems, at concrete inputs.
mod CursorTests
mod PagingTests
mod SliceTests
mod TokenTests
mod NotificationTests
mod EventTests
mod ThrottleTests
mod AuthTests
mod LoginTests
mod ResumeTests
mod PaginatorTests
mod BatchingTests
mod WalletTests
mod RetryTests
