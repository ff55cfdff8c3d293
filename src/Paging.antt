-- ===== src/Paging.antt =====
-- internal/transport/internalapi/continuation.go: an answer is cut at whole items to a budget in
-- tokens, and the rest waits behind a handle for the next call of the same tool.
pub mod Shown
pub mod Find
pub mod Tests
pub mod Loops
pub mod Store
pub mod Grep
pub mod Pages
pub mod Handles
pub mod Resume
pub mod Walk
