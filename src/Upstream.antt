-- ===== src/Upstream.antt =====
-- internal/upstream/http.go.
pub mod Header
pub mod Filter
pub mod Address
pub mod Dialed
pub mod Send
pub mod SentFields
pub mod Stream
pub mod Streamed
