-- ===== src/Admin.antt =====
-- signaling/admin: the token table of manager.go and the authentication of auth.go.
pub mod Tokens
pub mod Auth
pub mod Table
pub mod Forgery
pub mod Listing
pub mod Accepted
pub mod Lives
pub mod Tended
mod Tests
