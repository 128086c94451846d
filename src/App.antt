-- ===== src/App.antt =====
-- `websearch/internal/app/search_service.go`.
pub mod Requests
pub mod Acceptance
pub mod Choice
pub mod Responses
pub mod Serving
pub mod Flow
pub mod Again
