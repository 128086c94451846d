-- ===== src/WebFetch.antt =====
-- The second service, `webfetch`: it reads one web page and returns its text.
pub mod Types
pub mod Failures
pub mod Requests
pub mod Pipeline
pub mod Extraction
pub mod Live
pub mod Accepted
pub mod Diagnostics
pub mod Formatting
pub mod Service
pub mod Normalized
pub mod Answering
pub mod Origins
pub mod Responses
pub mod Truncation
pub mod SafeUrl
pub mod SafeAddresses
pub mod SafeTargets
