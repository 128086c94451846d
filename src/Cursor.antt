-- ===== src/Cursor.antt =====
-- `websearch/internal/cursor`: the tokens by which a client asks for the next page.
pub mod Codec
pub mod RoundTrip
