-- ===== src/WebFetch/Responses.antt =====
-- What every response of `Read` satisfies.
use search_x.WebFetch.Pipeline.{Pipeline}
