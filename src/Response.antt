-- ===== src/Response.antt =====
-- How a response reaches the Lua script: the parser's callbacks of wrk.c (`header_field`,
-- `header_value`, `response_body`) store it in two buffers, and `script_response` of script.c reads
-- the headers back.
pub mod Defs
pub mod Steps
pub mod Encoding
pub mod Calls
pub mod Roundtrip
pub mod Stale
mod Tests
