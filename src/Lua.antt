-- ===== src/Lua.antt =====
-- The interface of Lua as script.c uses it.
pub mod Api
