-- ===== src/Redis.antt =====
-- What the program relies on in Redis: sorted sets, and keys that expire.
pub mod Zset
