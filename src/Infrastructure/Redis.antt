-- ===== src/Infrastructure/Redis.antt =====
-- The wire format of infrastructure/redis_one_time_token_store.py and
-- redis_fixed_window_counter.py, which declare the same two functions `_encode_redis_command` and
-- `_read_redis_value`. What the server sends until it closes the connection is a list of bytes.
-- `StreamReader`'s limit on the length of a line and `int`'s limit on the number of digits are
-- left out.
pub mod Numbers
pub mod Utf8
pub mod Encoding
pub mod Reading
pub mod Fuel
pub mod RoundTrip
pub mod Clients
pub mod Limits
