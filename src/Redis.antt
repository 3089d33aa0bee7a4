-- ===== src/Redis.antt =====
-- Redis, which the program reaches through the third-party client redis.asyncio (core/redis). It is
-- a parameter of the modules that use it: a state, the commands that the program sends, and for
-- each command what its documentation says of the key space and of the clock. Time is in whole
-- seconds. An entry whose deadline has passed is gone.
pub mod Space
mod Interface
pub mod Memory
pub use Space.*
pub use Interface.*
