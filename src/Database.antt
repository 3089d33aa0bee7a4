-- ===== src/Database.antt =====
-- Tables of the database, which the program reaches through SQLAlchemy: a parameter of the modules
-- that use it. `rows` lists a table in the order of its primary key; the statements that the
-- program sends have the meaning that SQL gives them.
mod Interface
pub mod Memory
pub mod Keyed
pub use Interface.*
