-- ===== src/Exercise.antt =====
-- exercise/exercise.c: a client of the UNIX_TL service, and the concurrent server that answers it.
pub mod Split
pub mod Reply
pub mod Connection
pub mod Server
pub mod World
pub mod Client
mod Tests
