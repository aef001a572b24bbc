-- ===== src/Storage.antt =====
-- storage/MySqlStore.h, storage/MySqlStore.cc, storage/RedisClient.h, storage/RedisClient.cc and the tasks
-- that game/GameServer.cc puts on the queue of its `AsyncWriter`. The client libraries are parameters. A
-- text is the list of its bytes.
pub mod Services
pub mod MySql
pub mod Redis
pub mod Results
pub mod Tasks
pub mod Safe
mod Tests
