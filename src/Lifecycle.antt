-- ===== src/Lifecycle.antt =====
-- driver/lifecycle.go and driver/adopt.go: what a start, a recovery and a stop of a task do, put
-- together from the parts that the other files model. The calls of one operation run in a sequence;
-- no other operation on the same task runs in between.
pub mod Host
pub mod Store
pub mod Adopt
pub mod Install
pub mod Start
pub mod Restores
pub mod Failed
pub mod Triple
pub mod Tracked
pub mod Started
pub mod Never
pub mod Others
pub mod Unmarked
pub mod Space
pub mod Recover
pub mod Handle
pub mod Stop
pub mod System
pub mod Environment
