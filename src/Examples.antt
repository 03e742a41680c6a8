-- ===== src/Examples.antt =====
-- Runs of the model on concrete inputs, and the theorems at such inputs.
mod Args
mod Install
mod Repair
mod Mounts
mod Stage
mod Process
mod Launch
mod Config
mod Driver
mod Release
mod Tree
mod Follow
mod Task
mod LogFollow
mod Terminate
mod Ending
mod Lifecycle
mod Restart
mod System
mod Stop
mod Unmarked
mod Others
mod Streams
mod Stats
