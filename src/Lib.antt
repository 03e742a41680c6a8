-- ===== src/Lib.antt =====
-- A model of the Nomad task driver for steamcmd, a Go plugin that installs games through steamcmd and
-- runs them as Nomad tasks.
--
-- The program's parts, all in the folder driver:
--   * steamcmd.go builds steamcmd's command line (buildArgs), runs it and judges the run by its output
--     (runInstall), and repairs a stale manifest by removing it and running again (installWithRepair).
--   * config.go holds the configuration of the plugin and of a task, and chooses the login.
--   * mounts.go links volume mounts into the task directory; stage.go copies config files into the
--     install directory.
--   * lifecycle.go starts, stops and recovers tasks; proton.go runs Windows programs through Proton.
--   * reap.go, stats.go and adopt.go find the processes of a task by a marker in their environment.
--   * logfollow.go, handle.go and driver.go follow logs, keep the tasks and serve the plugin.
--
-- Starting a task resolves the login (Config), links the mounts (Mounts), installs (Steamcmd.Repair
-- round Steamcmd.Install with the arguments of Steamcmd.Args), stages the config files (Stage) and
-- launches the command (Launch) with the marker in its environment (Process).
--
-- The files:
--   * Base: what the others share, with a child for tests on numbers (Tests), lists (Lists), texts as
--     lists of bytes (Bytes), errors and results (Results), numerals (Numbers) and calls that change a
--     state (Effects).
--   * FilePath: path/filepath on Unix, as far as the driver calls it (Clean, Join, Rel, IsAbs, Base,
--     Dir); the test of Rel that mountTarget and stageDestination share is `escapes`.
--   * Regexp: regular expressions by backtracking, which Go's leftmost-first matching agrees with; the
--     expressions of the source are in Steamcmd.Patterns.
--   * Steamcmd.Args: buildArgs and resolvePassword. Steamcmd.Reader: the loop of runInstall over
--     bufio.Reader.ReadLine, with the buffer's bytes and their reuse; Steamcmd.Lines is what ReadLine
--     promises of the text. Steamcmd.Install: runInstall, as the scan of the lines (`scan_lines`) and
--     the verdict (`judge`). Steamcmd.Streams: the copies of the output to the task's log and to
--     the pipe, which is read meanwhile. Steamcmd.Repair: installWithRepair.
--   * Config: the configuration records, DefaultLogin, Login, resolveLogin.
--   * Mounts: setupMounts, mountTarget, linkMount. Stage: mergeConfigFiles, stageDestination, copyFile,
--     stageConfigFiles.
--   * Process: taskKey, taskMarker, hasMarker, procAlive; Process.Members: listPIDs, findMarked, members,
--     liveMembers; Process.Tree: addTree; Process.Terminate: waitUntil, terminateProcesses.
--   * Launch: windowsRuntime, buildLaunchCommand, resolveLaunchPath, parseSignal, appInstalled.
--   * Driver: SetConfig, buildFingerprint; Driver.Release: acquireInstallSlot as steps on the channel,
--     which SetConfig may replace, and on the slots that are held;
--     Driver.Fingerprints is handleFingerprint, Driver.Plugin what the plugin tells of itself.
--   * Task: the task handle, InspectTask, DestroyTask, SignalTask.
--   * LogFollow: resolveFollowPaths, snapshotFiles, followFile, over what the operating system answers
--     at each poll; LogFollow.Shared: followLogs and lockedWriter, whose followers write in any order.
--   * Lifecycle: what puts these together. Lifecycle.Host is the machine that StartTask calls, with the
--     checks that come first (parseInstallTimeout, statfsFree, taskLogFiles); Lifecycle.Store is the
--     store of the tasks; Lifecycle.Adopt is adoptOrReap and startLogFollowers, Lifecycle.Install the
--     install, Lifecycle.Start the rest of StartTask; Lifecycle.Recover is RecoverTask, Lifecycle.Stop
--     StopTask and ExecTask, Lifecycle.Handle watchRecovered, waitForExit, WaitTask and the goroutine
--     that waits for a launched process. Lifecycle.System is what StopTask, DestroyTask and SignalTask
--     do by calls of the operating system (collectorFor, procComm, signalPIDs, signalProcessGroup and
--     the run of wineserver), each reading /proc at one state. Lifecycle.Restores and Lifecycle.Triple
--     are rules for what an effect does to the store when it fails and when it succeeds; with them
--     Lifecycle.Failed and Lifecycle.Started are about a start that fails or succeeds,
--     Lifecycle.Unmarked about one whose steamcmd tells of no success, Lifecycle.Others about the tasks
--     that an operation is not for; Lifecycle.Recover.Restart puts a start and a recovery in a row.
--   * Config.Schema: the schemas of config.go.
--   * Stats: collect, over floating-point numbers and a process table that are parameters; Stats.Round:
--     collect with its call of members; Stats.Poll: pollStats and TaskStats.
--   * Examples: runs on concrete inputs.
--
-- A Go string is a list of bytes, a map an association list, an error a constructor of `Error`. The
-- calls of package os and the clock are parameters: functions, or records of functions over a state
-- that the model leaves open. Loops over texts run on fuel: ReadLine's loop on one more than the
-- output's length, since each turn takes a byte or ends; hasMarker's loop on the environment's
-- length; the repetitions of an expression on the length of the text that is left; the lines of a read
-- on the length of the text; waitUntil on two more than the number of its sleeps that fit the timeout,
-- since each takes 100 milliseconds at least; addTree on more than the rank of the launched process, a
-- number that falls from each process to its children.
--
-- Not modelled: two operations on one task that run at the same time; the locks but that of the shared
-- log; the passing on of task events (TaskEvents), which is Nomad's eventer; running processes and
-- cancelling them, which are calls on the machine; what goes to the log, and the wording of errors
-- beyond the values that they hold.
pub mod Base
pub mod FilePath
pub mod Regexp
pub mod Steamcmd
pub mod Config
pub mod Mounts
pub mod Stage
pub mod Process
pub mod Launch
pub mod Driver
pub mod Task
pub mod LogFollow
pub mod Lifecycle
pub mod Stats
mod Examples
