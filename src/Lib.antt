-- ===== src/Lib.antt =====
-- taskcluster-worker: the part of the worker that claims tasks from a queue, runs them and resolves
-- them, as functions and step relations.
--
-- The program's parts. `worker/worker.go` claims tasks and starts a goroutine for each, which
-- reclaims the task while a `TaskRun` (`worker/taskrun`) takes it through its stages, then reports
-- the resolution and disposes of the run. The stages call an engine, and through the plugin manager
-- (`plugins/pluginmanager.go`) all plugins at once. Each task has a context
-- (`runtime/taskcontext.go`). What tasks leave behind and may be used again is tracked by a garbage
-- collector (`runtime/gc`), and handed out by caches (`runtime/caching`). All of these stand on
-- `runtime/atomics`, and pass bytes through the readers and pipes of `runtime/ioext`. What runs a
-- task is the sandbox of an engine (`engines/docker`, `engines/native`, `engines/script`,
-- `engines/qemu`), which decides once how the task has ended; the guest of a virtual machine reports
-- to the meta-data service of `engines/qemu/metaservice`. A user may open a shell in a running
-- sandbox, which `plugins/interactive` passes over a websocket.
--
-- The files.
--   Prelude             shared names: Boolean tests, lists, integers and the option monad.
--   Errors              runtime/errors.go and runtime/exceptionreason.go. A Go error is an
--                       `Option Err`.
--   Atomics.Flag, .Once, .WaitGroup
--                       runtime/atomics/bool.go, once.go, waitgroup.go. A method that holds a lock is
--                       one step; `Once.Do` is two, since it runs its function unlocked.
--   TaskContext.Scopes, .Life
--                       runtime/taskcontext.go: HasScopes; and status, cancellation, log and
--                       credentials.
--   TaskRun.State       worker/taskrun/taskrun.go (TaskRun, New, Abort, SetQueueClient,
--                       SetCredentials) and abortreason.go.
--   TaskRun.Stages      worker/taskrun/stages.go: a function for each stage.
--   TaskRun.Advance     RunToStage and WaitForResult. A stage runs with the lock released, so any
--                       calls of Abort may come before and after what it writes: a `Schedule` lists
--                       them for each stage. A panic that nothing recovers is the outcome `dies`.
--   TaskRun.Frame, .Loop, .Passing, .Resolution, .Abortion
--                       theorems on the loop of RunToStage.
--   TaskRun.Dispose     TaskRun.Dispose, which records each call that it makes.
--   TaskRun.Disposal, .Verdict
--                       theorems on it.
--   Gc.Resource, .Collector
--                       runtime/gc/auxiliary.go and gc.go.
--   Gc.Tracking, .Passing, .Collecting, .Failing
--                       theorems on them.
--   Caching.Entry       runtime/caching/cacheentry.go, and what cache.go does to one entry.
--   Caching.Sharing     its use by any threads, as a step relation.
--   Caching.Requiring   the choice of an entry by Cache.Require.
--   Io.AsyncPipe, .BlockedPipe, .AtMost
--                       runtime/ioext/asyncpipe.go, blockedpipe.go and readatmost.go.
--   Io.Buffering, .Budget, .Limit
--                       theorems on the pipes and on ReadAtMost.
--   Engines.Contract    engines/sandbox.go: the interface Sandbox, and demands of its comments.
--   Engines.DockerSandbox, .DockerHeld, .DockerLaws
--                       engines/docker/sandbox.go, and theorems on it.
--   Engines.NativeSandbox, .NativeShells, .NativeLaws
--                       engines/native/sandbox.go, and theorems on it.
--   Engines.ScriptSandbox, .ScriptLaws
--                       engines/script/sandbox.go, and theorems on it.
--   Engines.Sandboxes   the three by the interface.
--   Engines.Disposing   a sandbox that decides once in the hands of TaskRun.Dispose.
--   Engines.QemuSessions
--                       engines/qemu/sessionmanager.go.
--   Engines.DockerNetworks
--                       engines/docker/network/pool.go.
--   Engines.QemuNetworks, .QemuExclusive
--                       the networks of engines/qemu/network/pool.go, and theorems on them.
--   Guest.Resolving, .Asking, .Retrying
--                       engines/qemu/metaservice/metaservice.go: reports of the guest; the record of
--                       an action that the guest is asked for; retries.
--   Guest.Tools, .Fetching
--                       what commands/qemu-guest-tools/guesttools.go answers and reports to it, with
--                       the callbacks that receive an artifact and a folder; and theorems on them.
--   Engines.QemuImages, .QemuKeeping
--                       engines/qemu/image/manager.go: the life of one image, and a theorem on it.
--   Fetching.Download, .Hashed
--                       runtime/fetcher/urlfetcher.go and urlhash.go.
--   Fetching.Streaming  runtime/fetcher/fetchasstream.go.
--   Fetching.Keys       HashKey of runtime/fetcher/artifactfetcher.go and combine.go.
--   Util.Spawning       SpawnWithLimit of runtime/util/parallel.go.
--   Caching.Conjunction runtime/caching/contextconjunction.go.
--   Plugins.Watchdog    plugins/watchdog/watchdog.go.
--   Plugins.Volumes, .Mounting
--                       the volumes of plugins/cache/cache.go, and theorems on them.
--   Plugins.Purging     PurgeCacheAsNeeded of plugins/cache/cache.go, with Purge of
--                       runtime/caching/cache.go.
--   Plugins.Reboot      plugins/reboot/reboot.go.
--   Plugins.Artifacts, .Uploads
--                       plugins/artifacts/artifacts.go, and theorems on it.
--   Plugins.Hooks       the taskPluginManager of plugins/pluginmanager.go.
--   Plugins.Manager     its PluginManager.
--   Plugins.Verdicts    theorems on the hooks.
--   Shell.Messages      plugins/interactive/shellconsts, and the messages of shellhandler.go and of
--                       shellclient/shellclient.go.
--   Shell.Streams, .Handler, .Client
--                       the two ends of a stream, on the pipes of Io; shellhandler.go;
--                       shellclient/shellclient.go.
--   Shell.Session       any steps of both sides and of the messages between them.
--   Shell.RoundTrip     theorems on the messages.
--   Shell.Wire, .Output, .Moves, .Frozen, .Delivery, .Reception, .Arrival
--                       theorems on the order of output and exit.
--   Shell.Resolving, .Settling
--                       theorems on how the two sides are resolved.
--   Shell.Levels, .Ends, .Spending, .SpendingMoves, .Granting, .GrantingMoves, .Intake, .Budget
--                       theorems on flow control.
--   Worker.Claiming     Worker.Start of worker/worker.go, as a step relation.
--   Worker.Counter      worker/taskcounter.go.
--   Worker.Reclaiming, .Processing
--                       reclaimDelay and processClaim of worker/worker.go.
--   Worker.Superseding  superseding of worker/worker.go.
--   Worker.StoppableOnce
--                       StoppableOnce of runtime/stoppable.go.
--   Worker.Shutdown     LifeCycleTracker of runtime/stoppable.go, and Worker.dispose with the end of
--                       Worker.Start.
--
-- What is a parameter. The engine, the plugins and the payload schemas answer what a `World` says
-- while stages run, and what a `Teardown` says while the run is disposed of: a value, an error or a
-- panic. A run asks each of its questions once. The queue's answers, the clock, the metrics of the
-- system and `sort.Sort` are arguments too. Handles and credentials are numbers.
--
-- Bounds. The loop of RunToStage runs on fuel of 8 rounds: there are 7 stages before `resolved`, each
-- round ends in a later stage, and the test at the end takes one more. Reference counts wrap around
-- at 2^32, and free space is compared as a signed 64-bit integer. The counters of a WaitGroup and of
-- the running tasks are Go ints that no program fills, and are not bounded here.
--
-- The body that a sandbox decides in runs under an atomics.Once whose other callers wait, so a call
-- of a sandbox is one transition, and so is a method that holds a lock throughout. The docker
-- daemon, processes and the file system answer what arguments say. `ReadAtMost` runs on fuel of the
-- content's length and three: a read that does not end it takes a byte. A download is tried again
-- eight times.
--
-- A session of the interactive shell is one handler and one client. The websocket delivers the
-- messages of each side in their order, any number of them or none; the channel on which a pipe tells
-- what was read holds any number of entries.
--
-- Not modelled: the waits of processClaim for the goroutine that reclaims and for those that resolve
-- superseded claims; what starts processes, containers and virtual machines; the qemu sandbox, whose
-- lock a refused display may leave held; most plugins; the HTTP clients and servers; configuration
-- and commands; the timers that end a worker which does not stop; how a request of a cache waits for
-- its entry; the merging of schemas, which a package does that is not part of the repository.
mod Prelude
pub mod Errors
pub mod Atomics
pub mod TaskContext
pub mod TaskRun
pub mod Gc
pub mod Caching
pub mod Io
pub mod Fetching
pub mod Engines
pub mod Guest
pub mod Plugins
pub mod Shell
pub mod Util
pub mod Worker
