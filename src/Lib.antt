-- ===== src/Lib.antt =====
-- easyworker: the sandbox worker, which runs shell jobs and serves their output and the workspace's
-- files behind an enrollment gate. What is modelled is its Go code.
--
-- The parts, and the files here:
--   Auth        internal/auth. Auth/Gate is auth.go: the record Gate has the source's fields, and new,
--               authorized, status, claim, release and allow_attempt are its methods, each one step
--               under the mutex. Below it stand the invariant (Invariant), histories of calls against
--               an automaton (History), the budget of wrong codes (RateLimit) and a new process on the
--               saved state (Restart). Auth/Hex has randomHex and constantEqual, Auth/Store the
--               interface StateStore, Auth/FileStore is filestore.go, Auth/Interceptor interceptor.go,
--               Auth/Space the strings.TrimSpace that it calls.
--   Enroll      internal/enroll.go, the handlers over the gate.
--   Client      client/client.go, the handshake and the bearer that it attaches; Client/HandOver has a
--               release and the next enrollment.
--   Boot        cmd/easyworker/main.go up to the gate: the settings, the state store, the options of the
--               gate, and what is logged; Boot/Start and Boot/Resume join it with the gate.
--   Shell       Shell/LineBuffer is the LineBuffer of internal/shellh/runner.go: Write, FlushLine, Tail.
--               Shell/Env is the environment of RunWithEnv, Shell/HostEnv jobEnv of
--               cmd/easyworker/main.go. Shell/Run has run, exitCodeOf, the handler of execMiddleware and
--               openHandler; Shell/Run/Children is the registry behind KillAll as a step relation.
--               Shell/ExecWindows is internal/shellh/exec_windows.go: the kill handles (Handles) and
--               itoa (Itoa); Shell/ExecUnix is internal/shellh/exec_unix.go with KillAll.
--   Jobs        internal/jobsvc. Jobs/Row has the rows and the SQL statements, Jobs/Store is store.go:
--               the tables, the channel and the open batch of the single writer. Jobs/Job is the Job of
--               manager.go with the stages of its goroutine and the channels of its watchers
--               (Steps has the step relation), Jobs/Job/End the goroutine with the run in it,
--               Jobs/Job/Trace the runs of a job with the store, Jobs/Job/Entered and Logged the log that it
--               writes; Jobs/Manager the registry, the merged history and its pages. Jobs/Store/Held,
--               Jobs/Manager/Merge, History and Readback follow the log through the store, Jobs/Store/
--               Permuted and Parted have the lines that come out of order, Jobs/Store/Open,
--               Jobs/Manager/Lost and Restart follow the log through a restart, Beyond and Live
--               through a reading while callbacks are to come.
--   FilePath    what the worker uses of path/filepath on unix.
--   Files       internal/filesvc. Files/Resolve is resolve with fold_unix.go, Files/ResolveWindows the same
--               with fold_windows.go, Files/Service the rest of service.go on unix, with the calls
--               that change the file system as data, Files/Sync is sync.go.
--   Service     internal/service.go: the tail of a history, the poll loop of JobWait in Service/Wait,
--               WatchJob with all its ends in Service/Watch (its proofs in Delivery), and the other
--               handlers in Service/Handlers with Stdin and the retention loop of manager.go.
--   Server      the mux of cmd/easyworker/main.go: the whole worker as a state with one step for each
--               request.
--   Tools       cmd/easyworker-enroll; Tools/Probe is cmd/trustprobe, Tools/Checks cmd/ewtest and
--               Tools/Live its waiting loops.
--   Rpc         the replies of a connect handler.
--   Base        lists, texts and integers over native numbers. Examples: concrete runs.
--
-- How they interact: the client's Enroll calls the enrollment handler, which calls the gate; the
-- interceptor asks the gate about each request's bearer. The worker's main starts the gate on the saved state. A job's process writes to two line buffers that
-- share one counter; each completed line goes to the watchers' channels and into the store's channel;
-- the writer moves it to the tables, and the history of a job is read from the tables and the buffers.
--
-- Conventions. A Go string is a list of bytes. A method that changes state takes the state and returns
-- it, and a request is one step. A write to a line buffer is its part under the buffer's lock, which
-- numbers the lines and puts them in the ring, or a stretch of that part, since the other buffer takes
-- numbers in between; the callbacks of its lines, which run behind the unlock, are steps of their own, in
-- any order and with anything in between (`calling` of Job has those to come). In finalize, and where a
-- job is run to its end in one go, the callbacks of a flush come right behind it. Counters, times and sizes are natural numbers without a bound: a 64-bit counter of lines or
-- nanoseconds does not wrap in a worker's life; OutputLines, whose arithmetic is 32 bits wide, is in
-- wrapped integers. The gate's clock is in nanoseconds, the store's in milliseconds. The fuel of
-- trim_left is the length of the text, and each round takes a byte. The fuel of digits is the 20 places
-- of itoa's buffer. The waiting loops of ewtest run on any fuel above the number of passes up to the
-- deadline.
--
-- Parameters: the random source, the clock, encoding/json, archive/tar, compress/gzip, the calls of os
-- and filepath.EvalSymlinks, and which calls of them and of the database fail. An SQL statement is an
-- operation on the list of a table's rows. A channel is a list with its capacity; a send with a default
-- case on a full channel is dropped.
--
-- Not modelled: the shell interpreter and the processes that it starts, the process attributes and the
-- log file of windows, the HTTP server below the mux of main, the table of trustprobe's
-- commands, the generated protocol code, and the images, which are build
-- material.
pub mod Base
pub mod Rpc
pub mod FilePath
pub mod Shell
pub mod Auth
pub mod Jobs
pub mod Service
pub mod Files
pub mod Enroll
pub mod Client
pub mod Boot
pub mod Server
pub mod Tools
pub mod Examples
