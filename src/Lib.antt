-- ===== src/Lib.antt =====
-- Safari Pilot: the security pipeline of the MCP server, from the call of an agent to the engine
-- (src/server.ts, src/engine-selector.ts, src/security/), the batch of calls, the configuration,
-- the requests to the daemon, what the engines make of the answers, the part of the browser
-- extension that finds the tab and the frame of a command, and some tools.
--
-- A call runs through executeToolWithSecurity. The health gate looks after the window and the
-- extension; the guards (wall-clock cap, kill switch, domain policy, human approval, rate limiter,
-- loop detector, circuit breaker) may refuse it; an engine is chosen, the tab's ownership is
-- checked, and a degradation asks for the approval again; the tool runs; what it returned updates
-- the tab registry, is checked against it and against the loop detector, and goes to the audit log;
-- what it threw goes to the breakers, the kill switch and the audit log. The layers share nothing
-- but the server that holds them and the audit log, which the kill switch also writes.
--
-- Parts, with the source of each:
--   Security.RateLimiter     src/security/rate-limiter.ts: checkLimit, recordAction, getCount, ...
--   Security.CircuitBreaker  src/security/circuit-breaker.ts: the circuits of domains and engines
--   Security.KillSwitch      src/security/kill-switch.ts, with the automatic activation
--   Security.LoopDetector    src/security/loop-detector.ts
--   Security.TabOwnership    src/security/tab-ownership.ts: the registry of the agent's tabs
--   Security.WallCap         src/security/wall-cap.ts
--   Security.AuditLog        src/security/audit-log.ts; `append` is the method `record`
--   Security.DomainPolicy    src/security/domain-policy.ts, on the patterns of Regex
--   Security.HumanApproval   src/security/human-approval.ts, with its patterns in a child
--   Engines                  src/engine-selector.ts and the types it reads from src/types.ts
--   Server                   src/server.ts: the state and the stages' monad. Its children Gate,
--                            Guards, Ownership, Registry, Aftermath and Execute are the steps in
--                            their order; Safety, Guarded, Leak, Audited, Owned and Stopped
--                            are about them; Batch is src/tools/batch.ts
--   Engines.Daemon           src/engines/daemon.ts: pending requests and the buffer of lines; the
--                            way over TCP is in the child Tcp
--   Engines.Answers          src/engines/js-helpers.ts and what src/engines/applescript.ts, daemon.ts,
--                            extension.ts and engine-proxy.ts make of outputs and replies
--   Config                   src/config.ts: the merge here, the loader in the child Load; Keys, Kinds,
--                            Asserted, Typed and Frozen are about them
--   Escape                   src/escape.ts
--   Extension.TabMatch       extension/lib/tab-url-matcher.js: which tab a URL means
--   Extension.Session        extension/background.js: the tabs and windows of the sessions
--   Extension.Poll           extension/background.js: the poll loop
--   Extension.Pending        extension/background.js: the entries of commands and their results
--   Extension.Command        extension/background.js: executeCommand, from the tab to the result; the
--                            sentinels here, the dispatch in the child Dispatched
--   Extension.Frame          extension/lib/handshake-machine.js, extension/lib/route-command.js and
--                            their use in extension/content-isolated.js
--   Uploads                  src/path-resolve.ts
--   Wait                     src/tools/wait.ts
--   Discovery                src/discovery/tool-index.ts
--   Errors                   src/errors.ts: the errors that the pipeline throws and their messages
--   Prelude, Text, Params    lists, JavaScript maps in insertion order, texts, and JSON values
--
-- State is passed on explicitly: a method of a class is a function that takes the object and gives
-- its result with the object afterwards, and a `throw` is a result `err`. A stage of the pipeline
-- (`Exec`) ends in `done`, in `returned` for an early return, or in `thrown`; what was written
-- before stays written. The clock is an argument. Numbers are natural numbers: times and indices
-- are never negative, and a difference of times is written where it cannot go below zero or as the
-- sum on the other side of the comparison.
--
-- The loops are recursions on lists, but three, which run on fuel. The loop over the buffer of
-- lines has the length of the buffer and one, which is enough, since each turn takes off a
-- newline. For the effects of a frame, twice the number of waiting commands and three is enough
-- while the frame knows its id, since a command then causes at most one more effect. For a wait,
-- one more than the milliseconds of the timeout is enough where the poll interval is not 0, since
-- each round then takes one at least. A `Map` is an association list in the order of insertion.
-- The regular expressions are lists of atoms, matched on code points.
--
-- Parameters: the parsers `new URL` and `JSON`, the probes of the daemon and of Safari, the clock,
-- and the variables of the process are fields of `Env`; the tools are the argument `handler`, any
-- function on the server; the injection annotator is the test `is_injection_free`; the URLs and
-- the lower case of the tab matcher are fields of `Browser`, `trim` and the JSON of the daemon of
-- `Js`; JSON and trimming are fields of `Js` for the answers, the functions of node and of the
-- file system of `Node` and `Folder`, the decoder of a chunk of bytes, the browser, the handlers
-- of cookies and rules and the screenshot of `Api`; the home directory, and what a command of the
-- extension gives to the pending entries, are functions.
--
-- Not modelled: the other tools and the page scripts, which are I/O and texts; traces; the start
-- and the shutdown of the session; the `suggested_next_tools` of a response; the hints of an
-- error; the screenshot of the extension, what a frame does with a command that it takes, and a
-- write to its storage that fails; the daemon's own process and the app, which are written in
-- other languages.
pub mod Prelude
pub mod Text
pub mod Discovery
pub mod Uploads
pub mod Wait
pub mod Regex
pub mod Params
pub mod Config
pub mod Errors
pub mod Security
pub mod Engines
pub mod Server
pub mod Escape
pub mod Extension
