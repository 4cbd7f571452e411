-- ===== src/Lib.antt =====
-- The daemon that supervises coding agents, and the store it keeps of them.
--
-- The program is a daemon with one SQLite database and one file of events. Agents are spawned,
-- watched and restarted; each works on items that go through submission, verification and review.
-- crates/anti-core holds the types and the tables of the state machines, crates/anti-daemon the
-- store, the handlers of the requests and the recovery at the daemon's start.
--
-- Prelude          tests, lists, results, the table with a primary key, texts
-- Core.Model       the agent's record and status, the attention flag (crates/anti-core/src/model.rs,
--                  attention.rs)
-- Core.Status      the tables of agent statuses (crates/anti-core/src/statemachine.rs, agent.rs)
-- Core.Work        the work item and its table (crates/anti-core/src/work.rs)
-- Core.Verify      verification profiles and results (crates/anti-core/src/work.rs)
-- Core.Dispatch    the delivery of a task to a peer (crates/anti-core/src/dispatch.rs)
-- Core.Events      the events of the log (crates/anti-core/src/events.rs)
-- Core.Report      the report of a peer (crates/anti-core/src/report.rs)
-- Core.Authority   the lease of a task (crates/anti-core/src/authority.rs)
-- Core.Contract    the contracts of the dispositions (crates/anti-core/src/disposition.rs)
-- Core.LoopPrevention
--                  the ledger of rejections (crates/anti-core/src/loopprev.rs)
-- Core.Stream      the events of a provider's session (crates/anti-core/src/events.rs)
-- Core.Tracker     the subagents of a session (crates/anti-core/src/subagent_tracker.rs)
-- Store            the database and the event file (crates/anti-daemon/src/store.rs): Codec has the texts of
--                  the enums, Db the rows, Events, Works, Agents and Deliveries the methods
-- Daemon.Review    handle_submit_work, handle_review_work, handle_verify_work
--                  (crates/anti-daemon/src/main.rs)
-- Daemon.Reports   handle_report and what it calls (crates/anti-daemon/src/report.rs)
-- Daemon.Requests  the requests on work items one after another
-- Daemon.Recovery  recover_on_restart (crates/anti-daemon/src/recovery.rs)
-- Daemon.Spawn     spawn_peer_impl (crates/anti-daemon/src/main.rs)
-- Daemon.Restart   restart_agent and reap_children (crates/anti-daemon/src/main.rs)
-- Daemon.Stop      the request StopAgent (crates/anti-daemon/src/main.rs)
-- Daemon.Waiting   the request WaitAgent (crates/anti-daemon/src/main.rs)
-- Daemon.Dispositions
--                  handle_check_disposition (crates/anti-daemon/src/main.rs)
-- Daemon.Backing   the invariant that the handlers keep
-- Daemon.Lifecycle the steps of a work item that a client sees, which the requests refine
-- Core.Agent       the agent of the control plane (crates/anti-core/src/agent.rs, provider.rs)
-- Core.Routing     the model of an agent (crates/anti-core/src/routing.rs)
-- Core.Arbiter     the ranking of options (crates/anti-core/src/arbiter.rs)
-- Core.Capsule     the view of a peer (crates/anti-core/src/capsule.rs)
-- Services.Scheduler, Services.Cycles
--                  the graph of tasks, its groups and its circles (crates/anti-daemon/src/scheduler.rs)
-- Core.Config      the layers of the configuration (crates/anti-core/src/config.rs)
-- Core.InfoFilter  what an agent is shown of the hierarchy (crates/anti-core/src/info_filter.rs)
-- Core.Governance  supervisor, leads and peers (crates/anti-core/src/governance.rs)
-- Services.Cas     guarded writes and the lock of a directory (crates/anti-workspace/src/cas.rs)
-- Services.Wait    wait_for_status (crates/anti-daemon/src/wait.rs)
-- Services.Bus     the subscribers of an agent (crates/anti-daemon/src/event_bus.rs)
-- Services.Loops   loops of a worker and its checks (crates/anti-daemon/src/loop_service.rs)
-- Services.Manager AgentManager and AgentStorage (crates/anti-daemon/src/agent_manager.rs)
-- Checks           the theorems at concrete inputs
--
-- A method on `&mut self` or on the store is a function that returns the new value with its result.
-- The database is a record of tables, a table a list of rows in the order of insertion, and each SQL
-- statement a function on that list. A row has the texts that the code writes, so the parsing of an
-- enum on the way back is the code's own. Counters wrap at their width; the sum of restarts is
-- SQLite's, on 64 bits, whose wrap is left out. Loops of the code
-- over a list go over that list. Four have fuel: the loop of build_schedule, one more than there are
-- tasks, since each round completes one; the search of has_cycle, two more than there are tasks, since
-- a call that opens another is at a task not visited before; and the two
-- waitings, of wait_for_status and of WaitAgent, whose fuel is the number of their rounds.
--
-- What is read from outside is an argument: the clock (`Clock`, one instant for a call), the programs
-- cargo and git and the digest of sha2 (`Tools`), the process table (`Processes`), the file
-- system and what becomes of a write (`WriteFate`), the pool of worktrees and the start of a program (`World`), and the exit of a child. Nothing
-- is assumed of them.
--
-- Not modelled: errors of SQLite's I/O and the opening of the database; the texts of error messages;
-- sockets, threads and the locks between them; the worktree pool, which wraps a crate that is not
-- here; the adapters of the providers, the command line and the benchmark; and the
-- bus of handlers, handoff files and peer processes of the daemon, which its requests do not reach.
pub mod Prelude
pub mod Core
pub mod Store
pub mod Daemon
pub mod Services
pub mod Checks
