-- ===== src/Lib.antt =====
-- A model of the research conductor ar724, and what holds of it.
--
-- The program is a controller in Python around one SQLite database. A run has iterations, an
-- iteration has five phase jobs, and a loop of ticks claims jobs for workers, takes back the jobs
-- of workers that went silent, and promotes a candidate once its iteration is finished, reviewed
-- and evaluated, through ten gates and a transaction that ends in a git commit. Two leased locks
-- keep controllers and promotions apart.
--
-- Db (ar724/db.py, SCHEMA_SQL) has the tables as lists of records; every stateful operation is a
-- function from a database to a database and a result, and takes the current second and the new
-- ids as arguments. Base has what the SQL statements do with lists (select, update_where,
-- delete_where, find, least, greatest, count), integers, finite floats as multiples of the smallest,
-- and Python's exceptions as the type Result.
--
-- Connections: the connections that Database of ar724/db.py keeps for the threads.
-- Events: ar724/event_types.py and emit_event, record_eval_result of ar724/observability.py.
-- Observability: the queries of ar724/observability.py. A time stamp has a text, and the texts of
--   the program and of SQLite differ in the character behind the date.
-- Evals: eval_run, eval_run_all, _parse_since of ar724/cli.py.
-- Locks: acquire_controller_lock, heartbeat_controller_lock of ar724/conductor.py, and
--   claim_promotion_lock, release_promotion_lock of ar724/promotion_gate.py. The SELECT and the
--   write are two functions (controller_plan, controller_write), so that two processes can be
--   interleaved between them.
-- Iterations: create_iteration, enqueue_phase_jobs of ar724/conductor.py.
-- Jobs: cas_update of ar724/db.py; claim_next_phase_job, reap_stale_phase_jobs of
--   ar724/conductor.py; HeartbeatTimer._beat of ar724/heartbeat.py; iter_cancel of ar724/cli.py.
-- Heartbeat: HeartbeatTimer of ar724/heartbeat.py, as a relation of the steps of its owner and of
--   its threads. A beat is one step.
-- Runs: create_run, start_run of ar724/conductor.py; up, pause, resume, halt, iter_next and
--   cron_tick of ar724/cli.py.
-- Budget: ar724/budget.py. Money is in whole units, and floats are exact quotients.
-- Oscillation: ar724/oscillation.py, with SHA-256 as the argument `digest`, and in
--   Oscillation/Checking _check_oscillation of ar724/conductor.py.
-- Evaluator: ar724/evaluator_runner.py, with the files of a run directory as values and a script
--   as a function on them; the default script is one such function.
-- Gates and Promotion: ar724/promotion_gate.py, and in Promotion/Rollback promotion_rollback of
--   ar724/cli.py. What jsonschema, the file system and git answer is an argument.
-- Roles: ar724/role_loader.py, on what the YAML and the JSON parser return. Roles/Output has the
--   values of an output, and Roles/Acceptance check_acceptance with its checks. Python's float() and
--   the rounding of its sum() are arguments.
-- Conductor: tick, _try_promote_latest_iter of ar724/conductor.py, composed of the above, and in
--   Conductor/Drain and Conductor/Signals the loop of `conductor` of ar724/cli.py.
-- Safety: the validators of paths and of calls of ar724/safety.py, and is_private_ip, with the
--   resolver as an argument.
-- Dag: ar724/dag.py. Loop, Rounds and Counting have the invariant of the layers, Search that of
--   the colors, Repeats what happens with two tasks of one id.
-- Files: replace_with_retry, atomic_write of ar724/db.py, write_loop_config of
--   ar724/config_loader.py. What the system answers to each call is an argument.
-- Settings: the commands of ar724/cli.py that change the configuration, with get_loop_config of
--   ar724/config_loader.py, and in Settings/Policy its readers of YAML files with the cached
--   get_safety_policy.
-- Reports: the commands of ar724/cli.py that read and print, as the data that they print.
-- Approvals: the commands of ar724/cli.py that ask for an approval.
-- Tmux: ar724/tmux_manager.py. tmux, the kernel and three functions of Python are a record of
--   operations, Host; a call is a function on the state of tmux that may raise. Tmux/Laws has what
--   the program relies on of tmux, Tmux/Server a small tmux that has it, and Tmux/Down the command
--   down of ar724/cli.py. Boot: up of ar724/cli.py, the rows of Runs/Start with the session,
--   and in Boot/Init and Boot/Snapshots its init and the copies of the database file.
-- Spawner: ar724/spawner.py. Spawner/Shell and Spawner/Words have how a shell reads the texts, and
--   Spawner/Launch spawn_worker and force_kill_worker, over Tmux.
-- Adapters: ar724/adapters/__init__.py, with the words of Spawner/Words.
-- Callbacks: ar724/live_callbacks/__init__.py.
-- System: the processes on one database, as a relation of steps: ticks, heartbeats, evaluations,
--   costs, results of evals, and the commands of ar724/cli.py that write rows. A restored backup,
--   which replaces the whole file, is none of them.
--
-- Loops are over lists, but for the search and the rounds of Dag: these run on fuel, the number of
-- tasks, which is enough because each call paints a white task and each round processes a new one.
-- The rounding of a product of floats in Base/Floats runs on fuel,
-- 2100 digits, more than a finite float has. One operation reads the clock once, where the program may read it two or three times. A database
-- error is modelled where the code handles it (an INSERT into an occupied lock) and where it comes
-- after a write to a file (the commands of Settings); foreign keys are supposed to hold.
--
-- Not modelled: the layout of what is printed; what sqlite3 does, in transactions too; the JSON of a
-- packet in ar724/adapters/__init__.py; validate_bash_command of ar724/safety.py, which is two
-- searches of regular expressions and a check of the hosts of the URLs that a third finds.
pub mod Base
pub mod Db
pub mod Events
pub mod Locks
pub mod Iterations
pub mod Jobs
pub mod Budget
pub mod Oscillation
pub mod Gates
pub mod Promotion
pub mod Roles
pub mod Conductor
pub mod Safety
pub mod Runs
pub mod Evaluator
pub mod Dag
pub mod Files
pub mod Settings
pub mod Spawner
pub mod Tmux
pub mod Boot
pub mod Adapters
pub mod Heartbeat
pub mod Observability
pub mod Callbacks
pub mod Evals
pub mod Reports
pub mod Connections
pub mod Approvals
pub mod System
