-- ===== src/Lib.antt =====
-- A model of the agent's core and its correctness theorems. The agent is a chat server: users
-- keep chats, a model may create tasks and scheduled jobs in them, and limits in memory guard the
-- entrance. A part of the program is a module with the name of what it models; the definitions
-- keep the source's names, and the proofs stand in its child modules.
--
-- - Prelude: Boolean tests on natural numbers, lists, a stable sort, and ordered lists.
-- - Tasks: agent/tasks.py with the tables Task and TaskTransition of shared/models.py. A Store is
--   what is committed; a call takes the store, and an Env with what it meets outside (clock, new
--   keys, whether flush, commit and refresh succeed), and returns its result or exception with
--   the new store. Steps is an independent relation of what one call may do; History, Guards,
--   Outcomes, Failures, Progress and Listing are proved from it or from the calls.
-- - Limits: agent/limits.py. Rate is check_message_rate with the dict of windows of
--   agent/state.py; Throttle is LoginThrottle with its dict in insertion order. Gate is
--   GenerationGate: its callers, the tasks of semaphore.acquire() and the semaphore's deque move by
--   events of the loop, in any order.
-- - Scheduler: the background jobs. Schedule is agent/schedule.py; Tables has the tables ScheduledTask
--   and TaskRun of shared/models.py with the statements that run on them; Service is
--   agent/scheduler.py; Control and Listing are
--   agent/scheduler_ops.py; Calls is the tick and any sequence of calls on the two tables, with the invariant that they keep.
--   Schedule's Calendar is what comes from outside: CronSim, the time zone and
--   datetime.fromisoformat. An instant is a count of microseconds from datetime.min.
-- - Release: the versions, titles, answers and the confirm phase of the release command. Versions,
--   Titles and Answers are agent/release_pipeline.py; Plan is the plan of agent/release_command.py;
--   Steps, Checks and Confirm are agent/release_executor.py. The log of calls says what a confirm asked its
--   tools for; Env has what they answer, or that they raise, and which frames to the browser are sent.
--   The contents of the frames and the hints are left out.
-- - Memory: agent/task_memory.py with the stems of agent/rag_rank.py and the calls of
--   agent/task_memory_api.py: the merge rules, and Calls, any sequence of turns and edits of a chat.
-- - Strings: the string methods that the code uses, over code points; Chunking: of agent/kb_chunking.py
--   the windows, the split of a long section and the paragraph sections; its sections by headings
--   are not modelled.
--
-- Numbers and time: keys and counters are natural numbers. Times are natural numbers of clock
-- ticks, a million to the second in Limits, and any order-preserving unit in Tasks; durations in
-- seconds are rounded up as the source's math.ceil does. Settings that the program reads as off
-- when they are not positive are natural numbers, with 0 for off. shared/config.py sets no lower
-- bound for SCHEDULER_MIN_INTERVAL_SECONDS: it is taken as a natural number, so that what a negative
-- one would let in is left out.
-- The database is a parameter of each call through Env: that a new row gets a key that no row has
-- is the hypothesis IsFresh of the theorems that need it. Calls follow one another: two sessions
-- that interleave inside one call are not modelled. The texts of refusals are constructors that
-- carry what the f-string interpolates. Log lines are left out.
-- The loop of LoginThrottle._evict runs on fuel for every item of the table, which is proved to be
-- enough: the loop ends by its test. The loop of next_cron_run has the source's own bound of 1000 rounds.
-- What lies outside of the source and of these modules is an argument: json.loads and the tools' answers of
-- a release, the delta that a model reports, and what Python's strings know of Unicode beyond
-- whitespace (digits, letters, lower case). int() reads a version of any length. Float quotients that are compared with 0.8
-- and 0.5 in the task memory are compared exactly.
-- The search for reasoning blocks in a title and the print of a number run on fuel for every character and
-- more than the digits there are.
-- The loops of chunk_fixed and _subsplit run on fuel for every character, which is proved to be
-- enough. The float product size * 0.8 is the exact quotient, and bisect_right counts, its list
-- being sorted.
-- In agent/tasks.py a commit that fails is taken to leave the tables as they were: the state of the
-- session and its rollback are not represented.
-- In the scheduler a transaction is one step, but for _finish_run: its two transactions, the outcome
-- of the run and finalize_task, are one step here, so that what comes between them is left out. What another session commits between the two reads of
-- claim_slot is an argument of it (`seen` and `db`). A claim, a start and a creation meet a commit
-- that may fail; the commits of finish_run, finalize_task and recover_orphaned_runs succeed. In a
-- sequence of calls each call sees the tables as the one before left them. The quotient of
-- next_interval_run is exact, where the source divides a float. The late threshold is a whole number.
--
-- Not modelled: the scheduler's asyncio part (poll loop, semaphore, timeout), a change of the cap or the
-- loop of the generation gate, the HTTP and WebSocket layers, the model client, MCP, retrieval, the knowledge
-- base beyond its chunks, the planning of a release, the review pipeline, and the user interface.
pub mod Prelude
pub mod Strings
pub mod Tasks
pub mod Limits
pub mod Scheduler
pub mod Chunking
pub mod Release
pub mod Memory
