-- ===== src/Lib.antt =====
-- Forge CI/CD platform: the pipeline parser, the dependency resolver, the artifact registry, the job
-- scheduler, the job runner, the log streamer and the engine that runs a pipeline with them.
--
-- The platform reads a pipeline (engine/parser.py), resolves its dependencies against an artifact
-- registry into a lockfile (registry/resolver.py), orders its jobs (engine/scheduler.py), and runs
-- them level by level (engine/main.py, engine/runner.py).
--
-- Files and the code they model:
-- - Base (Base/Tests, Base/Lists, Base/Dict, Base/Result): Python's integers, texts, lists, dicts and
--   exceptions. A text is a list of code points (Str). A dict is an association list in insertion
--   order. Code that raises returns a Result with an error of its component, or an Option where only
--   a ValueError can be raised.
-- - Text: the methods of Python's str that the code calls. Digits are those of ASCII. Text/Strip and
--   Text/Split have their lemmas.
-- - Pipeline: the dataclasses of engine/parser.py and Pipeline.to_dict.
-- - Scheduler: engine/scheduler.py. `init` is DAGScheduler.__init__, which composes build_graph,
--   compute_dependents, detect_cycles and topological_sort; get_execution_plan, mark_job_failed,
--   update_job_status, get_job_status and get_all_statuses are the methods of those names. The proofs
--   stand in Scheduler/Graph (the graph), Scheduler/Order (the sort), Scheduler/Cycles (the search
--   for cycles), Scheduler/Construct (the constructor), Scheduler/Plan (the levels) and
--   Scheduler/Failure (the skipping of dependents).
-- - Semver: registry/resolver.py, SemVer.parse, compare_versions and version_key; an int in -1, 0, 1
--   is an Ordering. Proofs: Semver/Order, Semver/Key and Semver/Accepts.
-- - Constraint: registry/resolver.py, Comparator and ConstraintSet, and in Constraint/Expand
--   SemVer.__str__ and expand_constraint. Proofs: Constraint/Ranges.
-- - Resolver: registry/resolver.py, DependencyResolver. The registry client is an argument, a record
--   of the protocol's two methods; Resolver/Client has it and the data, Resolver/Registry the
--   in-memory client and the sorted listing. Proofs: Resolver/Select (the choice of a
--   version), Resolver/Invariant and Resolver/Sound (what a resolution
--   ensures), Resolver/Sound/Fuel (that it ends), Resolver/Rings
--   (the rings of packages that a CycleError reports) and Resolver/Lockfile (the
--   lockfile). Samples and Choices are tests.
-- - Tokens: registry/auth.py, the table of tokens as a list of rows. Proofs: Tokens/Laws.
-- - Registry: registry/metadata.py, registry/storage.py and the handlers of registry/main.py, with
--   the table of artifacts and the files as the state. SHA-256, the JSON library and the clock are
--   arguments; the theorems ask of the JSON library that it reads what it writes. Concurrent requests
--   are sequences of whole requests. Proofs: Registry/Rows, Registry/Handlers (the guards),
--   Registry/Immutable (the invariant, immutability), Registry/Integrity (publish and download) and
--   Registry/Listing (the listing of versions, with its definitions).
-- - Runner: engine/runner.py, DockerJobRunner. The Docker client, the clock and the log callback are
--   operations on a world, given as a record; the calls that change containers are recorded. Output
--   comes as the lines of its chunks, and int(float(t) * m) of a memory limit is an argument.
--   Runner/Client has the data and the interface. Proofs:
--   Runner/Calls (rules for the recorded calls), Runner/Steps (the loop over the steps) and
--   Runner/Cleanup (the life of the container).
-- - Engine: engine/main.py, RunState (Engine/State) and execute_pipeline. `run_level` is one pass of
--   the loop over the plan: `submit_jobs` gives the futures of a level, and `complete` is the body of
--   the loop over as_completed. The order of completion, and what each future returns or raises, is an argument;
--   the theorems ask that each future comes once. Proofs: Engine/Failing (statuses), Engine/Entries
--   (the entries of skipped jobs), Engine/Completing, Engine/Rounds and Engine/Submitting (one
--   level), Engine/Levels and Engine/Loop (the plan), Engine/Report, Engine/Outcomes,
--   Engine/Success and Engine/Refusals (what the record of a run says).
-- - Engine/Jobs: engine/main.py, execute_job, pull_deps, publish_artifact and _extract_artifact over a
--   `Host`, the calls of the registry over HTTP, of the runner, of the file system and of the log on a
--   world; what is extracted and uploaded is recorded. Proofs: Engine/Jobs/Pulls and
--   Engine/Jobs/Execution.
-- - Engine/Handlers: engine/main.py, submit_pipeline, get_run_status and get_lockfile over the
--   dictionary of runs, and the background task. Proofs: Engine/Handlers/Submissions, from the upload
--   to the end of a run through the parser, the scheduler and the engine.
-- - Parser: engine/parser.py, PipelineParser on a dict, one definition per method and per loop body.
--   Parser/Values is the data of a document, Parser/Rules the checks of fields and the errors,
--   Parser/Texts the regular expressions as functions, Parser/Outputs the output files that the
--   steps name. Proofs: Parser/Accepts and Parser/Schema (what an accepted pipeline is),
--   Parser/Needs (the graph of needs) and Parser/Constraints (the resolver reads what the parser
--   accepts; Semver/Accepts for versions).
-- - Logs: engine/logs.py, LogStreamer.write, _iter_file_from and stream_sse. What other requests write
--   while a reader follows is a list of rounds, one for each pass of the reader's loop. The JSON
--   library is an argument; the theorems ask that it reads what it writes, and writes one line. The
--   status checkers are those of Engine/Handlers, and a round has the answer of one. Proofs:
--   Logs/Lines (what is read of a file) and Logs/Follow.
-- The Tests modules run the definitions on small inputs and apply the theorems to them.
--
-- Fuel. The search for cycles and the skipping of dependents are recursions on the graph, and the
-- sort and the plan are loops: their fuel is the number of jobs, for the search and the plan one
-- more. The theorems on them have no hypothesis on the fuel and show that it never runs out. The
-- resolver's fuel bounds the depth of its recursion and is an argument. Where the
-- client knows packages of finitely many names only, fuel above the number of the names is enough
-- (Resolver/Sound/Fuel), and the in-memory client is such a client (Resolver/Memory).
--
-- Not modelled: the text of messages and log lines, times of day, HTTP, SQLite and Docker themselves.
-- Of engine/parser.py, the composition of YAML with PyYAML and the checks of its nodes, which repeat
-- those of the data to report line numbers: a submission is the data that the document holds. A cpu
-- request is what float() gives of it, as a sign and a number of 1/100000 cores. A version's numbers
-- are those that int() accepts without a sign, and the classes of the regular expressions are those
-- of ASCII. The preparation of directories and the endpoint of logs in engine/main.py, the command
-- line client, the settings and the Slack notifier are not modelled.
pub mod Base
pub mod Text
pub mod Pipeline
pub mod Scheduler
pub mod Semver
pub mod Constraint
pub mod Resolver
pub mod Engine
pub mod Logs
pub mod Parser
pub mod Registry
pub mod Runner
pub mod Tokens
