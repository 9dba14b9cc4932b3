-- ===== src/Lib.antt =====
-- The Prism engine turns patches written in a DSL into the configuration of a proxy kernel, runs
-- plugins at fixed points of that process, and watches the proxies afterwards. The parts modelled
-- here, with the files of the repository that they follow:
--
-- - Ir (crates/clash-prism-core/src/ir.rs, source.rs): patches, their operations and where they
--   come from, how the parts of a composite patch are ordered, and the fields of proxies that
--   expressions may read. A JSON value is of a library's type, so the type of values is a
--   parameter `V`.
-- - Scope (crates/clash-prism-core/src/scope.rs): where a patch applies. `Scope.contains` is
--   `TimeRange::contains`, on minutes of the day.
-- - Compiler (crates/clash-prism-core/src/compiler.rs): `Compiler.Files` has the registered files
--   and `resolve_dependencies`, which fills the table of names and calls `topological_sort` of
--   `Compiler`. The loops of the sort are functions of their own: `initialize` fills the tables,
--   `link_patches` builds the graph, `sort_loop` is the main loop and `check_sorted` the test
--   behind it. An error is a value of `CompileError`; where the source renders a text, the
--   constructor keeps the arguments.
-- - Failover (crates/clash-prism-core/src/failover.rs): the tracker that counts the failures of
--   nodes and triggers switches. `report` takes the current instant, in nanoseconds, as an
--   argument.
-- - Cache (crates/clash-prism-core/src/cache.rs): the memory cache. The queue type `IndexSet` is a
--   parameter with its documented laws, and the modification times of files are an argument of the
--   operations. A cache is what the mutex protects; `make_room` is the loop of `insert`.
-- - Migration (crates/clash-prism-core/src/migration.rs): `run_migrations`, with its loop as
--   `run_pending`. The JSON library is the instance argument `Json`: reading and writing the
--   version.
-- - Plugin (crates/clash-prism-plugin/src): `Plugin.Permission` (permission.rs), `Plugin.Hook`
--   (hook.rs), `Plugin.Manifest` (manifest.rs), `Plugin.Cooldown` (failover.rs), `Plugin.Cron`
--   (the parser and the match of cron expressions in cron_scheduler.rs) and
--   `Plugin.Lifecycle` (lifecycle.rs), whose manager goes through every function as a value: a
--   handler returns the new manager and its result.
-- - Json: the JSON values of serde_json by their constructors, with a type parameter for numbers,
--   `Json.Path` (crates/clash-prism-core/src/json_path.rs), where a mutable reference is what is
--   done with it, and `Json.Merge` (the merge and its count in
--   crates/clash-prism-core/src/executor.rs).
-- - Executor (crates/clash-prism-core/src/executor.rs): `Executor.Guard` (guarded paths),
--   `Executor.Condition` (scopes against a context), `Executor.Arrays` and `Executor.Maps` (the
--   eight operations), `Executor.Validation`, `Executor.RegexCache` and `Executor.Pipeline`,
--   which runs patches from `Ir` in the order that `Compiler` gives them. A function that
--   mutates the configuration gives the new one with its trace. The evaluator of expressions is
--   the argument `Evaluator`, which `Executor.Expr.Evaluation` fills; the packages for regular
--   expressions and for printing JSON, and the clock are parameters.
-- - Executor.Expr (crates/clash-prism-core/src/executor/expr.rs): the expressions. `Scan` has the
--   searches outside strings and parentheses, `Pieces` the splits at commas, `Literal` literals
--   and comparisons, `Functions` the built-in functions, and `Pipe`, `Predicate` and `Transform`
--   the three evaluators. A text is the list of its characters and a byte offset a number of
--   characters. f64, the numbers of serde_json, regular expressions and the change of case are
--   the record `Packages`.
-- - Trace (crates/clash-prism-core/src/trace.rs): the records that an execution leaves,
--   `Trace.Manager` with its index and queries, and `Trace.Replay`, which applies patches again
--   with functions that the executor exports.
-- - Base: Boolean tests, lists, equality, hash maps and the stable sort, which the parts share.
--
-- A hash map is a list of pairs, and the iteration order is the order of this list; a function
-- that iterates takes a list of any order. Identifiers are texts. A BTreeMap that serves as a
-- queue is a sorted list of its keys.
--
-- The main loop of the sort runs on fuel, one more than the number of patches. Each round takes
-- a node from the queue that it never takes again, so the queue is empty when the fuel is used
-- up (Compiler.MainLoop). The loop that makes room in the cache runs on as much fuel as the
-- queue has keys, since each round takes one (see Cache.Bounded). The steps through a range of
-- cron values run on fuel that is one more than the last value (Plugin.Cron.Steps), and the
-- stages of a pipe on one more than the length of the text, since the text behind a pipe is
-- shorter (Executor.Expr.Pipe.Stages). The recursion of predicates and transformations has the
-- source's own limit of 64 as its number of levels. Counters of fixed width keep their wrap-around
-- (`increment` is on `u32`, `decrement` on `usize`).
--
-- Not modelled: the texts of error messages, logging, the files and the clock, counts of nested
-- brackets beyond 2^31, the reports of traces, the search for the next instant of a cron
-- expression, the disk cache, the parser of the DSL, the script engine, the compilers of targets,
-- the validator of configurations, the sanitizer, the scores of the smart selection, the command
-- line.
pub mod Base
pub mod Cache
pub mod Compiler
pub mod Executor
pub mod Failover
pub mod Ir
pub mod Json
pub mod Migration
pub mod Plugin
pub mod Scope
pub mod Trace
