-- ===== src/Lib.antt =====
-- radical.utils: a library of utilities for the RADICAL tools, in src/radical/utils. This
-- development models the parts that keep state or carry an algorithm, one module tree for each. A
-- part's module holds the definitions, its children the proofs, and its Tests the runs and the
-- theorems at concrete inputs.
--
-- The parts:
-- * Lease models src/radical/utils/lease_manager.py. Lease/Objects has the data (`LeaseObject`,
--   `Pool`, `Manager`) and the code that runs under the manager's lock; Lease has the calls. The
--   heap maps the number of an object to what the references to it point to, so that a pool's
--   `objects`, its `freed` and a client share one object. `lease_now` and `lease_wake` are the
--   two locked sections of `LeaseManager.lease`, `wait_loop` its loop over the rounds of a wait,
--   `lease` the call and `release` that of `LeaseManager.release`. The creator is a parameter
--   that may raise; the clock is an argument, read once in each section. Lease/Histories
--   interleaves the sections of any number of threads.
-- * Bisect models `lazy_bisect` of src/radical/utils/algorithms.py. `step` is one round of its
--   `while` loop, with `check_first`, `check_next` and `check_between` for its three branches;
--   `check` and the callbacks are parameters that change a state of their own and may raise. An
--   exception of `on_skip` is caught nowhere, and is an outcome of its own. `ratio` is an exact
--   fraction `num / den`, where the code computes with floats. `loop` runs on fuel, and
--   `enough_rounds`, which is n (n + 2) + n + 2 for n elements, is enough: each round lowers the
--   frontier, or the distance to it.
-- * Ranges models `collapse_ranges` and `in_range` of the same file. The ends of a range are
--   natural numbers, since the code only compares them.
-- * Concurrency models `range_concurrency` of the same file, on the sort that Ranges has. The
--   concurrency is a pair of counts, of starts and of ends.
-- * Partition models `partition` of the same file.
-- * Prefix models `remove_common_prefix` of the same file.
-- * Queue models the bridge of src/radical/utils/zmq/queue.py, `Queue._bridge_work`, and
--   `Putter.put`. A round is what the two polls find; the buffer is a dictionary from queue names
--   to messages.
-- * Getter models `Getter` of the same file, for one getter per address: the request flag, the
--   reply that waits in the socket, the subscriptions and the thread of the listener. The bridge
--   at the other end is the parameter `serve`.
-- * Registry models src/radical/utils/registry.py: register, acquire, release and unregister,
--   section by section, with `lock` and `unlock` of src/radical/utils/lockable.py. Which weak
--   references still lead to their entity, the class of an entity, and the classes whose lock
--   another thread holds are the parameter `Around`. All entities of a class share one lock, kept
--   as the count of how often its owner has taken it; a call of `lock` waits while another thread
--   holds it. The count that an entity keeps itself (`_locked`) is not modelled.
-- * Heartbeat models src/radical/utils/heartbeat.py: the time stamps, the rounds of the watcher
--   with the beats that arrive meanwhile, and `wait_startup`. The type of the keys is a
--   parameter.
-- * ObjectCache models src/radical/utils/object_cache.py: the namespaces, the counts of users and
--   the delayed removals.
-- * Prelude has what the parts share: Boolean tests on numbers with the ruleset `tests`
--   (Prelude/Tests), lists over the native numbers (Prelude/Lists), equality as an interface
--   (Prelude/Eq), Python's dictionaries (Prelude/Dict), and texts as lists of code points
--   (Prelude/Chars).
-- * Scheduler models src/radical/utils/scheduler/scheduler_bitarray.py: `BitarrayScheduler` with
--   `alloc`, `_align`, `dealloc` and, in Scheduler/Stats, `get_stats`. The package bitarray is
--   the parameter `BitArray` of Scheduler/Bits, with what the code relies on as `IsLawful`;
--   Scheduler/Tests has a bit array that fills it. The loop of `_align` is on fuel: a pass over
--   the cores, and one more after the rewind, are enough.
-- * Channel puts the parts of zmq/queue.py together: a `Putter`, the bridge of Queue and a
--   `Getter`.
-- * PubSub models src/radical/utils/zmq/pubsub.py: `Publisher.put`, the loop of the bridge, and
--   `Subscriber` with its listener. Text is the list of its bytes, msgpack and the filter of the
--   sockets are parameters. The loop of the constructor, over a list that it adds to, is on fuel:
--   twice the topics and one turn are enough.
-- * Message has the values that the services of src/radical/utils/zmq send each other.
-- * Server models src/radical/utils/zmq/server.py: in Server its state and handlers, in
--   Server/Requests the loop of `_work`, one turn at a time, and in Server/Ports the URL, the
--   ports that are tried, and `start`. msgpack and the texts of Python's exceptions are the
--   record `Runtime`. A range of ports without an end is tried on fuel; Server/Ports shows that
--   the ports up to the first that is not in use are enough.
-- * Client models src/radical/utils/zmq/client.py: `request`, with the turn of the server that
--   answers it.
-- * Storage models `Registry` and `RegistryClient` of src/radical/utils/zmq/registry.py, as
--   handlers of Server and calls of Client. The data are a dictionary in memory.
-- * Ids models `_IDRegistry` of src/radical/utils/ids.py.
-- * Env models `env_read_lines`, `_quote` and `_unquote` of src/radical/utils/env.py, with the
--   two regular expressions for keys written out. Env/Lines describes what the command `env`
--   prints.
-- * TypedDict models src/radical/utils/typeddict.py: the verification of values, and in
--   TypedDict/Access the operations on items, `verify` and `update`, for schemas that name no
--   other `TypedDict`. Python's conversions are the parameter `Python`. Values that are a
--   `TypedDict` themselves are not modelled: what `update` does with a dictionary that becomes
--   one is the parameter `nested`.
-- * DictMixin models the class of that name in src/radical/utils/dict_mixin.py. The four methods
--   that a class brings along are the record `Base` of DictMixin/Minimal, and what a dictionary
--   promises of them is `IsLawful`.
-- * Merge models `dict_merge` of src/radical/utils/dict_mixin.py without wildcards; the order of
--   the keys is a parameter.
-- * Diff models `dict_diff` of the same file, on the values of Message. A call whose two
--   arguments the code exchanges is one with the flag `true`. Diff/Explained says independently
--   of it what explains a reported difference.
-- * Expand models `dict_stringexpand` of the same file. Python's `%` is a parameter, which gives
--   a text, one of the two exceptions that the code ignores, or a TypeError, which ends the
--   expansion. The loop need not end, and is on fuel; the sizes of the texts and one are enough,
--   in any measure in which each expansion shrinks its text.
--
-- How they interact: Getter sends the requests that Queue's bridge serves, and uses its default
-- for the queue name; the two meet in the parameter `serve`, which Channel fills. Storage
-- registers its handlers with Server, and its client calls them through Client. The other parts
-- do not call each other.
--
-- An exception is a value, a wait without end a reply of its own, and what other threads do
-- between two sections is a function or a list of steps. Times are whole numbers of some unit.
--
-- Not modelled: logging, profiling, the encoding of messages, the sockets and the operating
-- system's threads, which are I/O or other packages; the modules of src/radical/utils that only
-- wrap them (host, shell, daemon, debug, profile, reporter, lockfile, url, the bridge that starts
-- the services, and all of env but the reading and quoting of variables); `generate_id`, which
-- formats clocks, names and counter files. The wildcards of `dict_merge`, `env_diff`, nested
-- typed dictionaries, the configuration classes and the lists of host names in host are not
-- modelled either.
pub mod Prelude
pub mod Lease
pub mod Bisect
pub mod Ranges
pub mod Concurrency
pub mod Partition
pub mod Scheduler
pub mod Queue
pub mod Registry
pub mod Heartbeat
pub mod Getter
pub mod Channel
pub mod PubSub
pub mod TypedDict
pub mod DictMixin
pub mod Message
pub mod Server
pub mod Client
pub mod Storage
pub mod Prefix
pub mod Diff
pub mod Ids
pub mod Env
pub mod Merge
pub mod Expand
pub mod ObjectCache
