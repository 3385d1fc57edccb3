-- ===== src/Lib.antt =====
-- Verification of Apixis (source/apixis/core): an event runtime, and graphs of nodes that run on it.
--
-- The program. An event is posted to a pipe; the consumer of the event loop takes it out, captures
-- the chain of handlers that the handler registry resolves for its name, waits for a permit and
-- starts a dispatch, which runs the foreground handlers in order. A handler that waits for another
-- event lends its permit meanwhile. A graph registers one handler on the event runtime. A run of a
-- graph is a context; each dispatch executes one node or one batch of nodes on a checkpointed state,
-- applies the commands that they return, and posts the next target.
--
-- Base: names, lists, dictionaries, integers and errors that the others share.
-- Event/Glob: `fnmatch.fnmatchcase` of the standard library, from its documentation.
-- Event/Registry: source/apixis/core/event/handler_registry.py. `Registry` is the state of
--   `ApixHandlerRegistry`; `Validate` has the checks at the head of `register_handler`, `Register` the
--   method and the queries. `IsCoherent` of Chains says that no bucket is listed twice and that no
--   cached chain is stale.
-- Event/Handler: `ApixEvent` and `ApixEventHandler` of source/apixis/core/event/base.py; Core has what
--   becomes of the core of a handler.
-- Event/Dispatch: `_dispatch_event`, `_execute_handler` and `_run_background_handler` of
--   source/apixis/core/event/event_loop.py; Follows has which handlers the loop over a chain executes.
-- Event/Permits: `HandlerChainToken` and `suspend_process` of source/apixis/core/event/base.py, with
--   the permit of a dispatch in event_loop.py; Steps has the interleavings as a step relation.
-- Event/Pipe: `ApixEventPipe` and `BuiltinChannel` of source/apixis/core/event/event_pipe.py and
--   pipe_channel.py, over `asyncio.Queue` from its documentation.
-- Event/Loop: the consumer of source/apixis/core/event/event_loop.py over the pipe, the registry and
--   the permits, with start and stop. Steps has what may happen between two awaits as a step relation,
--   Account, which rests on Invariant and Turns, and Capture, which rests on Faithful, have what holds
--   in every reachable state, Drain the consumer's progress.
-- Event/Waiter: `EventWaiter` of source/apixis/core/event/subscription.py. What its handler, its timer
--   and its tasks do to it is a sequence of operations; First has the specification of their outcome.
-- Event/Subscription: `subscribe`, `unsubscribe` and the registration of waiters in the same file.
--   Points has the order of waiters among the handlers, Ranges what holds after any calls, Await
--   `await_for` and the methods of a handler that register it.
-- Event/Factory: source/apixis/core/event/factory.py, the shared core with its getters and its start,
--   over any calls and any turns of its startup tasks. The settings are parameters.
-- Graph/State: `copy_state` and `parse_state_schema` of source/apixis/core/graph/utils/state.py.
-- Graph/Command: `Command` of source/apixis/core/graph/base.py and the normalisation of results in
--   source/apixis/core/graph/node.py.
-- Graph/Commands: the loops of `NodeGraph.apply_command`
--   (source/apixis/core/graph/node_graph.py).
-- Graph/Context: `GraphContext` of source/apixis/core/graph/context/graph_context.py.
-- Graph/Runtime: targets, start of a run, abort and decompose of `NodeGraph`. Managed has the set
--   `_contexts` beside all contexts that callers hold, as a step relation over the operations of the
--   graph and of its contexts.
-- Graph/Restore: `restore_context` and `_validate_snapshot` of `NodeGraph`.
-- Graph/Run: the dispatch handler, `_execute_node` and the head of `apply_command`; a dispatch is two
--   turns, before and after its nodes run. The nodes are any function of the state that ends in
--   results, an exception or a cancellation. A dispatch runs only if it has been posted; the pipe takes
--   the event without an exception.
-- Graph/Namespace: source/apixis/core/graph/utils/namespace.py, with the parts of `__init__` and
--   `decompose` of `NodeGraph` that claim and release a namespace; Owners has all their sequences.
-- Graph/Stream: `StreamChannel` of source/apixis/core/graph/context/stream_writer.py.
-- Graph/Block: `Block` and `BlockEventHandler` of source/apixis/core/graph/interrupter, and the end of
--   `interrupt`; a hook is any sequence of operations on the block.
-- Graph/Gather: `_gather_tasks_in_order` of source/apixis/core/graph/node.py over `asyncio.gather`, from
--   its documentation; what the tasks and the canceller of the caller do is a sequence of operations.
-- Graph/Nodes: `_wrap_func` and `ParallelNode` in the same file.
-- Graph/Invoke: `invoke`, `_invoke`, the end of `stream` and `_execute_one_node` of `NodeGraph`, on a
--   context under any sequence of operations.
-- Graph/Hooks: the handlers that a graph registers on the event runtime, and their removal.
-- Graph/Current: source/apixis/core/graph/context/manager.py, and the head of `interrupt`.
-- Graph/Definition: source/apixis/core/graph/graph_manager.py, graph/utils/validate.py there, and how
--   a node is made in graph/node.py; Names has the names after any calls.
-- Snow: source/apixis/core/utils/snow/snowflake_m1.py, the generator of identifiers.
--
-- How code becomes definitions. A method takes the state and returns the state that it leaves, with a
-- `Result` where it may raise; state that is changed before an exception is returned beside it. Code
-- between two awaits is one step. All loops are structural recursion, so there is no fuel but in the
-- glob tokenizer, whose fuel is the length of the pattern and drops with each token. A priority is an
-- integer in units of 2^-1074, which every finite float is a multiple of. Arguments of any Python type
-- are data types with a case for what is no valid value. The functions of users are functions of the
-- event, and values of a state are any type, with `deepcopy` a parameter that returns.
--
-- Not modelled: the sets of asyncio tasks, time limits of handlers, what a stream yields while its run
-- goes on, logging to terminals and files, configuration files and tracebacks.
pub mod Base
pub mod Event
pub mod Graph
pub mod Snow
