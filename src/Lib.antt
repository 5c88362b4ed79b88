-- ===== src/Lib.antt =====
-- sdkit: a model of the parts of the library that decide something, with what makes them correct.
--
-- The program is a Go toolkit for services: packages under core/ for a service's own logic and
-- packages under pkg/ for drivers. Each part keeps its own state and meets the others through
-- interfaces, so each is modelled on its own, with the interfaces that it calls as arguments.
--
-- Payment models core/payment. Payment.Status is state.go (StatusFromEvent,
-- CanTransitionPaymentStatus), Payment.Event is event.go, Payment.Types and Payment.Requests are the
-- structs of types.go, settlement.go, request.go and provider_exchange.go, Payment.Settlement is
-- settlement_merge.go, Payment.Channels is channel_selector.go, Payment.Adapter is registry.go with
-- the interfaces ProviderAdapter and ChannelSelector, Payment.Guards is validation.go with the checks
-- of service.go and NormalizeCurrency, and Payment.Service is service.go, with a child for each group
-- of methods. Payment.Pricing is pricing.go with currency.go: an exchange rate is a fraction of two
-- natural numbers, which is not reduced. An adapter and a selector act on a world `W`, any type, and may fail; a method of the
-- service is a function from a world to a result and a world. The pricing policy and
-- strings.ToUpper are arguments.
--
-- Runtime models core/runtime/dependency.go: Runtime.Sort is sortDependencyItems, with Go's maps as
-- lists of items and edges, and Runtime.Dependency the validation and the two callers. The loop over
-- the queue has fuel: one round for each item is enough, since an item is queued at most once.
--
-- Runtime.Lifecycle models core/runtime/lifecycle.go: an app with its providers and capabilities, whose
-- calls act on a world `W`, and a log of those calls. What other goroutines do is a question to the
-- world and a list of signals.
--
-- Risk models core/security/risk: Risk.Targets is event.go, Risk.Scoring decision.go and Risk.Engine
-- engine.go and frequency.go, over a store, a counter and a logger that are arguments.
--
-- Cache models pkg/cache/memory/store.go: each operation is one step, at a time that is an argument. Get
-- deletes an expired item under a second lock: its one step is a Get with nothing in between. Cache.Counter is the reading and printing of the numbers of Incr.
--
-- RateLimit models the counters and windows of pkg/ratelimit/store/memory.go and the strategies of
-- pkg/ratelimit/strategy/fixed_window.go and sliding_window.go, at times that are arguments, with the
-- cleanups of the store's goroutine as events between the calls.
--
-- Queue models core/queue. Queue.State is the state machine of state.go, Queue.Message a message with
-- its metadata and its runtime context (task.go, message_metadata.go, runtime_context.go),
-- Queue.Error the error tree of error.go, Queue.Option option.go, Queue.Stage middleware_stage.go,
-- Queue.Execute the run of one task in orchestrator.go with the hooks of dispatcher.go, Queue.Dispatch
-- the registration and the dispatch of dispatcher.go, queue.go and registry_runtime.go,
-- Queue.Middleware lock.go, concurrency.go, retry.go and deadletter.go of runtime/middleware, with
-- the keys of a message in Queue.Middleware.Keys, and
-- Queue.Record the recording of a run in task_store.go. Handlers, middlewares, hooks, observers,
-- publishers and the store are functions that may change the message and a world `W`.
--
-- Realtime models the memory store of pkg/realtime/memory/registry.go in Realtime.Registry, with
-- Realtime.Index for its maps of sets, and core/realtime/identity.go and client.go in
-- Realtime.Identity. Sequences of operations are lists of calls.
--
-- Base has what the parts share: results, steps on a world, Go's maps, integers and texts. Tests
-- applies the theorems to concrete inputs and runs the code.
--
-- Times are nanoseconds. The numbers of Incr in Cache.Counter wrap at 2 ^ 64, and have fuel for 20
-- digits, which is enough for them. Elsewhere integers are unbounded: scores, counts of requests and
-- times. A nil pointer is `none`, an error is the value that it wraps, without its text.
--
-- Not modelled: network, databases, processes, goroutines and their timing, and code that only calls a
-- library; payouts; the drivers of the queue and their goroutines;
-- the registry of an app; sockets.
pub mod Base
pub mod Payment
pub mod Runtime
pub mod Risk
pub mod Cache
pub mod RateLimit
pub mod Queue
pub mod Realtime
mod Tests
