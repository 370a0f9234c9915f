-- ===== src/Lib.antt =====
-- The core of the AI SDK for C++: how a model's stream is parsed, how a conversation is kept within
-- the model's window, how the loop that calls the model and its tools runs, and the services around
-- it: sessions, permissions, retries, limits, connections and batches.
--
-- How the parts interact: a provider's answer arrives as bytes, over a connection of the pool, which
-- the server-sent events parser turns into events. generate_text calls the model with the messages
-- of a conversation, runs the tools that the model asks for, appends their results and calls the
-- model again; stream_text does the same while it hands the parts of each answer on. generate_object
-- and stream_object parse the text of one answer and validate it against a schema. A provider reads
-- answers into results or parts, and middleware wraps the calls of a model. An agent is a
-- call of generate_text with fixed options. A session keeps the messages of an agent: a context
-- strategy cuts them between the turns, with a token counter as its measure. The permission gate
-- wraps the tools of a set, so that a policy and an approver decide before one runs. The caching
-- middleware stands in front of a model and answers a request whose key it holds. A cancellation
-- token is read by the loops between two calls of the model.
--
-- Files:
--   Prelude        shared names, Boolean tests, lists, byte strings and integers
--   Sse            src/stream/sse_parser.cpp: SseParser with feed, next_event and parse
--   Prompt         include/ai/prompt/message.hpp and content_part.hpp: messages and their parts
--   TokenCount     src/util/token_count.cpp: ApproximateTokenCounter and ContextWindow
--   Context        src/session/context_strategy.cpp: evict_turns_from_front, the sliding window and,
--                  in Context/Summarize, SummarizationStrategy::manage
--   Tools          include/ai/tool: tool definitions and sets of tools
--   Generate       src/core/generate_text.cpp: the loop, the execution of tools, the final result
--   StreamText     src/core/stream_text.cpp: the parts of a stream, and in StreamText/Loop its loop
--                  over steps and the path with one step
--   Agent          src/agent/tool_loop_agent.cpp: the calls of the tool loop agent
--   Session        src/session/session.cpp: Session::send and the messages of a turn
--   Permission     src/permission/permission.cpp: the gate around a tool, and gated sets
--   Cancellation   include/ai/util/cancellation.hpp: CancellationSource and CancellationToken
--   Errors         src/error/api_call_error.cpp: errors of calls and their Retry-After header
--   Retry          include/ai/util/retry.hpp: retry_async and retry
--   Base64         include/ai/util/base64.hpp: base64_encode
--   Http           in Http/ConnectionPool src/http/connection_pool.cpp: acquire, release, eviction
--   RateLimiter    src/util/rate_limiter.cpp: the window of a minute, acquire and record_usage
--   CachingMiddleware  include/ai/model/caching_middleware.hpp: the list and map of
--                  CachingMiddleware, wrap_generate and, in CachingMiddleware/Key, the key
--   Batch          src/core/batch.cpp: run_batch
--   JsonView       include/ai/util/json.hpp: what the code reads of a JSON value, and in
--                  JsonView/Trees a library of JSON for the runs of the model
--   Schema         src/schema/validator.cpp: Validator, with what it means to conform in
--                  Schema/Conforms
--   Middleware     src/model/middleware.cpp: wrap_language_model, and in Middleware/Logging and
--                  Middleware/Telemetry the two middleware of include/ai/model that only watch
--   GenerateObject src/core/generate_object.cpp: generate_object, stream_object
--   Anthropic      providers/anthropic/src/anthropic_model.cpp: in Anthropic/Events and
--                  Anthropic/Stream the generator of do_stream, in Anthropic/Payloads how the
--                  JSON of a payload says an event, in Anthropic/Response parse_response
--                  and what do_generate makes of it, in Anthropic/Wire and Anthropic/Body
--                  build_request_body: the messages up to their spelling, then the JSON
--
-- Conventions: a function of the source keeps its name. A loop of the source is a function with
-- `_loop` behind the name or a name for what it does. A string is the list of its bytes. An
-- `optional` is an Option; an exception is the `threw` of an Attempt. The world outside (the model,
-- the tools, the callbacks, the clock) is a state that each asynchronous call takes and returns, or
-- a list of what is read one after the other.
--
-- Bounds: sizes and token counts are numbers without a bound. Loops run on fuel where they are
-- not structural: the number of line breaks in the buffer for next_event and for the loop that
-- drains it, the length of the conversation for trim_to_fit and for the eviction of turns, the
-- length of the list for the eviction of cached answers; the theorems about them hold with that
-- fuel. The loops of generate_text and stream_text count the rounds that max_steps leaves, those
-- of retry the retries left. run_batch and RateLimiter::acquire run on fuel: one round more than
-- the limit of polls is enough for the one, and for the other more rounds than it takes until a
-- round finds room or a minute that is over. The validator runs on fuel; more than the depth of the
-- schema, as the JSON library measures it, is enough.
--
-- Not modelled: boost::json is a parameter, with the operations that the code calls on it. The
-- products of a window with fractions of type double, and the random part of a delay, are
-- arguments. The tools of a step run one after the other, and so do the calls of a pool and a
-- gate, each of which holds a lock, and the operations of a limiter; between the rounds of a
-- waiting RateLimiter::acquire, which frees the lock, others may change the window in any way.
-- The callback on_step_finish returns; that it throws is left out. The interleaving of
-- suspensions is left out, and a stream is drained to its end; the cache and cancellation are
-- modelled with calls that come between each other, one critical section at a time.
-- generate_text and stream_text call the model as it is behind its middleware. The cast of a
-- token count of an answer to int is an argument, and of the usage only the totals are kept.
-- Input and output over the network, the other providers, the stores and the bindings are left
-- out.
pub mod Agent
pub mod Anthropic
pub mod Base64
pub mod Batch
pub mod CachingMiddleware
pub mod Cancellation
pub mod Context
pub mod Errors
pub mod Generate
pub mod GenerateObject
pub mod Http
pub mod JsonView
pub mod Middleware
pub mod Permission
pub mod Prelude
pub mod Prompt
pub mod RateLimiter
pub mod Retry
pub mod Schema
pub mod Session
pub mod Sse
pub mod StreamText
pub mod TokenCount
pub mod Tools
