-- ===== src/Lib.antt =====
-- AMD PACE: key-value caches and decoding of a language-model server. The development models the
-- Python code that keeps the tokens of a sequence: the caches of keys and values, the stopping
-- criteria, speculative decoding, the engine server that decodes many requests together, and
-- the router's worker that drives it.
--
-- Parts and files:
--   Common      Boolean tests, lists, counting and methods that change state and may raise: a method
--               is a function from the object to the object behind the call and a value or an
--               exception, since what was written before a raise stays written.
--   Kv          pace/llm/attention/contiguous/cache.py and base.py. Kv/Bmc is BMCKVCache, Kv/Dynamic
--               DynamicKVCache, Kv/Interface what KVCacheBase promises its callers, Kv/Instances the
--               proof that the two classes keep it, Kv/Manager KVCacheManager over any of them.
--   Paged       pace/llm/attention/paged/cache.py. Paged/Blocks is the arithmetic of blocks, Paged/Slots
--               and Paged/Store the slots and the kernel's writes, Paged/Cache PagedKVCache with its
--               block lists; Paged/Cache/Instance shows that it keeps KVCacheBase's promise too.
--               Paged/Metadata is paged/utils.py, the block tables and slots of ragged batches;
--               Paged/Pool is PagedKVCachePool, which all requests share, and Paged/Engine PagedCache
--               with the contexts that it makes, merges into one batch and removes.
--   Decoding    pace/llm/stopping_criteria.py, sampler.py, speculative.py and generator.py.
--               Decoding/Stopping is StoppingCriteria, Decoding/Sampler what a Sampler is built from,
--               Decoding/Speculative the tokens that PardSpeculativeDecoder proposes
--               and accepts, Decoding/Generator the loop of Generator.generate with both caches.
--   Config      SamplingConfig of pace/llm/configs.py: Config/Sampling is its construction and merging,
--               Config/Checks its checks and the calls of generator.py that prepare it for a prompt,
--               Config/Merging whose values a merged config has, Config/Prepared what is prepared.
--   Server      pace/server/engine/server.py.
--               Server/Sequences is Sequence with its sampler, Server/Executor ModelExecutor with its
--               queues and remove_sequences, Server/Steps prefill and _standard_decode,
--               Server/Speculation _speculative_decode and decode. The proofs: Server/Queues is what
--               holds of the queues, Server/Ready and Server/Prefilled what holds of a sequence between
--               calls, Server/Valid both together; Server/Conversations is what a caller sees of the
--               server, Server/Batch, Server/Rounds and Server/Decode show that the standard path does
--               just that; Server/Drafting, Server/Proposals, Server/Checks, Server/Phases,
--               Server/Answers and Server/Settling do the speculative path, Server/Failure failed batches,
--               Server/Speculate calls of either kind and Server/Runs their sequences.
--   Router      pace/server/router/scheduler.py and engine_client.py: Router/Requests is a request with its
--               token queue and perform_prefill, Router/Worker a worker of PrefillFirstScheduler with
--               decode_step, cancellation and cleanup; Router/Streams is what the token queues hold,
--               Router/Sound that each step keeps it, Router/Conserved where the requests are, Router/Runs both along any run of a worker. The
--               engine's answers are the results of the server's model. Router/Engines is the choice of
--               an engine, Router/Metrics the active time of pace/server/router/metrics.py.
-- Definitions have the source's names in lower case with underscores; `__init__` is `init`.
--
-- How the state is modelled: a tensor is the list of its slices along the token dimension, or for
-- the paged tensors a function from slots to slices, and a slice is a value of any type.
-- Dictionaries are association lists. Exceptions are the constructors of `Kv.Error`, or of Config's
-- `Failure`. In the generator a cache is the list of its entries, a token with the position it was
-- computed at, and a model is any function from the entries it attends to to the token with the
-- largest logit. Search in the generator is greedy, as the speculative decoder demands: on the
-- sampler's fast path it takes the model's tokens, beside it penalties and filters are a parameter,
-- as they are in the server; a batch has one unpadded prompt, whose packing for the paged path is
-- the prompt itself, and the caches do not run out of room. The server has the same caches and
-- models; logits are named by the entries that they come from, a sampler beside the fast path draws
-- as it likes with the state of the random numbers passed along, and each call gets what
-- merge_contexts, the draft's pass or the model's step raise in it. Of the cache backend the
-- server's model keeps how many contexts are open. A request's id stands for its UUID and for the
-- string of it. A worker of the router is a record whose steps run between two awaits; its token
-- queues are the lists of what was put.
--
-- In SamplingConfig floating-point numbers and their comparisons are a parameter; the models that use
-- a config have a record with the fields that they read.
--
-- Fuel: the decode loop of `generate` takes a number of passes; a pass adds a token or more, so that
-- `max_new_tokens` passes are enough, the first of them being the prefill. Other loops are structural;
-- the server's decode calls take no fuel, and a theorem bounds how many of them empty its queue.
--
-- Not modelled: the attention kernels and models (floating point), the vendored vLLM kernels, of which
-- the documented behaviour of the cache write is used (slot -1 writes nothing), the slab cache, the
-- router's iterative scheduler and other statistics, the web services and model loading, the samplers'
-- filters (floating point), operators and graph passes, benchmarks and build files.
pub mod Common
pub mod Kv
pub mod Paged
pub mod Decoding
pub mod Server
pub mod Router
pub mod Config
