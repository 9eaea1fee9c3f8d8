-- ===== src/Lib.antt =====
-- Verification of the neon-rs workspace: the log pipeline of crates/neon-log, the symmetric
-- ciphers of crates/neon-crypto, the nacos configuration of crates/neon-config, trees, signing
-- strings and remote archives of crates/neon-helper, and the lock and the cache helpers of
-- crates/neon-redis.
--
-- The log pipeline (crates/neon-log/src/sls): a tracing layer turns events into records and routes
-- them by level to sinks; each sink has a bounded queue and a worker that batches records, sends
-- batches concurrently with retries, and drains itself at shutdown.
--   Sls.Config, Sls.Counters, Sls.Batch, Sls.Backoff  `SlsConfig`, `DropCounters`, `Batch`, the delays
--   Sls.Queue         `SinkQueue` and `SlsSink::enqueue`; Sls.Queue.Close has the same code one
--                     atomic operation at a time, interleaved with `close`
--   Sls.Send          `send_with_retry`: a turn of its loop per element of a script
--   Sls.Pipeline      `spawn_flush`, `push_or_drop`, `drain_into_buf` and the tasks in flight
--   Sls.Worker        `run_pipeline`: the main loop as a list of events, then the shutdown sequence
--   Sls.Layer         `SlsLayerBuilder` and the routing table; below it field keys (Fields), span
--                     fields (Spans) and events (Event) of layer.rs
-- The ciphers (crates/neon-crypto/src):
--   Crypto.Padding    `pkcs7_padding`, `pkcs7_unpadding`, `CipherText` of lib.rs
--   Crypto.Cipher     the interface of the cipher crates, with the laws that they document
--   Crypto.Aes, Crypto.Des  the wrappers of aes.rs and des.rs; Crypto.Aes.Gcm has GCM
-- The nacos configuration (crates/neon-config/src/nacos): configuration from a local file or from
-- nacos, which pushes changes that a worker merges and publishes.
--   Nacos.Format, Nacos.Source  env.rs, format.rs, error.rs, and `NacosSource` with `validate`
--   Nacos.Client      the client that `build_remote` asks for
--   Nacos.Reload      `merge_configs` over the parser as a parameter, `ReloadListener`, `apply_batch`
--   Nacos.Worker      `run_reload_worker` interleaved with the calls of `notify`
--   Nacos.Build       `ConfigBuilder`, `build_local`, `build_remote`, `NacosConfig`, `shutdown`
-- The helpers (crates/neon-helper/src):
--   Helper.Tree       `new_tree` of tree.rs
--   Helper.Sign       `SignMap` of sign.rs
--   Helper.Zip        httpzip.rs: the directory's parsing, `RemoteArchive::open` (Remote) and
--                     `ArchiveEntry::open` (Entry)
-- Redis (crates/neon-redis/src):
--   Redis.Lock        `RedLock` of redlock.rs over an interface of the server
--   Redis.Kit         the helpers of redkit.rs over an interface of the connection
-- Base has what these share: numbers, lists, text as code points, association lists, results.
--
-- What the clock, the network, the runtime and other threads do is an argument: a script of
-- attempts, a wait with the tasks that end while it lasts, a list of events. The theorems hold for
-- all of them. Counters wrap at 2^64 and the attempt number at 2^32, as in the source; where a
-- theorem needs that they do not wrap, it says so. The search for a free key suffix runs on fuel,
-- one more than the number of keys seen; that this is enough is part of the theorem on events.
-- `new_tree` recurs on fuel, one more than the number of parents, and the theorem on it says that
-- it returns. The loops over a ZIP directory run on fuel, one more than the number of its bytes;
-- the theorem on opening an archive includes that it is enough. Loops over scripts and queues are
-- structural.
--
-- Not modelled: responses of nacos that arrive while `build_remote` registers its listeners; the
-- encoding of log groups and the SDK, thread and runtime start, the guard's joins, the refresh of
-- credentials and printing in crates/neon-log; the typed getters of `NacosConfig`, which call the
-- config crate; coordinates, time zones, forms and sizes of neon-helper, the request for an
-- archive's size and the inflating of its entries; neon-sql, neon-macros and neon-core; the
-- release of a lock on drop and the clients of neon-redis; hash.rs and rsa.rs of neon-crypto,
-- which call other crates.
pub mod Base
pub mod Sls
pub mod Crypto
pub mod Helper
pub mod Nacos
pub mod Redis
