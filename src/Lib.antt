-- ===== src/Lib.antt =====
-- PoCX, a proof of capacity framework: the parts of its Rust code that decide what a plot holds, what a
-- proof is worth and who wins. A plotter fills files with nonces, a miner reads one scoop of each nonce
-- per block and submits the best quality, and a validator computes the same quality from the address,
-- the seed and the nonce alone. Miner and validator agree only if the code that generates, stores, reads
-- and hashes the nonces agrees byte by byte.
--
-- Base: native numbers, lists indexed by them, bytes and 32-bit words, counted loops.
-- Shabal: pocx_hashlib/src/shabal256.rs. Arrays of words are lists, a mutable array is a result.
--   Shabal.Hash has `shabal256` and `shabal256_lite`; the loop over the blocks recurs on their number.
-- Nonce: pocx_hashlib/src/noncegen_common.rs, and in Nonce.Generate noncegen_32.rs and
--   noncegen_batch_32.rs. A copy of 4 bytes is `copy_word`, the three nested loops of
--   `unpack_shuffle_scatter` are `for_range`, and the loops downwards are `rounds_down` with the number
--   of their rounds. Nonce.Chain states the plot format without buffers: a chain of hashes of messages.
-- Quality: pocx_hashlib/src/quality_32.rs and the portable paths of pocx_hashlib/src/lib.rs.
--   Quality.Outcome has the results of the entry points, Quality.Layers the compressed scoop by the rules.
-- Validation: pocx_hashlib/src/batch_validation.rs through its scalar path. The threads of a batch share
--   accumulators behind mutexes, so a run is an interleaving of the work of the threads
--   (Base.Interleave), and the order of accumulation is an argument of `validate_proofs`. A vector that would exceed
--   `isize::MAX` bytes is a panic, `none`; how much more than is needed a vector reserves is not said of
--   it, so batches are kept below 2^55 units, where no growth comes near that limit.
-- TimeBending: pocx_aggregator/src/time_bending.rs. A `BigUint` is a number, a division by zero is
--   `none`. The loops of the cube root recur on fuel: 256 rounds suffice below 2^768, the callers
--   stay below 2^190.
-- Plotfile: pocx_plotfile/src/lib.rs, the offsets, the read of a nonce, the resume marker and the write of a
--   buffer (Plotfile.Write) of an open file, which is its bytes. Plotfile.Read says what a read returns,
--   Plotfile.Store says what a written buffer leaves in the file.
-- BestQueue: pocx_aggregator/src/queue/global_best_queue.rs, the filter of submissions in wallet mode. Its
--   locks make the calls of `submit` a sequence; the channel is the list of what was sent.
-- Plotter: pocx_plotter_v2/src/cpu_hasher.rs and cpu_compressor.rs. Threads of a pool write disjoint
--   parts of a buffer, so each is one step, and the order of the steps is an argument (Base.Loops has
--   the orders in which every step is taken once).
-- Scheduler: pocx_plotter_v2/src/cpu_scheduler.rs, the thread that uses Plotter. Its variables are the
--   record `Scheduler`, one round of its loop is `round`, what it does before and after the loop is
--   `begin` (Scheduler.Start) and `after_loop`. What the outside does in a round (a stop, an empty write buffer
--   or a closed channel, a writer that is gone, the orders of the pool) is a `Round`, random seeds are a
--   sequence, and what is sent is a list, the newest first. The loop recurs on the list of rounds.
--   Scheduler.Progress says what a writer is owed without the scheduler's counters; Scheduler.Invariant is
--   the invariant of the loop, Hashing, Passes, Flush, HandOver and Rounds show that a round keeps it,
--   Start to Begin that it holds at first, Delivery and Complete what follows; Work measures the loop.
--   Scheduler.Stored follows a write buffer into the plot file, Scheduler.Mined to the one who reads it.
--
-- Bounds: bytes are numbers, which theorems ask to be below 256, words are below 2^32. Arithmetic on
-- `u32` and `u64` is written with its wrap-around; sizes and offsets of buffers are numbers without one.
--
-- Not modelled: the vector code of pocx_hashlib (processor intrinsics), network, disk, database and
-- OpenCL code, serialisation that serde derives, command lines and logging.
pub mod Base
pub mod BestQueue
pub mod Nonce
pub mod Plotfile
pub mod Plotter
pub mod Quality
pub mod Scheduler
pub mod Shabal
pub mod TimeBending
pub mod Validation
