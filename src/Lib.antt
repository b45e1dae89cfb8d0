-- ===== src/Lib.antt =====
-- galay-utils is a header-only C++ library of independent parts. This library models some of
-- them, one module each: CircuitBreaker is galay-utils/tool/circuit_breaker.hpp
-- (`BasicCircuitBreaker`), RingBuffer is galay-utils/cache/ring_buffer.hpp (`RingBuffer`),
-- Base64 is galay-utils/encoding/base64.hpp (`Base64Util`), Mvcc is
-- galay-utils/algorithm/mvcc.hpp (`Mvcc`, `Snapshot`, `Transaction`). Balancer is
-- galay-utils/tool/balancer.hpp and balancer.inl (the four load balancers), RateLimiter is
-- galay-utils/tool/rate_limiter.hpp (semaphore, sliding window, token and leaky bucket), Trie
-- is galay-utils/algorithm/trie.hpp (`TrieTree`), LruCache is galay-utils/cache/lru_cache.hpp
-- (`LruCache`), Huffman is galay-utils/algorithm/huffman.hpp (`HuffmanTable`, `HuffmanEncoder`,
-- `HuffmanDecoder`, `HuffmanBuilder`), ConsistentHash is
-- galay-utils/algorithm/consistent_hash.hpp (`ConsistentHash`), over any hash function,
-- ByteQueue is galay-utils/cache/byte_queue_view.hpp (`ByteQueueView`), ObjectPool is
-- galay-utils/tool/pool.hpp (`ObjectPool`). Prelude holds the shared helpers: tests on numbers,
-- lists by position, arrays as functions of an index, 64-bit words and signed numbers. The
-- parts do not call each other.
--
-- The state of each class is a record with the class's members, and each method a function
-- under the method's name in lower case that takes its arguments, the old state, and returns
-- the new state with the result. Reading a clock is an argument of the method. The times of the
-- cache are their signed ticks greater by 2 ^ 63 and its durations are in two's complement, so
-- that their sum wraps at 64 bits, where C++ leaves an overflow undefined. Unsigned 64-bit
-- counters keep their wrap-around (`% 2 ^ 64`); where a theorem needs that they do not wrap, it
-- says so. A pointer that may be null is an option, a thrown exception a constructor of the
-- result.
--
-- Every model takes a method call as one step: Mvcc holds its lock for the whole call (but for
-- `getCurrentValue`, which reads the version counter before it locks; a write between the two
-- is not modelled), a ring buffer has one thread, and of the circuit breaker and the rate
-- limiters, whose members are atomic variables, this gives the behaviour of calls that do not
-- overlap. Loops over positions are recursion over the list of what is left. The line breaking
-- of Base64 recurses on fuel; the length of the text is enough, since each round takes at least
-- one character, and the round trip theorem of the line formats includes this. The loops of
-- `enforceCapacity` and `clear` of the cache have the number of entries as fuel, since each
-- round erases one, joining the trees of the Huffman builder has the number of symbols, and
-- `appendBits` the number of its bits. All other loops are structural recursion.
--
-- Not modelled: what only calls the operating system (processes, signals, threads, clocks,
-- random devices), the hash functions and ciphers of galay-utils/crypto, byte strings of
-- galay-utils/cache, the other containers of galay-utils/algorithm (bloom_filter), the blocking
-- object pool, the configuration parsers, the command line, strings, and time formatting.
pub mod Prelude
pub mod CircuitBreaker
pub mod RingBuffer
pub mod Base64
pub mod Mvcc
pub mod Balancer
pub mod RateLimiter
pub mod Trie
pub mod Huffman
pub mod LruCache
pub mod ConsistentHash
pub mod ByteQueue
pub mod ObjectPool
