-- ===== src/Lib.antt =====
-- Verification of rtc_base, the base library of WebRTC in C++ and C.
--
-- The program's parts and the files about them (paths from the repository's root):
--
-- * The message queue of `rtc::Thread` (thread.cc, thread.h, thread_message.h). Posted messages wait
--   in a list, delayed ones in a priority queue; `Get` moves those whose time has come to the list,
--   hands out its first message and, when there is none, waits on the socket server, during which
--   other threads post, clear or quit.
--   Message: `Message` with `Match`. MessageQueue/Delayed: `DelayedMessage` with `operator<` and the
--   priority queue, as the list in the order of `pop`; the order of the vector inside, which `ClearInternal`
--   walks, comes as an argument. MessageQueue/State: the members of `Thread`
--   that make the queue, with `Post`, `PostDelayed`, `PostAt`, `DoDelayPost`, `Quit`, `Restart` and
--   `size`. MessageQueue/Clear: `ClearInternal`. MessageQueue/Calls: what other threads call.
--   MessageQueue/Get: `Get`, `Peek` and `GetDelay`. The lemmas stand in MessageQueue/Order (the
--   order of delayed messages), Container (the vector in any order), Due and Loop (one run of Get's inner loop, and the outer loop),
--   Removal (Clear), Delivery (what Get returns), Process (ProcessMessages), Backlog and Drained (ProcessMessages while quitting), Timeouts, Invariant (the order kept), Ownership
--   and Traffic (each message's data has one owner until it is deleted once), Tests.
--   Time is an integer of milliseconds without the bounds of int64_t; the number of a delayed message
--   is a uint32_t with wrap-around, and the timeout of a wait is cast to int. Clock, socket server and
--   other threads come as a list of waits. `Get` is recursive on that list, so that it needs no fuel;
--   when the list ends and `Get` still waits, the reply says so.
--
-- * `ThreadManager` (thread.cc, thread.h). ThreadManager/Manager: the list of message queues, with
--   `AddInternal`, `RemoveInternal` and `ClearInternal`. ThreadManager/Graph: which thread sends to which,
--   with `RegisterSendAndCheckForCycles` and `RemoveFromSendGraph` as a debug build has them. A
--   thread is a number. The loop over `all_targets` has fuel; Walk: enough of it on a graph without
--   cycles. Send and Remove: what the two operations do to the graph. ThreadManager/Tests: runs.
--
-- * `SwapQueue` (swap_queue.h). SwapQueue/Steps: `Insert`, `Remove` and `Clear` as a step relation of two
--   threads, in which each access to the count or to a slot is a step. Ring: places on the ring.
--   Invariant: where the elements stand between the steps. Refinement: one step against a bounded
--   queue. Runs: runs from the constructor on. SwapQueue/Tests: a run.
--
-- * `RateStatistics` (rate_statistics.cc, rate_statistics.h). RateStatistics/State: the ring of buckets with
--   the constructor, `Reset`, `Update`, `Rate`, `EraseOld`, `SetWindowSize` and `IsInitialized`. Log: the
--   samples as a list. Core: what the buckets hold, as such a list. Erase, Add: `EraseOld` and the new
--   sample. Samples, Resize, Answer: `Update`, `Reset` and `SetWindowSize`, `Rate` against the list.
--   RateStatistics/Tests: runs. The loop of `EraseOld` has as fuel the way to the new oldest time, which
--   each round makes shorter by one. The floating-point operations are a parameter. The theorems are about
--   clocks that are never negative.
--
-- * `BufferT` (buffer.h): a block of elements with a size and a capacity. Buffer/State: the members, with the
--   blocks that went back to the heap, and the operations; the allocator is a parameter. Block:
--   `IsConsistent` and accesses to a block. Growth: a new block. Contents: `AppendData`, `SetData`,
--   `SetSize` and `Clear`. Wipe and Release: `ZeroOnFreeBuffer`, and programs on two of them. Moves: constructor, `operator=`, `operator==`.
--   Buffer/Tests: runs.
--
-- * `BitBuffer` (bit_buffer.cc, bit_buffer.h): a position of bytes and bits in a byte array.
--   BitBuffer/Byte: the helpers on bytes, with what they compute by division and remainder (for a
--   byte checked on all values). BitBuffer/Stream: the bits of bytes as a list and the number of a
--   list of bits, the description that the code is compared with. BitBuffer/Reader: `PeekBits`,
--   `ReadBits`, `ConsumeBits`, `Seek` and the others that read. BitBuffer/Peek and Read: what they
--   compute. BitBuffer/Tests: runs. A read outside the array is a fault, an answer of its own; the loop
--   of `PeekBits` is recursive on the bytes, and `count_bits_loop` has fuel 64, the width of its word.
--   BitBuffer/Writer: `BitBufferWriter`, `WriteBits` and those that call it; none is undefined behaviour,
--   a write outside the array or a shift by the width of the word. BitBuffer/Field: the byte that
--   `WritePartialByte` leaves, and the shifts of the word. BitBuffer/Write: the loop. Overwrite: all of
--   `WriteBits`. RoundTrip: reading back. NonSymmetric, Golomb and SignedGolomb: the
--   codes, with NonSymmetricRead and NonSymmetricTrip for the non-symmetric one; Width,
--   Decode, GolombRoundTrip and GolombErrors are about the exponential Golomb codes. The loop over the zeros
--   of a code has the number of bits left and one as fuel, for each round takes a bit.
--
-- * `Random` (random.cc, random.h). Random: `NextOutput`, and `Rand` of uint32_t up to a bound or between
--   two, of int32_t and of bool, each with the next state. Random/Bounds, Signed: the range.
--   Random/Tests: runs.
--
-- * Tracing (trace_impl_c.c, trace_impl.h, trace.h). Trace/Streams: the registered streams and their filters,
--   `WriteToFile` with its wrap, `TraceInit` and `WebRtcTrace_Add`; a FILE is its bytes, a position and
--   whether it is open; `add` is given a line, and the line with the date. Settled, Wrap: many lines in one
--   file. Message: `AddTraceMessage`. Head: what `AddImpl` puts before a message, and `WebRtcTrace_Add` of a
--   message, given the time of day and the thread. Parts, Lines: the whole line. Dates: the line with the date.
--   Valid: which streams there are. Filters: their filters. Trace/Tests, LineTests: runs.
--
-- * Numeric conversions (numerics/). Numerics: a type of integers as its sign and size, `StaticRangeCheck`,
--   `RangeCheck`, `checked_cast` and `saturated_cast`. Range, Casts: what they return. Compare: the
--   comparisons as they are compiled, with the language's conversions, and `SafeClamp`. Numerics/Tests: runs.
--
-- * Reference counts (ref_counter.h, ref_counted_object.h, scoped_refptr.h). RefCount/Store: the counts of
--   objects. RefCount: the operations of `scoped_refptr` on a list of variables; access to a deleted object
--   has no result. Accounts: the counts against the references. RefCount/Tests: runs.
--
-- * Time (time_utils.cc, features/time_c_inl.h). Time: `TmToTime` and the arithmetic on `timespec`.
--   Time/Calendar: a calendar that counts years and months one by one. Conversion: `TmToTime` against it. Spec:
--   milliseconds and `timespec`. Time/Tests: runs. An int does not overflow, and clocks are given.
--
-- * Locks and checkers (critical_section.cc, race_checker.cc, synchronization/sequence_checker.cc). Locks:
--   `CriticalSection` of a debug build and `TryCritScope`; the record `System` is the mutex of the system, which is
--   recursive, with its laws. Critical: the calls against an abstract lock. Global: `GlobalLock`, with each
--   access to its word as a step of some thread. Checkers: `RaceChecker` and `SequenceChecker`, each call as one step.
--   Locks/Tests: runs, with a mutex that is its owner and depth.
--
-- * `Thread` (thread.cc, platform_thread.cc). Thread/Life: one thread from its constructor, which runs `DoInit`, to
--   its destructor, and the manager's slot of the current thread. Life/Sound: calls in any order. Thread/Send:
--   `Send` and the task that it posts, seen from the target; each send has a number, the handler of a
--   message only leaves a mark, and what happens at the target, and the looks and sleeps of senders, is a list of acts. Send/Reply, Served: when
--   the sender may return. Thread/Tests: runs.
--
-- * Events (event.cc). Event: `Set`, `Reset` and `Wait` on a mutex and a condition variable, as steps of
--   interleaved threads, each from one wait to the next. Signals: whom a signal lets through. Event/Tests: runs.
--
-- * Views (view.h). View: a view as an address and a size, its parts and its elements. View/Parts: the parts.
--   View/Tests: runs.
--
-- * The C shims (features/). ThreadC/Once: `call_once` as it is built for Windows, each access to the flag and
--   its lock as a step of some thread. Once/Runs: any schedule of any number of threads. Once/Tests: runs.
--
-- * Aligned memory (features/align_c.h, align_c_inl.h, memory/aligned_malloc.cc). Align: the macros on words of 64
--   bits, and `aligned_alloc` and `aligned_free` on a memory of bytes. Rounding: the macros. Blocks: where the
--   block lies, and that it is given back. Align/Tests: runs.
--
-- * `Optional` (features/optional.h). Optional: the flag and the storage, in which an object is or is not; the
--   operations, and programs on variables. Programs: against optional values. Optional/Tests: runs.
--
-- Common holds what the parts share: Boolean tests, lists over the native numbers, lists in two
-- parts (Split), selection from a list (Select), integers (Int), the words of bits
-- as sums of fields (Bits), masks (Masks), and places on a ring (Ring).
--
-- Left out: memory orders, and templates; the rest of
-- `rtc::Thread` (sleeping, names, socket servers, `AutoThread`); random floating-point numbers,
-- and the events of semaphores; checks, files and sockets, which are the system's.
pub mod Common
pub mod Message
pub mod MessageQueue
pub mod ThreadManager
pub mod SwapQueue
pub mod RateStatistics
pub mod Buffer
pub mod Trace
pub mod BitBuffer
pub mod Random
pub mod Numerics
pub mod RefCount
pub mod Time
pub mod Locks
pub mod Thread
pub mod Event
pub mod View
pub mod ThreadC
pub mod Align
pub mod Optional
