-- ===== src/Lib.antt =====
-- A PKCS#11 module that only makes random numbers (crates/p11rand), from a pool of smart cards
-- and Infinite Noise devices (crates/p11rand-core). The module publishes one slot; a session on
-- it owns a pool; C_GenerateRandom reads from that pool. A pool holds one source in each slot.
-- With one source and no oversampling its bytes are passed on; else each round of 32 bytes is
-- SHA3-256 of the chain state and of what all sources gave, and moves the chain on. A source
-- that fails is replaced by another device of its kind.
--
-- Host: all that lies outside. The pcsc crate, the kernel's files, the sha3 crate and the thread
-- scheduler are the record `Host`, an instance argument of every definition that uses them; what
-- the theorems assume of them stands in KernelLaws, DigestLaws and ListLaws. The process-wide
-- `Global` of crates/p11rand-core/src/iso7816.rs is there too. Base has the shared helpers:
-- lists over native numbers, Rust's Result with state, the loop that fills a caller's slice
-- (Base/Fill) and its rule.
--
-- Config: `Config` of crates/p11rand-core/src/pool.rs, each method a function of the same name;
-- Config/Valid says when it is valid. Build: the guards of crates/p11rand/build.rs. Iso7816:
-- crates/p11rand-core/src/iso7816.rs up to `probe_app` and the connection; Iso7816/Source is
-- `open` (as open_reader), `Source::read` and `read_atr`. Infnoise:
-- crates/p11rand-core/src/infnoise.rs.
--
-- Pool: the slots of crates/p11rand-core/src/pool.rs. Pool/Open is `fillable` and `Pool::open`
-- (as open_pool), Pool/Rebind `rebind`, Pool/Round `do_round_chain`, Pool/Read `Pool::read`. The
-- workers of a tick run one after another in an order that the scheduler gives: each has a slot
-- of its own, so only the order of their exchanges is open. The children below these hold the
-- proofs: Coherent, Distinct (a slot's parts agree; no device twice), Safe, Fetched (where the
-- bytes of a round come from), Workers, Absorb, Ticks, Owed, Chain (a round), Stream and Raw (a
-- read), Claimed and Opened (opening).
--
-- Pkcs11: the state of crates/p11rand/src/lib.rs. Pkcs11/Lifecycle, Pkcs11/Slots and
-- Pkcs11/Sessions have the entry points, C_OpenSession as c_open_session and so on; each gives
-- the code, the caller's memory and the module after it, and is one step, as the code holds its
-- mutex throughout. A null pointer is `none`. The memory at a buffer's address is at least as
-- long as the length that is passed: that is the caller's contract. Pkcs11/Interfaces is the
-- interface discovery. Pkcs11/Reach is the machine of all calls; Ready has its invariant, Keeps,
-- SlotKeeps and SessionKeeps that the calls keep it.
--
-- Numbers are unbounded: the code's usize values are sizes of buffers and build constants.
-- CK_ULONG and usize have the same width on the targets. Return codes are constructors; of the
-- flags of a session the two bits that are tested are told apart. Loops over lists are
-- structural. The loops that fill a slice run on fuel, each one more than a number that falls at
-- every turn: for a card the bytes to go and the chunk, for a device the bytes to go and the
-- signals still to come, for the rounds the bytes to go.
--
-- Pkcs11/Functions has the two function lists, the stubs in them and C_GetFunctionList. Debug is
-- crates/p11rand-core/src/debug.rs: a call of `enabled` is a row of steps with one access to an
-- atomic each, and the calls of several threads interleave. Debug/Phased and Debug/Steady have
-- the proofs.
--
-- Tools: crates/p11rand-tools. What a tool stands on is the record `Machine`: the loaded module
-- behind its function pointers, stdout, /dev/random, a clock, the signals that have arrived, and
-- f64. A tool is a `Flow`, which changes the state of a run and may end the process: `main`
-- returns, or `exit` is called, or, in the model only, a loop is out of fuel. Once the handler
-- is installed, signals may arrive before any step: a call of the module, a sleep, a look at the
-- clock or the counter, a request to /dev/random, a `write_full` or `write_hex`. Tools/Args has
-- the loop over the arguments, Tools/Connect the way to a session that two tools share,
-- Tools/Write the output, Tools/Trim `trim_pkcs11`; Tools/ReadTool, Tools/SeedTool,
-- Tools/WaitTool, Tools/TestTool and Tools/ListTool are the programs in
-- crates/p11rand-tools/src/bin. Tools/P11rand puts the module of Pkcs11 behind the function
-- pointers. Tools/Protocol has the phases of a module and the rules by which a flow moves
-- through them; Finished, ReadEnds, SeedEnds and WaitEnds apply them, Clean draws the conclusion
-- for this module. Tools/Steps has the rules for loops that only the second signal can cut
-- short, which Handed, Dealt, Delivering and Waited use. Tools/Asking has the same kind of rules
-- for what happens to the world outside the module, with Approach, Requests and Requesting for
-- p11rand-seed; Asked puts a record of all events into the machine. Sent and Hex are about the
-- output, Parsed, Reading and Parsing about the command lines, Tallied and Inventory about
-- p11rand-list.
--
-- The loops of p11rand-read, p11rand-seed and p11rand-wait run on fuel, one for each turn; where
-- they must end by themselves, enough fuel is proved to be enough. The byte count of an
-- open-ended stream is unbounded.
--
-- Not modelled: messages on stderr and headings, panics and poisoned locks, wiping of scratch
-- buffers, the decoding of bytes as UTF-8, the system calls that install a signal handler,
-- signals before that, and the environment and the output of crates/p11rand/build.rs. Examples
-- is a small world in which all the laws hold, and runs of the theorems in it.
pub mod Base
pub mod Host
pub mod Config
pub mod Build
pub mod Iso7816
pub mod Infnoise
pub mod Pool
pub mod Pkcs11
pub mod Debug
pub mod Tools
pub mod Examples
