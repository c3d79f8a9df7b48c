-- ===== src/Lib.antt =====
-- gametrace captures network traffic of games, decodes it by plugins and shows what it means. This
-- library models the parts that hold its logic.
--
-- The parts, in the order in which data passes them:
-- * Framing is sdk/framing/framing.go. A plugin pushes TCP segments into a Reassembler and reads streams of
--   bytes. `Flow` has the state of one direction (flowState: place, drain, consume), `Reassembler` the map
--   from flows to states (Push, Bytes, Consume, Forget, Reset). The map's pointers are addresses in a heap,
--   since a Stream goes on pointing at a state that the map has let go. Numbers are uint32 and wrap. drain
--   loops on fuel, one more than there are parked segments, because a pass that goes on drops one.
-- * Rule is sdk/rule: predicates over an event's JSON (predicate.go), declared rules and their validation
--   (rule.go, issue.go), and their evaluation in two passes (evaluate.go). gjson and encoding/json are third
--   parties: the record `Gjson` has the queries that the code makes of them. Messages of issues are left
--   out.
-- * CheckRule is pkg/checkrule/checkrule.go, the rules by which a project is alerted; they hold a predicate
--   of Rule. CheckRule/Engine is cmd/gt-pipeline/check_hook.go, which runs them over a session's events: a
--   cooldown for each rule, a bounded queue to the worker, and sliding windows of past events. Seconds
--   become nanoseconds on int64, with its wrap-around.
-- * SemanticHook is cmd/gt-pipeline/semantic_hook.go, which writes to an event what Rule has found: `Pool`
--   pairs requests and responses, `Labels` writes names, labels and default roles to the meta values.
-- * Baseline is pkg/state/baseline.go, with the values and state changes of pkg/event (value.go,
--   value_conv.go, event.go, adapter.go) that it works on: `Value`, `Changes`, the store in memory (`Store`),
--   the parts of Apply (`Manager`) and Apply itself (`Apply`).
-- * Conn is cmd/gt-pipeline/conn_tracker.go, which names the connection of every packet; a packet is what
--   the tracker reads of pkg/event. Pending is cmd/gt-pipeline/pending_decode.go and the part of
--   capture_task.go (drainPending, feedDecode) that puts packets into a decoder's channel: the loops are on
--   fuel, one round for each packet that waits, and each round takes one out. ErrorCollector is
--   pkg/decode/errorcol.go, with the regular expressions and the hash as arguments.
-- * Lease is cmd/gt-pipeline/proxy_lease.go. Its calls give up their lock while processes and sockets are
--   waited for, so each is cut into steps there, and `Reach` has every interleaving of the steps of any
--   number of calls. allocate looks at as many ports as the range has.
-- * Authz is pkg/authz/authz.go, the policy that the servers ask before an operation; a Denial stands for
--   the error that Decide returns, its text left out.
-- * Spool is pkg/spool, the disk queue of an agent. `Frame` has the records of a segment file and the scan
--   that finds them again (scanSegment), with as much fuel as there are bytes; `Queue` has Append, Next,
--   AckN, Requeue and Close with the files' bytes in a map and the write handle's position, and `Retention`
--   EnforceRetention, which takes the order in which Go gives the keys of a map as an argument. A packet is
--   the bytes of proto.Marshal.
-- * Prelude has what the parts share: tests on numbers, lists, maps as association lists, strings.
--
-- Not modelled: the extraction of segments from captured frames (gopacket), the storage in SQLite, the
-- gRPC and HTTP services, process management, and the web client. Locks are left out: each operation is one
-- step.
pub mod Authz
pub mod Baseline
pub mod CheckRule
pub mod Conn
pub mod ErrorCollector
pub mod Framing
pub mod Lease
pub mod Pending
pub mod Prelude
pub mod Rule
pub mod SemanticHook
pub mod Spool
