-- ===== src/Lib.antt =====
-- LessChain is a sharded blockchain. Each shard keeps the account states and the blocks; a committee,
-- which is reassigned to shards over time, packs transactions into blocks and executes them on states
-- that the shard sends it; a beacon chain confirms the time beacons (block hashes) of all shards; and
-- clients inject transactions and carry transfers between shards: the first half is executed at the
-- sending shard, and once its beacon is confirmed the client sends the second half to the receiving
-- shard, or rolls the first half back if the receiving shard moved on for too long.
--
-- What models what, with paths from the repository's root:
--   Core: the data of core/transaction.go, core/msg.go, core/block.go, result/txStatus.go;
--     Core/Exit: how a call ends. The package-level log.Error ends the process (log/root.go), so a
--     branch that logs an error is an outcome of its own, as are panics and waiting for ever.
--   TxPool: committee/txpool.go (SetPending, SetPendingRollback, Reset, AddTxs, Pending,
--     getTxRelatedAddrs), a function of the same name in snake case for each operation.
--   Worker: committee/worker.go (executeTransactions, analyseStates, sendTXReceipt2Client) and
--     send2Client of committee/committee.go.
--   Shard: shard/shard.go and shard/msgHandler.go over an interface StateDb for go-ethereum's state
--     database, whose laws are that a write is read back and that nothing else changes;
--     Shard/Proving: the answer to a request for states with its Merkle proofs; Shard/CrossMessage:
--     shard/crossMessage.go, which nothing calls.
--   Client: client/client.go and client/get.go; Client/Send: client/send.go, whose injection loop is
--     the function inject_round for one turn.
--   BeaconChain: beaconChain/*.go on the simulation chain; BeaconChain/EthBlocks: the blocks that are
--     gathered from events of the Ethereum chain.
--   Committee: the other operations of committee/committee.go, and committee/multisign.go, with a
--     prefix com_ where another part has the same operation; Committee/States: getStatusFromShard
--     and committee/proof.go, with go-ethereum's VerifyProof as a parameter.
--   Result: the counts of result/result.go and result/txStatus.go.
--   Pbft: pbft/*.go, one node; Pbft/Run: the node under a list of messages; Pbft/OldSeq: the
--     exchange of old requests.
--   MessageHub: messageHub/send.go, messageHub/receive.go and messageHub/connMap.go: frames, the map
--     of connections and dialling; MessageHub/Handlers: the handlers and the switch;
--     MessageHub/Receive: the read loop; MessageHub/Send and MessageHub/Protocol: one function for
--     each sender, and Send of the hub as hub_send. A handler that the switch calls with a go
--     statement is a task that is started; run_task is what it does when it runs.
--   Node: node/reconfig.go, the collection of VRF results by the leaders; Node/Placement: the new
--     committees and the end of a reconfiguration, whose calls of other parts are actions that a
--     parameter performs: each may return, end the process, panic or wait for ever;
--     Node/Startup and Node/Booter: the start of the shards and HandleShardSendGenesis of
--     node/booter.go.
--   Data: data/dataprocess.go, with SetInitialAccountState of shard/shard.go.
--   Utils: the maps of addresses and VRF values to shards of utils/utils.go.
--   Prelude: numbers, lists, maps as association lists, integers, machine words.
--   Tests: concrete inputs, and the theorems applied to them.
--
-- Every operation is a function on an explicit state. Calls that hold their locks from start to end are
-- one step each; message sends are results of the call. Loops are recursions on the list that the code
-- walks. Two loops have fuel: the read loop of a connection, where the length of the stream is enough
-- since every round takes four bytes or more, and mustDial, which may dial for ever. Maps are
-- association lists: where Go's order of iteration is arbitrary the order of the list stands for any
-- one. `uint64` and `uint32` sums wrap at their width.
-- Hashes, RLP, signature recovery and the state database are parameters.
--
-- The network is a parameter that says which dials and writes go through; gob is one that says how a
-- message is encoded, of which only decoding after encoding is assumed; sort.Slice is one that orders.
--
-- Not modelled: the trie and its proofs (a copy of go-ethereum's, in trie), the Ethereum contract and
-- its websocket (eth_chain), listening and closing of sockets (messageHub/messageHub.go), key stores
-- (node/account.go, beside VerifySignature) and set-up (controller), opening and parsing CSV files,
-- the latency report and CSV output (result), timers and logging.
pub mod Prelude
pub mod Core
pub mod TxPool
pub mod Worker
pub mod Shard
pub mod Client
pub mod BeaconChain
pub mod Pbft
pub mod Committee
pub mod MessageHub
pub mod Utils
pub mod Data
pub mod Node
pub mod Result
pub mod Tests
