-- ===== src/Client/Send.antt =====
-- client/send.go: what one second of injection sends to the committees.
pub mod Routing
use less_chain.Client.{Client, can_stop_v1, can_stop_v2, tx_of}
use less_chain.Core.{
  Outcome, Transaction, cross_tx_type1, default_status, intra_tx_type, ok, panicked,
  rollback_tx_type, ◌>>=◌, ◌>>◌,
}
use less_chain.Prelude.{
  Bool, List, [], drop, if◌then◌else◌, length, map, min, not, replicate, suc, take, true, zero, ℕ,
  ◌&&◌, ◌++◌, ◌+◌, ◌-◌, ◌==◌, ◌||◌, ◌∷◌,
}
use less_chain.Prelude.Dict.{Dict, insert}

-- `shardtxs[sid] = append(shardtxs[sid], tx)`
pub append_at : ℕ → Transaction → List (List Transaction) → Outcome (List (List Transaction))
append_at sid tx [] = panicked
append_at zero tx (txs ∷ rest) = ok ((txs ++ tx ∷ []) ∷ rest)
append_at (suc sid) tx (txs ∷ rest) = append_at sid tx rest >>= λ rest'. ok (txs ∷ rest')

-- The rollback of an expired transfer is a copy of the client's own transaction.
pub rollback_of : Transaction → Transaction
rollback_of tx = record tx { tx_type = rollback_tx_type; tx_status = default_status }

pub collect_rollbacks :
    List ℕ → Client → List (List Transaction) → Outcome (List (List Transaction))
unfolding append_at tx_of rollback_of
collect_rollbacks [] c shard_txs = ok shard_txs
collect_rollbacks (id ∷ ids) c shard_txs = do
  tx ← tx_of id c
  shard_txs' ← append_at tx.sender_sid (rollback_of tx) shard_txs
  collect_rollbacks ids c shard_txs'

-- The number of transactions sent, and one list for each shard; no list if nothing is sent.
pub send_rollback_txs : ℕ → Client → Outcome ((ℕ × List (List Transaction)) × Client)
unfolding collect_rollbacks
send_rollback_txs most c =
    let n = min most (length c.cross_tx_expired) in
    if n == 0
    then ok ((0, []), c)
    else collect_rollbacks (take n c.cross_tx_expired) c (replicate c.shard_num []) >>= λ shard_txs.
        ok ((n, shard_txs), record c { cross_tx_expired = drop n c.cross_tx_expired })

pub collect_cross2 : List Transaction → List (List Transaction) → Outcome (List (List Transaction))
unfolding append_at
collect_cross2 [] shard_txs = ok shard_txs
collect_cross2 (tx ∷ txs) shard_txs = append_at tx.recipient_sid tx shard_txs >>= collect_cross2 txs

pub send_cross2_txs : ℕ → Client → Outcome ((ℕ × List (List Transaction)) × Client)
unfolding collect_cross2
send_cross2_txs most c =
    let n = min most (length c.cross2_txs) in
    if n == 0
    then ok ((0, []), c)
    else collect_cross2 (take n c.cross2_txs) (replicate c.shard_num []) >>= λ shard_txs.
        ok ((n, shard_txs), record c { cross2_txs = drop n c.cross2_txs })

-- The fields that injection sets on the shared transaction.
pub injected : ℕ → ℕ → Transaction → Transaction
injected now cid tx = record tx {
  tx_type = if tx.sender_sid == tx.recipient_sid then intra_tx_type else cross_tx_type1;
  timestamp = now;
  cid = cid;
}

-- The lists per shard, and the broadcast times by id.
pub collect_pending :
    List Transaction → List (List Transaction) → Dict ℕ → Outcome (List (List Transaction) × Dict ℕ)
unfolding append_at
collect_pending [] shard_txs times = ok (shard_txs, times)
collect_pending (tx ∷ txs) shard_txs times = do
  shard_txs' ← append_at tx.sender_sid tx shard_txs
  collect_pending txs shard_txs' (insert tx.id tx.timestamp times)

-- `sendPendingTxs`, which the loop of `InjectTXs` gives `c.injectCnt` and whose result it stores there.
pub send_pending_txs :
    ℕ → ℕ → Dict ℕ → Client → Outcome ((List (List Transaction) × Dict ℕ) × Client)
unfolding collect_pending injected
send_pending_txs now most times c =
    if most == 0
    then ok (([], times), c)
    else (let bound = min (c.inject_cnt + most) (length c.txs) in
        let fresh =
          map (injected now c.cid) (take (bound - c.inject_cnt) (drop c.inject_cnt c.txs)) in
        collect_pending fresh (replicate c.shard_num []) times >>= λ r. ok (
          r,
          record c {
            txs = take c.inject_cnt c.txs ++ fresh ++ drop bound c.txs;
            inject_cnt = bound;
          },
        ))

pub data Progress : Type 0 where
  go_on stop : Progress

-- What one round sends: three batches of lists, and whether it announces the end of the injection.
pub record Sent : Type 0 where
  pub rollbacks : List (List Transaction)
  pub cross2 : List (List Transaction)
  pub fresh : List (List Transaction)
  pub done_msg : Bool
  pub times : Dict ℕ

-- One round of the loop of `InjectTXs`, at a given speed.
pub inject_round : ℕ → ℕ → Dict ℕ → Client → Outcome ((Sent × Progress) × Client)
unfolding send_rollback_txs send_cross2_txs send_pending_txs can_stop_v1 can_stop_v2
inject_round now speed times c0 = do
  ((n, rollbacks), c1) ← send_rollback_txs speed c0
  ((m, cross2), c2) ← send_cross2_txs (speed - n) c1
  ((fresh, times'), c3) ← send_pending_txs now (speed - n - m) times c2
  let announce = can_stop_v2 c3 && not c3.inject_done_msg_sent
  let c4 = if announce then record c3 { inject_done_msg_sent = true } else c3
  let sent : Sent = record {
    rollbacks = rollbacks;
    cross2 = cross2;
    fresh = fresh;
    done_msg = announce;
    times = times';
  }
  let leave = (announce && c4.exit_mode == 1) || can_stop_v1 c4
  ok ((sent, if leave then stop else go_on), c4)
