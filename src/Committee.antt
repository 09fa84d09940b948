-- ===== src/Committee.antt =====
-- committee/committee.go and committee/multisign.go: what a committee keeps beside its worker, with
-- VerifySignature of node/account.go. The recovery of a signer's address is a parameter, and the hash
-- of a beacon another. A VRF value is a list of bytes.
pub mod MultiSign
pub mod Schedule
pub mod States
pub mod Proofs
use less_chain.BeaconChain.{SignedTb}
use less_chain.Core.{
  Outcome, TimeBeacon, Transaction, blocked, ok, or_exit, or_panic, panicked, ◌>>=◌, ◌>>◌,
}
use less_chain.Pbft.{reply}
use less_chain.Prelude.{
  Bool, Bytes, List, Option, [], false, if◌then◌else◌, leb, length, ltb, none, not, some, true, ℕ,
  ◌%◌, ◌&&◌, ◌++◌, ◌+◌, ◌==◌, ◌∷◌,
}
use less_chain.Prelude.Int.{neg_part, pos, pos_part, ℤ, ◌-ℤ◌}
use less_chain.Tests.Data.{beacon}
use less_chain.TxPool.{
  TxPool, add_txs, empty, new_tx_pool, pending, set_pending, set_pending_rollback,
}

pub record MultiSignData : Type 0 where
  pub signers : List ℕ
  pub sigs : List ℕ
  pub vrf_values : List Bytes
  pub sign_tokens : ℕ

pub record MultiSignReply : Type 0 where
  pub seed : ℕ
  pub tb : TimeBeacon
  pub pub_address : ℕ
  pub sig : ℕ
  pub vrf_value : Bytes

pub record PoolTx : Type 0 where
  pub pool_pending : List Transaction
  pub pool_rollback : List Transaction

-- `oldTxPool`: nil, the same object as `txPool`, or an object of its own.
pub data OldPool : Type 0 where
  no_old shared_pool : OldPool
  kept_pool : TxPool → OldPool

-- `tx_pool` is nil until it is made.
pub record Committee : Type 0 where
  pub height2_reconfig : ℕ
  pub multi_sign_required_num : ℕ
  pub multi_sign_data : MultiSignData
  pub tx_pool : Option TxPool
  pub old_tx_pool : OldPool
  pub inject_not_done : ℤ
  pub tb_height : ℕ
  pub to_reconfig : Bool
  pub reconfig_seed_height : ℕ

pub new_committee : ℕ → ℕ → ℕ → Committee
new_committee client_cnt height2_reconfig required = record {
  height2_reconfig = height2_reconfig;
  multi_sign_required_num = required;
  multi_sign_data = record { signers = []; sigs = []; vrf_values = []; sign_tokens = 0 };
  tx_pool = none;
  old_tx_pool = no_old;
  inject_not_done = pos client_cnt;
  tb_height = 0;
  to_reconfig = false;
  reconfig_seed_height = 0;
}

-- A new pool takes the place of the current one, which `oldTxPool` may go on naming.
abbrev detach : OldPool → Option TxPool → OldPool
detach shared_pool (some pool) = kept_pool pool
detach shared_pool none = no_old
detach no_old pool = no_old
detach (kept_pool old) pool = kept_pool old

pub start_committee : Committee → Committee
start_committee c = record c {
  to_reconfig = false;
  tx_pool = some new_tx_pool;
  old_tx_pool = detach c.old_tx_pool c.tx_pool;
}

pub set_inject_tx_done : Committee → Committee
set_inject_tx_done c = record c { inject_not_done = c.inject_not_done -ℤ pos 1 }

pub com_can_stop_v2 : Committee → Bool
com_can_stop_v2 c = pos_part c.inject_not_done == 0 && neg_part c.inject_not_done == 0

pub com_can_stop_v1 : Committee → Outcome Bool
unfolding com_can_stop_v2
com_can_stop_v1 c =
    if com_can_stop_v2 c then (or_panic c.tx_pool >>= λ pool. ok (empty pool)) else ok false

-- `AddTBs`: a beacon block that is not newer is ignored; Go panics on a remainder by zero.
unfoldable pub com_add_tbs : ℕ → Committee → Outcome Committee
com_add_tbs height c =
    let raised = record c { tb_height = height } in
    if leb height c.tb_height
    then ok c
    else (if c.height2_reconfig == 0
        then panicked
        else ok (
            if height % c.height2_reconfig == 0
            then record raised { reconfig_seed_height = height; to_reconfig = true }
            else raised))

pub handle_client_sendtx : List Transaction → Committee → Committee
handle_client_sendtx txs c = elim c.tx_pool [
  | none ↦ c
  | some pool ↦ record c { tx_pool = some (add_txs txs pool) }
]

pub set_pool_tx : PoolTx → Committee → Committee
set_pool_tx pool_tx c =
    let pool : TxPool = elim c.tx_pool [ none ↦ new_tx_pool | some p ↦ p ] in
    record c {
      tx_pool =
          some (set_pending_rollback pool_tx.pool_rollback (set_pending pool_tx.pool_pending pool));
    }

pub set_old_tx_pool : Committee → Committee
set_old_tx_pool c = elim c.tx_pool [ none ↦ c | some pool ↦ record c { old_tx_pool = shared_pool } ]

abbrev pool_of : OldPool → Option TxPool → Outcome TxPool
pool_of no_old pool = panicked
pool_of shared_pool pool = or_panic pool
pool_of (kept_pool old) pool = ok old

pub handle_get_pool_tx : Committee → Outcome PoolTx
handle_get_pool_tx c = do
  pool ← pool_of c.old_tx_pool c.tx_pool
  ok (record { pool_pending = pool.pending; pool_rollback = pool.pending_rollback })

pub update_tb_chain_height : ℕ → Committee → Committee
update_tb_chain_height height c =
    if ltb c.tb_height height then record c { tb_height = height } else c

-- `initMultiSign`, before it waits for the replies, and the beacon that it returns after.
unfoldable pub init_multi_sign : Committee → Committee
init_multi_sign c = record c {
  multi_sign_data = record { signers = []; sigs = []; vrf_values = []; sign_tokens = 0 };
}

unfoldable pub signed_tb : TimeBeacon → ℕ → Committee → SignedTb
signed_tb tb height c = record {
  beacon = tb;
  seed_height = height;
  signers = c.multi_sign_data.signers;
  sigs = c.multi_sign_data.sigs;
  vrfs = c.multi_sign_data.vrf_values;
}

-- `val[0] >= 0` holds for every byte, and panics for an empty value.
unfoldable pub vrf_result_is_good : Bytes → Outcome Bool
vrf_result_is_good [] = panicked
vrf_result_is_good (v ∷ vs) = ok true

-- node/account.go: `VerifySignature`. Ecrecover, UnmarshalPubkey and PubkeyToAddress are together a
-- parameter, and `none` is an error of the first two, which ends the process.
unfoldable pub verify_signature : (ℕ → ℕ → Option ℕ) → ℕ → ℕ → ℕ → Outcome Bool
verify_signature recover msg_hash sig expected_addr = do
  recovered_addr ← or_exit (recover msg_hash sig)
  ok (recovered_addr == expected_addr)

module _ (hash : TimeBeacon → ℕ) (recover : ℕ → ℕ → Option ℕ) (seed_sig : Bytes → ℕ) where
  -- A reply whose three checks have passed.
  abbrev pub accept_reply : MultiSignReply → Committee → Outcome Committee
  accept_reply reply c =
      let d = c.multi_sign_data in
      let d' : MultiSignData = record {
        signers = d.signers ++ reply.pub_address ∷ [];
        sigs = d.sigs ++ reply.sig ∷ [];
        vrf_values = d.vrf_values ++ reply.vrf_value ∷ [];
        sign_tokens = d.sign_tokens;
      } in
      if length d'.sigs == c.multi_sign_required_num
      then (if leb 1 d.sign_tokens
          then blocked
          else ok (record c { multi_sign_data = record d' { sign_tokens = d.sign_tokens + 1 } }))
      else ok (record c { multi_sign_data = d' })

  unfoldable pub handle_multi_sign_reply : MultiSignReply → Committee → Outcome Committee
  unfolding vrf_result_is_good verify_signature
  handle_multi_sign_reply reply c =
      if leb c.multi_sign_required_num (length c.multi_sign_data.signers) then ok c else (do
        vrf_ok ← verify_signature recover reply.seed (seed_sig reply.vrf_value) reply.pub_address
        if not vrf_ok then ok c else (do
          good ← vrf_result_is_good reply.vrf_value
          if not good then ok c else (do
            sig_ok ← verify_signature recover (hash reply.tb) reply.sig reply.pub_address
            if not sig_ok then ok c else accept_reply reply c)))
