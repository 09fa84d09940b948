-- ===== src/Shard.antt =====
-- shard/shard.go and shard/msgHandler.go. go-ethereum's StateDB is a parameter with the behaviour
-- that its documentation states: a write is read back, other accounts keep their values, and
-- creating, finalising or committing changes no value. So is the RLP code of an account.
pub mod Agreement
pub mod Handover
pub mod Acceptance
pub mod Proving
pub mod CrossMessage
use less_chain.Core.{
  Block, Outcome, Transaction, TxType, cross_tx_type1, cross_tx_type2, exit_if, exited,
  intra_tx_type, ok, or_exit, panicked, rollback_tx_type, undefined_tx_type, ◌>>=◌, ◌>>◌,
}
use less_chain.Prelude.{
  Bytes, List, Option, [], add64, drop, if◌then◌else◌, length, min, not, sub64, ℕ, ◌%◌, ◌++◌, ◌+◌,
  ◌-◌, ◌==◌, ◌∷◌, ◌≡◌,
}
use less_chain.Prelude.Dict.{Dict, get_or, insert}
use less_chain.Prelude.Int.{ℤ, ◌+ℤ◌, ◌-ℤ◌}
use less_chain.Worker.{Account}

pub record StateDb : Type 1 where
  pub State : Type 0
  pub get_nonce : State → ℕ → ℕ
  pub get_balance : State → ℕ → ℤ
  pub set_nonce : ℕ → ℕ → State → State
  pub add_balance : ℕ → ℤ → State → State
  pub sub_balance : ℕ → ℤ → State → State
  pub get_or_new_state_object : ℕ → State → State
  pub intermediate_root : State → ℕ
  pub finalise : State → State
  pub nonce-set_nonce :
      (a n b : ℕ) (s : State)
      → get_nonce (set_nonce a n s) b ≡ (if a == b then n else get_nonce s b)
  pub nonce-add_balance :
      (a b : ℕ) (v : ℤ) (s : State) → get_nonce (add_balance a v s) b ≡ get_nonce s b
  pub nonce-sub_balance :
      (a b : ℕ) (v : ℤ) (s : State) → get_nonce (sub_balance a v s) b ≡ get_nonce s b
  pub balance-set_nonce :
      (a n b : ℕ) (s : State) → get_balance (set_nonce a n s) b ≡ get_balance s b
  pub balance-add_balance :
      (a b : ℕ) (v : ℤ) (s : State)
      → get_balance (add_balance a v s) b
        ≡ (if a == b then get_balance s b +ℤ v else get_balance s b)
  pub balance-sub_balance :
      (a b : ℕ) (v : ℤ) (s : State)
      → get_balance (sub_balance a v s) b
        ≡ (if a == b then get_balance s b -ℤ v else get_balance s b)
  pub nonce-new : (a b : ℕ) (s : State) → get_nonce (get_or_new_state_object a s) b ≡ get_nonce s b
  pub balance-new :
      (a b : ℕ) (s : State) → get_balance (get_or_new_state_object a s) b ≡ get_balance s b
  pub nonce-finalise : (a : ℕ) (s : State) → get_nonce (finalise s) a ≡ get_nonce s a
  pub balance-finalise : (a : ℕ) (s : State) → get_balance (finalise s) a ≡ get_balance s a

pub record ShardSendState : Type 0 where
  pub status_trie_hash : ℕ
  pub account_data : Dict Bytes
  pub height : ℕ

pub data SyncType : Type 0 where
  fast_sync tmpt_sync full_sync unknown_sync : SyncType

pub record SyncData : Type 0 where
  pub client_addr : ℕ
  pub states : Dict Account
  pub blocks : List Block

-- `m[addr] += 1`
abbrev pub count_one : ℕ → Dict ℕ → Dict ℕ
count_one a m = insert a (get_or a 0 m + 1) m

abbrev count_tx : Transaction → Dict ℕ → Dict ℕ
count_tx tx m = count_one tx.recipient (count_one tx.sender m)

-- shard/msgHandler.go: `emptyRoot`.
abbrev pub empty_root : ℕ
empty_root = 0x56e81f171bcc55a6ff8345e692c0f86e5b48e01b996cadc001622fb5e363b421

module _ (db : StateDb) (empty_code_hash : ℕ) (encode : Account → Option Bytes) where
  open db use {
    State, get_nonce, get_balance, set_nonce, add_balance, sub_balance, get_or_new_state_object,
    intermediate_root, finalise,
  }

  pub record Shard : Type 0 where
    pub state_db : State
    pub current_block : Block
    pub blocks : List Block
    pub active_addrs : Dict ℕ
    pub tmpt_active_addrs : Dict ℕ
    pub height2_reconfig : ℕ
    pub tbchain_height : ℕ
    pub fastsync_block_num : ℕ

  -- core/blockchain.go: `WriteBlock`
  unfoldable pub add_block : Block → Shard → Shard
  add_block block s = record s { current_block = block; blocks = s.blocks ++ block ∷ [] }

  abbrev pub pay : Transaction → State → State
  pay tx st =
      sub_balance tx.sender tx.value (set_nonce tx.sender (add64 (get_nonce st tx.sender) 1) st)

  abbrev pub state_by_type : TxType → Transaction → State → Outcome State
  state_by_type undefined_tx_type tx st = exited
  state_by_type intra_tx_type tx st = ok (add_balance tx.recipient tx.value (pay tx st))
  state_by_type cross_tx_type1 tx st = ok (pay tx st)
  state_by_type cross_tx_type2 tx st = ok (add_balance tx.recipient tx.value st)
  state_by_type rollback_tx_type tx st =
      ok
        (add_balance tx.sender tx.value (set_nonce tx.sender (sub64 (get_nonce st tx.sender) 1) st))

  unfoldable pub execute_transaction : Transaction → State → Outcome State
  execute_transaction tx st = state_by_type tx.tx_type tx st

  abbrev pub count_addrs : Transaction → Shard → Shard
  count_addrs tx s = record s {
    active_addrs = count_tx tx s.active_addrs;
    tmpt_active_addrs = count_tx tx s.tmpt_active_addrs;
  }

  unfoldable pub execute_each : List Transaction → Shard → Outcome Shard
  unfolding execute_transaction
  execute_each [] s = ok s
  execute_each (tx ∷ txs) s = do
    st ← execute_transaction tx s.state_db
    execute_each txs (count_addrs tx (record s { state_db = st }))

  -- `executeTransactions`: the root, after `IntermediateRoot` and `Commit`.
  unfoldable pub execute_transactions : List Transaction → Shard → Outcome (ℕ × Shard)
  unfolding execute_each
  execute_transactions txs s = do
    s' ← execute_each txs s
    ok (intermediate_root s'.state_db, record s' { state_db = finalise s'.state_db })

  -- Go panics on a remainder by zero.
  abbrev reset_active : Shard → Outcome Shard
  reset_active s =
      if s.height2_reconfig == 0
      then panicked
      else (if s.tbchain_height % s.height2_reconfig == 1
          then ok (record s { tmpt_active_addrs = [] })
          else ok s)

  -- A root that differs from the one in the block is an error that ends the process.
  unfoldable pub handle_com_send_block : Block → Shard → Outcome Shard
  unfolding add_block execute_transactions
  handle_com_send_block block s = do
    s' ← reset_active (add_block block s)
    (root, s'') ← execute_transactions block.transactions s'
    exit_if (not (root == block.header.root))
    ok s''

  unfoldable pub handle_com_get_height : Shard → ℕ
  handle_com_get_height s = s.current_block.header.number

  unfoldable pub new_objects : List ℕ → State → State
  new_objects [] st = st
  new_objects (a ∷ addrs) st = new_objects addrs (get_or_new_state_object a st)

  abbrev pub account_of : State → ℕ → Account
  account_of st a = record {
    nonce = get_nonce st a;
    balance = get_balance st a;
    root = empty_root;
    code_hash = empty_code_hash;
  }

  -- An account that RLP cannot encode, as one with a negative balance, ends the process.
  encode_accounts : State → List ℕ → Dict Bytes → Outcome (Dict Bytes)
  encode_accounts st [] m = ok m
  encode_accounts st (a ∷ addrs) m =
      or_exit (encode (account_of st a)) >>= λ enc. encode_accounts st addrs (insert a enc m)

  -- The Merkle proofs of the response are added by `send_proven_state`.
  unfoldable pub handle_com_get_state : List ℕ → Shard → Outcome (ShardSendState × Shard)
  unfolding new_objects encode_accounts handle_com_get_height
  handle_com_get_state addrs s =
      let st = new_objects addrs s.state_db in
      let root = intermediate_root st in
      let st' = finalise st in
      encode_accounts st' addrs [] >>= λ data_of. ok (
        record {
          status_trie_hash = root;
          account_data = data_of;
          height = handle_com_get_height s;
        },
        record s { state_db = st' },
      )

  states_of : State → Dict ℕ → Dict Account → Dict Account
  states_of st [] m = m
  states_of st ((a, n) ∷ addrs) m = states_of st addrs (insert a (account_of st a) m)

  abbrev last_blocks : ℕ → List Block → List Block
  last_blocks n blocks = drop (length blocks - min (length blocks) n) blocks

  abbrev sync_by_type : SyncType → ℕ → Shard → Outcome SyncData
  sync_by_type fast_sync addr s = ok (record {
    client_addr = addr;
    states = states_of s.state_db s.active_addrs [];
    blocks = last_blocks s.fastsync_block_num s.blocks;
  })
  sync_by_type tmpt_sync addr s = ok (record {
    client_addr = addr;
    states = states_of s.state_db s.tmpt_active_addrs [];
    blocks = [];
  })
  sync_by_type full_sync addr s = ok (record { client_addr = addr; states = []; blocks = s.blocks })
  sync_by_type unknown_sync addr s = exited

  pub handle_get_sync_data : SyncType → ℕ → Shard → Outcome SyncData
  unfolding states_of
  handle_get_sync_data type addr s = sync_by_type type addr s

  pub add_tbs : ℕ → Shard → Shard
  add_tbs height s = record s { tbchain_height = height }
