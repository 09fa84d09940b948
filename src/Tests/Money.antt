-- ===== src/Tests/Money.antt =====
-- Execution at the committee and at the shard.
use less_chain.Worker
use less_chain.Core.{
  Block, Transaction, cross_tx_type1_success, cross_tx_type2_success, intra_tx_type, ok,
  rollback_success, rollback_tx_type,
}
use less_chain.Prelude.{
  All, Bytes, List, Option, [], ap, arith, if◌then◌else◌, none, refl, some, sym, ℕ, ◌==◌, ◌∷◌, ◌≡◌,
  ◌⊎◌,
}
use less_chain.Prelude.Dict.{Dict, lookup}
use less_chain.Prelude.Int.{neg_part, pos, pos_part, ℤ, ◌+ℤ◌, ◌-ℤ◌}
use less_chain.Shard.{Shard, ShardSendState, StateDb, execute_transactions, handle_com_get_state}
use less_chain.Shard.Agreement.{Agrees}
use less_chain.Shard.Handover.{IsEncodable, IsRlp, handover-Agrees}
use less_chain.Tests.Data.{account, first_half, sample, sample_states, second}
use less_chain.Worker.{
  Account, States, add_balance, add_nonce_by_one, analyse_states, sub_balance, sub_nonce_by_one,
  write,
}
use less_chain.Worker.Conservation.{rollback_restores_sender}
use less_chain.Worker.Execution.{HasStates, execute_transactions_marks, execute_transactions_total}

-- A StateDB: the nonces and the balances.
unfoldable pub sample_db : StateDb
unfolding ◌+ℤ◌ ◌-ℤ◌
sample_db = record {
  State = (ℕ → ℕ) × (ℕ → ℤ);
  get_nonce = λ s a. s.0 a;
  get_balance = λ s a. s.1 a;
  set_nonce = λ a n s. (λ b. if a == b then n else s.0 b, s.1);
  add_balance = λ a v s. (s.0, λ b. if a == b then s.1 b +ℤ v else s.1 b);
  sub_balance = λ a v s. (s.0, λ b. if a == b then s.1 b -ℤ v else s.1 b);
  get_or_new_state_object = λ a s. s;
  intermediate_root = λ s. s.0 7;
  finalise = λ s. s;
  nonce-set_nonce = λ a n b s. refl;
  nonce-add_balance = λ a b v s. refl;
  nonce-sub_balance = λ a b v s. refl;
  balance-set_nonce = λ a n b s. refl;
  balance-add_balance = λ a b v s. refl;
  balance-sub_balance = λ a b v s. refl;
  nonce-new = λ a b s. refl;
  balance-new = λ a b s. refl;
  nonce-finalise = λ a s. refl;
  balance-finalise = λ a s. refl;
}

-- An account as a list of numbers; a negative balance has no code.
abbrev pub encode_account : Account → Option Bytes
encode_account acc =
    if neg_part acc.balance == 0
    then some (pos_part acc.balance ∷ acc.nonce ∷ acc.root ∷ acc.code_hash ∷ [])
    else none

abbrev decode_account : Bytes → Option Account
decode_account (p ∷ n ∷ r ∷ c ∷ []) =
    some (record { nonce = n; balance = pos p; root = r; code_hash = c })
decode_account _ = none

encode_account-IsRlp : IsRlp sample_db 0 encode_account decode_account
unfolding IsRlp
encode_account-IsRlp acc n small natural = (
  n ∷ acc.nonce ∷ acc.root ∷ acc.code_hash ∷ [],
  rw natural refl,
  ap
      (λ v.
        some
          (record { nonce = acc.nonce; balance = v; root = acc.root; code_hash = acc.code_hash }))
      (sym natural),
)

abbrev no_block : Block
no_block = record {
  header = record {
    parent_hash = 0;
    coinbase = 0;
    root = 0;
    tx_hash = 0;
    difficulty = 0;
    number = 0;
    time = 0;
    mix_digest = 0;
    nonce = 0;
    shard_id = 0;
  };
  transactions = [];
}

unfoldable pub sample_shard : Shard sample_db 0 encode_account
unfolding sample_db
sample_shard = record {
  state_db = (λ a. 0, λ a. pos 100);
  current_block = no_block;
  blocks = [];
  active_addrs = [];
  tmpt_active_addrs = [];
  height2_reconfig = 10;
  tbchain_height = 0;
  fastsync_block_num = 2;
}

sample_shard-IsEncodable :
    All (IsEncodable sample_db 0 encode_account sample_shard.state_db) (7 ∷ 8 ∷ [])
unfolding sample_db sample_shard
sample_shard-IsEncodable = ((omega arith, 100, refl), ((omega arith, 100, refl), tt))

handover-Agrees_example :
    (response : ShardSendState) × (sh1 : Shard sample_db 0 encode_account) × (accounts : Dict
      Account)
    × (txs' : List Transaction) × (s : States) × (root : ℕ) × (sh2 : Shard sample_db 0
        encode_account)
    × (handle_com_get_state sample_db 0 encode_account (7 ∷ 8 ∷ []) sample_shard
        ≡ ok (response, sh1))
    × (analyse_states decode_account response.account_data [] ≡ ok accounts)
    × (Worker.execute_transactions
          (λ a. a)
          (sample 4 intra_tx_type ∷ second ∷ [])
          (record { accounts = accounts; updated = [] })
        ≡ ok (txs', s))
    × (execute_transactions sample_db 0 encode_account txs' sh1 ≡ ok (root, sh2))
    × Agrees sample_db 0 encode_account s.accounts sh2.state_db
handover-Agrees_example =
    handover-Agrees sample_db 0 encode_account decode_account (λ a. a) (7 ∷ 8 ∷ [])
      (sample 4 intra_tx_type ∷ second ∷ []) sample_shard encode_account-IsRlp
      sample_shard-IsEncodable (λ e. cc, (λ e. cc, tt)) ((refl, refl), (refl, tt))

execute_transactions_total_example :
    (txs' : List Transaction) × (s' : States) × (Worker.execute_transactions
        (λ a. a)
        (sample 4 intra_tx_type ∷ second ∷ [])
        sample_states
      ≡ ok (txs', s'))
    × HasStates (7 ∷ 8 ∷ []) s'.accounts
execute_transactions_total_example =
    execute_transactions_total (λ a. a) (7 ∷ 8 ∷ []) (sample 4 intra_tx_type ∷ second ∷ [])
      sample_states (λ e. cc, (λ e. cc, tt)) ((refl, refl), (refl, tt)) (λ a m. ground (arith, m))

execute_transactions_marks_example :
    (lookup {V = ℕ} 8 ((8, 8) ∷ []) ≡ some 8)
    ⊎ ((lookup 8 ((8, account 4 (pos 6)) ∷ []) ≡ lookup 8 ((8, account 4 (pos 1)) ∷ []))
        × (lookup {V = ℕ} 8 ((8, 8) ∷ []) ≡ none))
unfolding Worker.execute_transactions Worker.execute_transaction write Worker.add_balance ◌+ℤ◌
execute_transactions_marks_example =
    execute_transactions_marks (λ a. a) (λ a b e. e) (second ∷ [])
      (record second { tx_status = cross_tx_type2_success } ∷ []) ((8, account 4 (pos 1)) ∷ [])
      (record { accounts = (8, account 4 (pos 6)) ∷ []; updated = (8, 8) ∷ [] }) refl 8

rollback_restores_sender_example :
    lookup 7 ((7, account 0 (pos 100)) ∷ []) ≡ some (account 0 (pos 100))
unfolding Worker.execute_transaction write Worker.add_balance Worker.sub_balance add_nonce_by_one
    sub_nonce_by_one ◌+ℤ◌ ◌-ℤ◌
rollback_restores_sender_example =
    rollback_restores_sender (λ a. a) first_half
      (record first_half { tx_status = cross_tx_type1_success })
      (record first_half { tx_type = rollback_tx_type; tx_status = rollback_success })
      (record { accounts = (7, account 0 (pos 100)) ∷ []; updated = [] })
      (record { accounts = (7, account 1 (pos 95)) ∷ []; updated = (7, 7) ∷ [] })
      (record { accounts = (7, account 1 (pos 95)) ∷ []; updated = [] })
      (record { accounts = (7, account 0 (pos 100)) ∷ []; updated = (7, 7) ∷ [] })
      (account 0 (pos 100)) refl refl (omega arith) refl refl refl
