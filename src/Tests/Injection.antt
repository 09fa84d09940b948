-- ===== src/Tests/Injection.antt =====
-- The data set at concrete inputs: three transactions, two clients, one shard.
use mathlib.Core.List.{Perm}
use less_chain.Client.{Client, addtxs}
use less_chain.Core.{Transaction, intra_tx_type, ok, ◌>>=◌}
use less_chain.Data.{
  inject_tx2_client, max_value, set_shard_initial_account_state, set_tx2_client_table,
}
use less_chain.Data.Accounts.{is_involved, set_shard_initial_account_state-balances}
use less_chain.Data.Clients.{set_tx2_client_table_partition, txs_of_clients}
use less_chain.Prelude.{List, [], arith, if◌then◌else◌, map, refl, select, ℕ, ◌%◌, ◌==◌, ◌∷◌, ◌≡◌}
use less_chain.Prelude.Dict.{Dict}
use less_chain.Prelude.Int.{pos, ℤ}
use less_chain.Tests.Data.{sample}
use less_chain.Tests.Money.{sample_db}

abbrev three_txs : List Transaction
three_txs =
    record (sample 4 intra_tx_type) { sender = 1; recipient = 2; sender_sid = 0; recipient_sid = 0 }
    ∷ record (sample 5 intra_tx_type) {
      sender = 1;
      recipient = 3;
      sender_sid = 0;
      recipient_sid = 1;
    }
    ∷ record (sample 6 intra_tx_type) {
      sender = 3;
      recipient = 1;
      sender_sid = 1;
      recipient_sid = 0;
    }
    ∷ []

set_tx2_client_table_partition_example :
    (table : Dict ℤ) × (set_tx2_client_table 2 three_txs ≡ ok table)
    × ((c : Client)
        → inject_tx2_client table three_txs c
          ≡ addtxs (select (λ tx. tx.id % 2 == c.cid) three_txs) c)
    × Perm (txs_of_clients 0 2 table three_txs) three_txs
set_tx2_client_table_partition_example =
    set_tx2_client_table_partition 2 three_txs (omega arith) (omega arith)

-- Client 0 is given the transactions 4 and 6, client 1 the transaction 5.
ids_of_clients :
    (set_tx2_client_table 2 three_txs >>= λ table.
    ok (map (λ tx. tx.id) (txs_of_clients 0 2 table three_txs)))
    ≡ ok (4 ∷ 6 ∷ 5 ∷ [])
unfolding set_tx2_client_table txs_of_clients
ids_of_clients = refl

empty_accounts : sample_db.State
unfolding sample_db
empty_accounts = (λ a. 0, λ a. pos 0)

all_empty : (a : ℕ) → sample_db.get_balance empty_accounts a ≡ pos 0
unfolding sample_db empty_accounts
all_empty a = refl

set_shard_initial_account_state-balances_example :
    (after : sample_db.State) × (set_shard_initial_account_state sample_db 0 three_txs
        empty_accounts
      ≡ ok after)
    × ((a : ℕ)
        → sample_db.get_balance after a ≡ (if is_involved 0 a three_txs then max_value else pos 0))
set_shard_initial_account_state-balances_example =
    set_shard_initial_account_state-balances sample_db 0 three_txs empty_accounts all_empty
