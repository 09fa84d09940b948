-- ===== src/Data/Clients.antt =====
-- data/dataprocess.go: every transaction goes to exactly one client.
use mathlib.Core.List.Perm
use mathlib.Core.List.{Perm, perm_middle}
use mathlib.Core.Path.{ap₂, subst}
use less_chain.Client.{Client, addtxs}
use less_chain.Core.{Transaction, ok, ◌>>=◌}
use less_chain.Data.{
  inject_tx2_client, is_cid, set_tx2_client_loop, set_tx2_client_table, to_int64, txs_of_client,
}
use less_chain.Prelude.{
  All, Bool-cases, List, Option-cases, [], ap, arith, false, if_false, if_true, inl, inr, refl,
  select, some, suc, sym, true, zero, ℕ, ◌%◌, ◌++◌, ◌+◌, ◌<◌, ◌==◌, ◌^◌, ◌∙◌, ◌∷◌, ◌≡◌, ◌≤◌,
}
use less_chain.Prelude.Dict.{
  Dict, contains, contains-insert, contains-insert_self, get_or, insert, is_some, lookup,
  lookup-insert,
}
use less_chain.Prelude.Int.{pos, ℤ}
use less_chain.Utils.{mod_lt, rem_int}

-- The identifiers fit a signed 64-bit integer.
abbrev pub HasSmallIds : List Transaction → Type 0
HasSmallIds = All (λ tx. tx.id < 2 ^ 63)

abbrev IsFilled : ℕ → Dict ℤ → Type 0
IsFilled n table = (id : ℕ) (v : ℤ) → lookup id table ≡ some v → v ≡ pos (id % n)

table_step :
    (n : ℕ) (tx : Transaction)
    → 0 < n
    → tx.id < 2 ^ 63
    → rem_int (to_int64 tx.id) n ≡ ok (pos (tx.id % n))
unfolding rem_int to_int64
table_step n tx positive small = ground arith

IsFilled-insert :
    (n id : ℕ) (table : Dict ℤ) → IsFilled n table → IsFilled n (insert id (pos (id % n)) table)
IsFilled-insert n id table filled other v h =
    let l = lookup-insert id other (pos (id % n)) table in ground (arith, filled other v)

-- The table that the loop leaves: every entry is the remainder, and no identifier is missing.
set_tx2_client_loop-fills :
    (n : ℕ) (txs : List Transaction) (table : Dict ℤ)
    → 0 < n
    → HasSmallIds txs
    → IsFilled n table
    → (out : Dict ℤ) × (set_tx2_client_loop n txs table ≡ ok out)
      × IsFilled n out
      × ((id : ℕ) → contains id table ≡ true → contains id out ≡ true)
      × All (λ tx. contains tx.id out ≡ true) txs
unfolding set_tx2_client_loop
set_tx2_client_loop-fills n [] table positive small filled = (table, refl, filled, λ id c. c, tt)
set_tx2_client_loop-fills n (tx ∷ txs) table positive small filled =
    let (out, e, filled', kept, all) =
      set_tx2_client_loop-fills n txs (insert tx.id (pos (tx.id % n)) table) positive small.1
        (IsFilled-insert n tx.id table filled) in
    (
      out,
      ap (λ m. m >>= λ cid. set_tx2_client_loop n txs (insert tx.id cid table))
            (table_step n tx positive small.0)
          ∙ e,
      filled',
      λ id c. kept id (contains-insert id tx.id (pos (tx.id % n)) table c),
      (kept tx.id (contains-insert_self tx.id (pos (tx.id % n)) table), all),
    )

get_or-IsFilled :
    (n id : ℕ) (table : Dict ℤ)
    → IsFilled n table
    → contains id table ≡ true
    → get_or id (pos 0) table ≡ pos (id % n)
get_or-IsFilled n id table filled has = elim (Option-cases (lookup id table)) [
  | inl missing ↦ absurd (cc (ap is_some missing))
  | inr (v, found) ↦ ground (arith, filled id v found)
]

select-filled :
    (n cid : ℕ) (table : Dict ℤ) (txs : List Transaction)
    → IsFilled n table
    → All (λ tx. contains tx.id table ≡ true) txs
    → txs_of_client cid table txs ≡ select (λ tx. tx.id % n == cid) txs
unfolding txs_of_client is_cid
select-filled n cid table [] filled all = refl
select-filled n cid table (tx ∷ txs) filled all =
    ground (
      arith,
      get_or-IsFilled n tx.id table filled all.0,
      select-filled n cid table txs filled all.1,
    )

-- The lists of the clients from `start` on, one after the other.
unfoldable pub buckets {ℓ} : {A : Type ℓ} → (A → ℕ) → ℕ → ℕ → List A → List A
buckets f start zero xs = []
buckets f start (suc count) xs = select (λ x. f x == start) xs ++ buckets f (suc start) count xs

buckets_later {ℓ} :
    {A : Type ℓ} (f : A → ℕ) (start count : ℕ) (x : A) (xs : List A)
    → f x < start
    → buckets f start count (x ∷ xs) ≡ buckets f start count xs
unfolding buckets
buckets_later f start zero x xs h = refl
buckets_later f start (suc count) x xs h =
    let other : (f x == start) ≡ false = ground arith in
    ap₂ ◌++◌ (if_false (f x == start) _ _ other)
      (buckets_later f (suc start) count x xs (omega arith))

buckets-perm_cons {ℓ} :
    {A : Type ℓ} (f : A → ℕ) (start count : ℕ) (x : A) (xs : List A)
    → start ≤ f x
    → f x < start + count
    → Perm (buckets f start count (x ∷ xs)) (x ∷ buckets f start count xs)
unfolding buckets
buckets-perm_cons f start zero x xs low high = absurd (omega arith)
buckets-perm_cons f start (suc count) x xs low high = elim (Bool-cases (f x == start)) [
  | inl here ↦
      subst (λ l. Perm l (x ∷ buckets f start (suc count) xs))
        (sym (
          ap₂ ◌++◌ (if_true (f x == start) _ _ here)
            (buckets_later f (suc start) count x xs (ground arith))))
        Perm.rfl
  | inr later ↦
      subst
        (λ l. Perm (l ++ buckets f (suc start) count (x ∷ xs)) (x ∷ buckets f start (suc count) xs))
        (sym (if_false (f x == start) _ _ later))
        (Perm.trans
          (Perm.append_left (select (λ y. f y == start) xs)
            (buckets-perm_cons f (suc start) count x xs (ground arith) (omega arith)))
          (perm_middle (select (λ y. f y == start) xs) (buckets f (suc start) count xs)))
]

buckets_nil {ℓ} : {A : Type ℓ} (f : A → ℕ) (start count : ℕ) → buckets f start count [] ≡ []
unfolding buckets
buckets_nil f start zero = refl
buckets_nil f start (suc count) = buckets_nil f (suc start) count

buckets-perm {ℓ} :
    {A : Type ℓ} (f : A → ℕ) (count : ℕ) (xs : List A)
    → ((x : A) → f x < count)
    → Perm (buckets f 0 count xs) xs
buckets-perm f count [] h = subst (λ l. Perm l []) (sym (buckets_nil f 0 count)) Perm.rfl
buckets-perm f count (x ∷ xs) h =
    Perm.trans (buckets-perm_cons f 0 count x xs (omega arith) (omega (arith, h x)))
      (Perm.cons x (buckets-perm f count xs h))

-- What the clients from `start` on are given, one after the other.
unfoldable pub txs_of_clients : ℕ → ℕ → Dict ℤ → List Transaction → List Transaction
unfolding txs_of_client
txs_of_clients start zero table alltxs = []
txs_of_clients start (suc count) table alltxs =
    txs_of_client start table alltxs ++ txs_of_clients (suc start) count table alltxs

txs_of_clients-buckets :
    (n start count : ℕ) (table : Dict ℤ) (alltxs : List Transaction)
    → IsFilled n table
    → All (λ tx. contains tx.id table ≡ true) alltxs
    → txs_of_clients start count table alltxs ≡ buckets (λ tx. tx.id % n) start count alltxs
unfolding txs_of_clients buckets
txs_of_clients-buckets n start zero table alltxs filled all = refl
txs_of_clients-buckets n start (suc count) table alltxs filled all =
    ap₂ ◌++◌ (select-filled n start table alltxs filled all)
      (txs_of_clients-buckets n (suc start) count table alltxs filled all)

-- With a positive number of clients and identifiers below 2 ^ 63, SetTX2ClientTable completes, and
-- then InjectTX2Client gives to each client exactly the transactions whose identifier has the client's
-- number as remainder, in their order; the lists of all clients together are a rearrangement of all
-- transactions, so that none is lost and none is injected twice.
pub set_tx2_client_table_partition :
    (client_num : ℕ) (alltxs : List Transaction)
    → 0 < client_num
    → HasSmallIds alltxs
    → (table : Dict ℤ) × (set_tx2_client_table client_num alltxs ≡ ok table)
      × ((c : Client)
          → inject_tx2_client table alltxs c
            ≡ addtxs (select (λ tx. tx.id % client_num == c.cid) alltxs) c)
      × Perm (txs_of_clients 0 client_num table alltxs) alltxs
unfolding set_tx2_client_table inject_tx2_client
set_tx2_client_table_partition client_num alltxs positive small =
    let (table, e, filled, _, all) =
      set_tx2_client_loop-fills client_num alltxs [] positive small (λ id v h. cc) in
    (
      table,
      e,
      λ c. ap (λ l. addtxs l c) (select-filled client_num c.cid table alltxs filled all),
      subst (λ l. Perm l alltxs)
          (sym (txs_of_clients-buckets client_num 0 client_num table alltxs filled all))
          (buckets-perm (λ tx. tx.id % client_num) client_num alltxs
            (λ tx. mod_lt tx.id client_num positive)),
    )
