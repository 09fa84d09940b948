-- ===== src/Data/Accounts.antt =====
-- data/dataprocess.go and shard/shard.go: the balances that a shard starts with.
-- Whether an address sends or receives in a shard.
use mathlib.Core.Path.{subst}
use less_chain.Core.{Transaction, exit_if, ok, ◌>>◌}
use less_chain.Data.{
  add_addr, initial_addrs, max_value, same_amount, set_initial_account_state,
  set_shard_initial_account_state,
}
use less_chain.Prelude.{
  ==_iff, Bool, Bool-cases, List, [], ap, arith, false, if_false, if_true, if◌then◌else◌, inl, inr,
  none, not, refl, sym, true, ℕ, ◌&&◌, ◌==◌, ◌||◌, ◌∙◌, ◌∷◌, ◌≡◌, ◌≢◌,
}
use less_chain.Prelude.Dict.{Dict, contains, insert, is_some, lookup, lookup-insert}
use less_chain.Prelude.Int.{pos, ◌+ℤ◌}
use less_chain.Shard.{StateDb}
use less_chain.TxPool.{empty}

unfoldable pub is_involved : ℕ → ℕ → List Transaction → Bool
is_involved shard_id addr [] = false
is_involved shard_id addr (tx ∷ txs) =
    (tx.sender_sid == shard_id && tx.sender == addr)
    || ((tx.recipient_sid == shard_id && tx.recipient == addr) || is_involved shard_id addr txs)

-- No key stands twice.
Keyed : Dict (Unit {0}) → Type 0
Keyed [] = Unit
Keyed ((k, u) ∷ d) = (lookup k d ≡ none) × Keyed d

contains-add_addr :
    (here : Bool) (addr other : ℕ) (addrs : Dict (Unit {0}))
    → contains other (add_addr here addr addrs) ≡ ((here && addr == other) || contains other addrs)
unfolding add_addr
contains-add_addr false addr other addrs = refl
contains-add_addr true addr other addrs = let l = lookup-insert addr other tt addrs in ground arith

lookup-insert-none :
    (k j : ℕ) (d : Dict (Unit {0})) → lookup j d ≡ none → k ≢ j → lookup j (insert k tt d) ≡ none
lookup-insert-none k j d missing other = let l = lookup-insert k j tt d in ground arith

Keyed-insert : (k : ℕ) (d : Dict (Unit {0})) → Keyed d → Keyed (insert k tt d)
unfolding Keyed
Keyed-insert k [] keyed = (refl, tt)
Keyed-insert k ((j, u) ∷ d) keyed = elim (Bool-cases (j == k)) [
  | inl same ↦
      subst Keyed (sym (if_true (j == k) _ _ same))
        (subst (λ x. lookup x d ≡ none) ((==_iff j k).0 same) keyed.0, keyed.1)
  | inr other ↦
      subst Keyed (sym (if_false (j == k) _ _ other))
        (lookup-insert-none k j d keyed.0 (ground arith), Keyed-insert k d keyed.1)
]

Keyed-nil : Keyed []
unfolding Keyed
Keyed-nil = tt

or_false : (b : Bool) → (b || false) ≡ b
or_false true = refl
or_false false = refl

add_addr-Keyed :
    (here : Bool) (addr : ℕ) (addrs : Dict (Unit {0}))
    → Keyed addrs
    → Keyed (add_addr here addr addrs)
unfolding add_addr
add_addr-Keyed false addr addrs keyed = keyed
add_addr-Keyed true addr addrs keyed = Keyed-insert addr addrs keyed

initial_addrs-Keyed :
    (shard_id : ℕ) (txs : List Transaction) (addrs : Dict (Unit {0}))
    → Keyed addrs
    → Keyed (initial_addrs shard_id txs addrs)
unfolding initial_addrs
initial_addrs-Keyed shard_id [] addrs keyed = keyed
initial_addrs-Keyed shard_id (tx ∷ txs) addrs keyed = initial_addrs-Keyed shard_id txs _ (
    add_addr-Keyed (tx.recipient_sid == shard_id) tx.recipient _
      (add_addr-Keyed (tx.sender_sid == shard_id) tx.sender addrs keyed))

contains-initial_addrs :
    (shard_id addr : ℕ) (txs : List Transaction) (addrs : Dict (Unit {0}))
    → contains addr (initial_addrs shard_id txs addrs)
      ≡ (is_involved shard_id addr txs || contains addr addrs)
unfolding initial_addrs is_involved
contains-initial_addrs shard_id addr [] addrs = refl
contains-initial_addrs shard_id addr (tx ∷ txs) addrs =
    let senders = add_addr (tx.sender_sid == shard_id) tx.sender addrs in
    ground (
      arith,
      contains-initial_addrs shard_id addr txs
          (add_addr (tx.recipient_sid == shard_id) tx.recipient senders),
      contains-add_addr (tx.recipient_sid == shard_id) tx.recipient addr senders,
      contains-add_addr (tx.sender_sid == shard_id) tx.sender addr addrs,
    )

max_from_zero : pos 0 +ℤ max_value ≡ max_value
unfolding ◌+ℤ◌
max_from_zero = refl

same_max : same_amount max_value max_value ≡ true
unfolding same_amount
same_max = refl

module _ (db : StateDb) where
  open db use {State, get_balance, add_balance, balance-add_balance}

  paid_balance :
      (addr : ℕ) (st : State)
      → get_balance st addr ≡ pos 0
      → get_balance (add_balance addr max_value st) addr ≡ max_value
  paid_balance addr st empty =
      balance-add_balance addr addr max_value st
      ∙ if_true (addr == addr) _ _ (ground arith)
      ∙ ap (λ b. b +ℤ max_value) empty
      ∙ max_from_zero

  kept_balance :
      (addr other : ℕ) (st : State)
      → addr ≢ other
      → get_balance (add_balance addr max_value st) other ≡ get_balance st other
  kept_balance addr other st differ =
      balance-add_balance addr other max_value st ∙ if_false (addr == other) _ _ (ground arith)

  set_initial_account_state-balances :
      (addrs : Dict (Unit {0})) (st : State)
      → Keyed addrs
      → ((a : ℕ) → contains a addrs ≡ true → get_balance st a ≡ pos 0)
      → (after : State) × (set_initial_account_state db addrs max_value st ≡ ok after)
        × ((a : ℕ)
            → get_balance after a ≡ (if contains a addrs then max_value else get_balance st a))
  unfolding set_initial_account_state Keyed
  set_initial_account_state-balances [] st keyed empty = (st, refl, λ a. refl)
  set_initial_account_state-balances ((addr, u) ∷ addrs) st keyed empty =
      let paid = add_balance addr max_value st in
      let rest = set_initial_account_state-balances addrs paid keyed.1 (λ a has.
        let differ : addr ≢ a = λ e. absent addr a addrs keyed.0 e has in
        kept_balance addr a st differ ∙ empty a (present addr a addrs differ has)) in
      let (after, e, balances) = rest in
      let right = paid_balance addr st (empty addr (ground arith)) in
      (
        after,
        ap
              (λ b.
                exit_if (not (same_amount b max_value))
                >> set_initial_account_state db addrs max_value paid)
              right
            ∙ ap (λ t. exit_if (not t) >> set_initial_account_state db addrs max_value paid)
                same_max
            ∙ e,
        λ a. elim (Bool-cases (addr == a)) [
          | inl same ↦
              let is_a : addr ≡ a = (==_iff addr a).0 same in
              let missing : lookup a addrs ≡ none =
                subst (λ x. lookup x addrs ≡ none) is_a keyed.0 in
              let right_a = subst (λ x. get_balance paid x ≡ max_value) is_a right in
              ground (arith, balances a)
          | inr other ↦
              let kept = kept_balance addr a st (ground arith) in ground (arith, balances a)
        ],
      )
    where
      absent : (k a : ℕ) (d : Dict (Unit {0})) → lookup k d ≡ none → k ≡ a → contains a d ≡ true → ⊥
      absent k a d missing e has = cc (ap is_some (subst (λ x. lookup x d ≡ none) e missing))

      present :
          (k a : ℕ) (d : Dict (Unit {0}))
          → k ≢ a
          → contains a d ≡ true
          → contains a ((k, tt) ∷ d) ≡ true
      present k a d differ has = ground arith

  -- On a state in which every account is empty, SetShardInitialAccountState completes, and then an
  -- account holds ten billion if it sends or receives in the shard in some transaction, and is empty
  -- otherwise: an account with several transactions is not paid twice.
  pub set_shard_initial_account_state-balances :
      (shard_id : ℕ) (alltxs : List Transaction) (st : State)
      → ((a : ℕ) → get_balance st a ≡ pos 0)
      → (after : State) × (set_shard_initial_account_state db shard_id alltxs st ≡ ok after)
        × ((a : ℕ)
            → get_balance after a ≡ (if is_involved shard_id a alltxs then max_value else pos 0))
  unfolding set_shard_initial_account_state
  set_shard_initial_account_state-balances shard_id alltxs st empty =
      let (after, e, balances) =
        set_initial_account_state-balances (initial_addrs shard_id alltxs []) st
          (initial_addrs-Keyed shard_id alltxs [] Keyed-nil) (λ a has. empty a) in
      (
        after,
        e,
        λ a.
            let involved = contains-initial_addrs shard_id a alltxs [] in
            balances a
            ∙ ap (λ b. if b then max_value else get_balance st a)
                (involved ∙ or_false (is_involved shard_id a alltxs))
            ∙ ap (λ b. if is_involved shard_id a alltxs then max_value else b) (empty a),
      )
