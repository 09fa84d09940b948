-- ===== src/TxPool/Addresses.antt =====
-- `getTxRelatedAddrs`: the addresses whose state a batch of transactions touches.
use less_chain.Prelude.{ℕ, ◌≡◌, refl, ◌≢◌, true, List, [], ◌∷◌, ◌++◌, arith, All}
use less_chain.Core.{
  Transaction, TxType, undefined_tx_type, intra_tx_type, cross_tx_type1, cross_tx_type2,
  rollback_tx_type, ok,
}
use less_chain.TxPool.{member, add_addr, related, related_addrs, get_tx_related_addrs}

-- The type is one of the four that the committee can execute.
abbrev pub IsKnown : Transaction → Type 0
IsKnown tx = tx.tx_type ≢ undefined_tx_type

-- Every address that executing the transaction reads is in the list.
abbrev pub CoversType : List ℕ → TxType → Transaction → Type 0
CoversType addrs undefined_tx_type tx = Unit
CoversType addrs intra_tx_type tx =
    (member tx.sender addrs ≡ true) × (member tx.recipient addrs ≡ true)
CoversType addrs cross_tx_type1 tx = member tx.sender addrs ≡ true
CoversType addrs cross_tx_type2 tx = member tx.recipient addrs ≡ true
CoversType addrs rollback_tx_type tx = member tx.sender addrs ≡ true

abbrev pub Covers : List ℕ → Transaction → Type 0
Covers addrs tx = CoversType addrs tx.tx_type tx

member-append_left : (a : ℕ) (xs ys : List ℕ) → member a xs ≡ true → member a (xs ++ ys) ≡ true
member-append_left a [] ys h = cc
member-append_left a (x ∷ xs) ys h = ground (arith, member-append_left a xs ys)

member-snoc : (a : ℕ) (xs : List ℕ) → member a (xs ++ a ∷ []) ≡ true
member-snoc a [] = ground arith
member-snoc a (x ∷ xs) = ground (arith, member-snoc a xs)

member-add_addr_self : (a : ℕ) (xs : List ℕ) → member a (add_addr a xs) ≡ true
member-add_addr_self a xs = ground (arith, member-snoc a xs)

member-add_addr : (a b : ℕ) (xs : List ℕ) → member b xs ≡ true → member b (add_addr a xs) ≡ true
member-add_addr a b xs h = ground (arith, member-append_left b xs (a ∷ []))

abbrev Grows : List ℕ → List ℕ → Type 0
Grows addrs out = (a : ℕ) → member a addrs ≡ true → member a out ≡ true

add_addr-Grows : (a : ℕ) (addrs : List ℕ) → Grows addrs (add_addr a addrs)
add_addr-Grows a addrs b h = member-add_addr a b addrs h

related_lem :
    (t : TxType) (tx : Transaction) (addrs : List ℕ)
    → t ≢ undefined_tx_type
    → (out : List ℕ) × (related t tx addrs ≡ ok out) × CoversType out t tx × Grows addrs out
related_lem undefined_tx_type tx addrs h = absurd (h refl)
related_lem intra_tx_type tx addrs h = (
  _,
  refl,
  (
    member-add_addr tx.recipient tx.sender _ (member-add_addr_self tx.sender addrs),
    member-add_addr_self tx.recipient _,
  ),
  λ a m. member-add_addr tx.recipient a _ (member-add_addr tx.sender a addrs m),
)
related_lem cross_tx_type1 tx addrs h =
    (_, refl, member-add_addr_self tx.sender addrs, add_addr-Grows tx.sender addrs)
related_lem cross_tx_type2 tx addrs h =
    (_, refl, member-add_addr_self tx.recipient addrs, add_addr-Grows tx.recipient addrs)
related_lem rollback_tx_type tx addrs h =
    (_, refl, member-add_addr_self tx.sender addrs, add_addr-Grows tx.sender addrs)

CoversType-mono :
    (t : TxType) (tx : Transaction) (addrs out : List ℕ)
    → Grows addrs out
    → CoversType addrs t tx
    → CoversType out t tx
CoversType-mono undefined_tx_type tx addrs out g c = tt
CoversType-mono intra_tx_type tx addrs out g c = (g tx.sender c.0, g tx.recipient c.1)
CoversType-mono cross_tx_type1 tx addrs out g c = g tx.sender c
CoversType-mono cross_tx_type2 tx addrs out g c = g tx.recipient c
CoversType-mono rollback_tx_type tx addrs out g c = g tx.sender c

related_addrs_lem :
    (txs : List Transaction) (addrs : List ℕ)
    → All IsKnown txs
    → (out : List ℕ) × (related_addrs txs addrs ≡ ok out) × All (Covers out) txs × Grows addrs out
unfolding related_addrs
related_addrs_lem [] addrs known = (addrs, refl, tt, λ a h. h)
related_addrs_lem (tx ∷ txs) addrs known =
    let (mid, first, covers, grows) = related_lem tx.tx_type tx addrs known.0 in
    let (out, rest, all, more) = related_addrs_lem txs mid known.1 in
    (
      out,
      rw first rest,
      (CoversType-mono tx.tx_type tx mid out more covers, all),
      λ a m. more a (grows a m),
    )

-- For transactions of known types the call returns, with every address that they touch.
pub get_tx_related_addrs-Covers :
    (txs : List Transaction)
    → All IsKnown txs
    → (addrs : List ℕ) × (get_tx_related_addrs txs ≡ ok addrs) × All (Covers addrs) txs
unfolding get_tx_related_addrs
get_tx_related_addrs-Covers txs known =
    let (out, run, all, _) = related_addrs_lem txs [] known in (out, run, all)
