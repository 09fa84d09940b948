-- ===== src/Client/Processing.antt =====
-- Which receipts `processTXReceipts` handles.
use mathlib.Core.Path.{subst}
use less_chain.Client.{
  Client, ConfirmedTb, confirmed_tb, handle_receipt, handle_status, process_loop,
  process_tx_receipts, tx_of,
}
use less_chain.Core.{
  >>=-eq-ok, TxReceipt, TxStatus, cross_tx_type1_success, cross_tx_type2_fail,
  cross_tx_type2_success, default_status, dropped, exit_if, intra_success, ok, ok-injective,
  rollback_fail, rollback_success, ◌>>=◌,
}
use less_chain.Prelude.{
  All, Bool, List, Option-cases, [], ap, append-nil, append_assoc, false, inl, inr, none, not, refl,
  select, some, sym, true, u32, ℕ, ◌%◌, ◌++◌, ◌∙◌, ◌∷◌, ◌≡◌,
}
use less_chain.Prelude.Dict.{
  Dict, contains, contains-insert, contains-insert_self, get_or, insert, is_some,
}

-- The receipts whose beacon the client has.
abbrev pub is_confirmed : Dict (Dict ConfirmedTb) → TxReceipt → Bool
is_confirmed tbs r = contains r.block_height (get_or (r.shard_id % u32) [] tbs)

handle_status-tbs :
    (status : TxStatus) (r : TxReceipt) (c c' : Client)
    → handle_status status r c ≡ ok c'
    → c'.tbs ≡ c.tbs
unfolding handle_status
handle_status-tbs cross_tx_type1_success r c c' run =
    let (tx, known, last) = >>=-eq-ok (tx_of r.tx_id c) _ run in
    sym (ap (λ d. d.tbs) (ok-injective last))
handle_status-tbs cross_tx_type2_success r c c' run =
    let (_, _, last) =
      >>=-eq-ok (exit_if (not (contains r.tx_id c.cross1_confirm_height_map))) _ run in
    sym (ap (λ d. d.tbs) (ok-injective last))
handle_status-tbs default_status r c c' run = sym (ap (λ d. d.tbs) (ok-injective run))
handle_status-tbs intra_success r c c' run = sym (ap (λ d. d.tbs) (ok-injective run))
handle_status-tbs rollback_success r c c' run = sym (ap (λ d. d.tbs) (ok-injective run))
handle_status-tbs dropped r c c' run = sym (ap (λ d. d.tbs) (ok-injective run))
handle_status-tbs cross_tx_type2_fail r c c' run = sym (ap (λ d. d.tbs) (ok-injective run))
handle_status-tbs rollback_fail r c c' run = sym (ap (λ d. d.tbs) (ok-injective run))

-- What the loop leaves and records.
record Processed (tbs : Dict (Dict ConfirmedTb)) (rs kept : List TxReceipt)
    (rec rec' : Dict TxReceipt) (c' : Client) : Type 0 where
  pub left : c'.tx_reply ≡ kept ++ select (λ r. not (is_confirmed tbs r)) rs
  pub old : (id : ℕ) → contains id rec ≡ true → contains id rec' ≡ true
  pub new : All (λ r. (is_confirmed tbs r ≡ true) → contains r.tx_id rec' ≡ true) rs

abbrev stamped : TxReceipt → ConfirmedTb → TxReceipt
stamped r tb = record r { confirm_time_stamp = tb.confirm_time }

module _ (r : TxReceipt) (rs kept : List TxReceipt) (rec : Dict TxReceipt) (c : Client) where
  process_none :
      confirmed_tb r c ≡ none
      → process_loop (r ∷ rs) kept rec c ≡ process_loop rs (kept ++ r ∷ []) rec c
  unfolding process_loop confirmed_tb
  process_none e = rw (process_loop, e) refl

  process_some :
      (tb : ConfirmedTb)
      → confirmed_tb r c ≡ some tb
      → process_loop (r ∷ rs) kept rec c ≡ (
          handle_receipt (stamped r tb) c
          >>= process_loop rs kept (insert r.tx_id (stamped r tb) rec))
  unfolding process_loop confirmed_tb
  process_some tb e = rw (process_loop, e) refl

process_loop-Processed :
    (tbs : Dict (Dict ConfirmedTb)) (rs kept : List TxReceipt) (rec rec' : Dict TxReceipt)
    (c c' : Client)
    → c.tbs ≡ tbs
    → process_loop rs kept rec c ≡ ok (rec', c')
    → Processed tbs rs kept rec rec' c'
unfolding process_loop confirmed_tb
process_loop-Processed tbs [] kept rec rec' c c' same run =
    let e = ok-injective run in
    record {
      left = sym (ap (λ x. x.1.tx_reply) e) ∙ sym (append-nil kept);
      old = λ id h. subst (λ d. contains id d ≡ true) (ap (λ x. x.0) e) h;
      new = tt;
    }
process_loop-Processed tbs (r ∷ rs) kept rec rec' c c' same run =
    elim (Option-cases (confirmed_tb r c)) [
      | inl e ↦
          let unseen : is_confirmed tbs r ≡ false = rw (sym same) (ap is_some e) in
          let ih =
            process_loop-Processed tbs rs (kept ++ r ∷ []) rec rec' c c' same
              (sym (process_none r rs kept rec c e) ∙ run) in
          record {
            left = rw unseen (ih.left ∙ append_assoc kept (r ∷ []) _);
            old = ih.old;
            new = (λ h. cc, ih.new);
          }
      | inr (tb, e) ↦
          let seen : is_confirmed tbs r ≡ true = rw (sym same) (ap is_some e) in
          let (c1, step, run1) =
            >>=-eq-ok (handle_receipt (stamped r tb) c) _
              (sym (process_some r rs kept rec c tb e) ∙ run) in
          let ih =
            process_loop-Processed tbs rs kept (insert r.tx_id (stamped r tb) rec) rec' c1 c'
              (handle_status-tbs r.tx_status (stamped r tb) c c1 step ∙ same) run1 in
          record {
            left = rw seen ih.left;
            old = λ id h. ih.old id (contains-insert id r.tx_id (stamped r tb) rec h);
            new = (λ h. ih.old r.tx_id (contains-insert_self r.tx_id (stamped r tb) rec), ih.new);
          }
    ]

-- A run of `processTXReceipts` that returns keeps exactly the receipts whose beacon is not known,
-- in their order, and hands an entry for the id of each other receipt to the result package.
pub process_tx_receipts-partition :
    (c c' : Client) (rec : Dict TxReceipt)
    → process_tx_receipts c ≡ ok (rec, c')
    → (c'.tx_reply ≡ select (λ r. not (is_confirmed c.tbs r)) c.tx_reply)
      × All (λ r. (is_confirmed c.tbs r ≡ true) → contains r.tx_id rec ≡ true) c.tx_reply
unfolding process_tx_receipts
process_tx_receipts-partition c c' rec run =
    let p = process_loop-Processed c.tbs c.tx_reply [] [] rec c c' refl run in (p.left, p.new)
