-- ===== src/Node/Placement/OwnPlace.antt =====
-- node/reconfig.go: a node that takes part finds itself in the new table at its new number.
use mathlib.Core.Logic.Or
use mathlib.Core.List.{Mem, eq-or-mem_of_mem-cons, mem-cons_of_mem, mem-cons_self, not-mem-nil}
use mathlib.Core.Path.{subst}
use native.Mathlib.Decide.{ℕ_discrete}
use less_chain.Core.{>>=-eq-ok, NodeInfo, ok, ok-injective}
use less_chain.MessageHub.{addr_at}
use less_chain.Node.{ReconfigResult}
use less_chain.Node.Placement.{Placement, place_com, place_coms, place_one, same_info}
use less_chain.Prelude.{
  Bool, Bool-cases, List, [], ap, arith, false, if_false, if_true, if◌then◌else◌, inl, inr, refl,
  some, suc, sym, true, zero, ℕ, ◌+◌, ◌<◌, ◌==◌, ◌||◌, ◌∙◌, ◌∷◌, ◌≡◌, ◌≢◌, ◌≤◌, ◌⊎◌,
}
use less_chain.Prelude.Dict.{Dict, get_or, get_or-insert, insert}

abbrev pub is_own : NodeInfo → ReconfigResult → Bool
is_own local_info r = same_info r.old_node_info local_info

unfoldable pub any_of {ℓ} : {A : Type ℓ} → (A → Bool) → List A → Bool
any_of p [] = false
any_of p (x ∷ xs) = p x || any_of p xs

pub any_of-mem {ℓ} :
    {A : Type ℓ} (p : A → Bool) (xs : List A) (x : A) → Mem x xs → p x ≡ true → any_of p xs ≡ true
unfolding any_of
any_of-mem p [] x m h = absurd (not-mem-nil m)
any_of-mem p (y ∷ xs) x m h =
    Or.elim (hlevel) (eq-or-mem_of_mem-cons m)
      (λ e. let here : p y ≡ true = ap p (sym e) ∙ h in ground arith)
      (λ later. let there = any_of-mem p xs x later h in or_true (p y) there)
  where
    or_true : (b : Bool) {c : Bool} → c ≡ true → (b || c) ≡ true
    or_true true e = refl
    or_true false e = e

-- The node's identity after its place was found, and the table's entry for it.
pub record IsPlaced (local_info : NodeInfo) (mine : ReconfigResult) (p : Placement) : Type 0 where
  pub new_com : p.placed_info.com_id ≡ mine.new_com_id
  pub same_shard : p.placed_info.shard_id ≡ local_info.shard_id
  pub same_addr : p.placed_info.node_addr ≡ local_info.node_addr
  pub entry : addr_at p.new_table mine.new_com_id p.placed_info.node_id ≡ local_info.node_addr

same_info-addr : (a b : NodeInfo) → same_info a b ≡ true → a.node_addr ≡ b.node_addr
unfolding same_info
same_info-addr a b h = ground arith

addr_at-insert_other :
    (i j : ℕ) (d : Dict ℕ) (table : Dict (Dict ℕ)) (node_id : ℕ)
    → i ≢ j
    → addr_at (insert i d table) j node_id ≡ addr_at table j node_id
unfolding addr_at
addr_at-insert_other i j d table node_id h =
    ap (get_or node_id 0) (get_or-insert i j [] d table ∙ if_false (i == j) _ _ (ground arith))

addr_at-insert_place :
    (i place node_id addr : ℕ) (table : Dict (Dict ℕ))
    → addr_at (insert i (insert place addr (get_or i [] table)) table) i node_id
      ≡ (if place == node_id then addr else addr_at table i node_id)
unfolding addr_at
addr_at-insert_place i place node_id addr table =
    ap (get_or node_id 0) (
      get_or-insert i i [] (insert place addr (get_or i [] table)) table
      ∙ if_true (i == i) _ _ (ground arith))
    ∙ get_or-insert place node_id 0 addr (get_or i [] table)

module _ (local_info : NodeInfo) (mine : ReconfigResult) where
  -- One place of another committee changes neither the identity nor the own committee.
  place_one_other :
      (i new_id : ℕ) (r : ReconfigResult) (p q : Placement)
      → i ≢ mine.new_com_id
      → is_own local_info r ≡ false
      → place_one local_info (some mine) i new_id r p ≡ ok q
      → (q.placed_info ≡ p.placed_info)
        × ((node_id : ℕ)
            → addr_at q.new_table mine.new_com_id node_id
              ≡ addr_at p.new_table mine.new_com_id node_id)
  unfolding place_one
  place_one_other i new_id r p q other foreign h =
      let e = ok-injective h in
      (
        sym (ap (λ x. x.placed_info) e) ∙ if_false (is_own local_info r) _ _ foreign,
        λ node_id.
            ap (λ x. addr_at x.new_table mine.new_com_id node_id) (sym e)
            ∙ addr_at-insert_other i mine.new_com_id _ p.new_table node_id other,
      )

  place_com_other :
      (i new_id : ℕ) (rs : List ReconfigResult) (p q : Placement)
      → i ≢ mine.new_com_id
      → ((r : ReconfigResult) → Mem r rs → is_own local_info r ≡ true → i ≡ mine.new_com_id)
      → place_com local_info (some mine) i new_id rs p ≡ ok q
      → (q.placed_info ≡ p.placed_info)
        × ((node_id : ℕ)
            → addr_at q.new_table mine.new_com_id node_id
              ≡ addr_at p.new_table mine.new_com_id node_id)
  unfolding place_com
  place_com_other i new_id [] p q other owns h =
      let e = ok-injective h in
      (
        ap (λ x. x.placed_info) (sym e),
        λ node_id. ap (λ x. addr_at x.new_table mine.new_com_id node_id) (sym e),
      )
  place_com_other i new_id (r ∷ rs) p q other owns h =
      let (mid, e, rest) =
        >>=-eq-ok (place_one local_info (some mine) i new_id r p)
          (place_com local_info (some mine) i (suc new_id) rs) h in
      let foreign : is_own local_info r ≡ false = elim (Bool-cases (is_own local_info r)) [
        | inl own ↦ absurd (other (owns r mem-cons_self own))
        | inr f ↦ f
      ] in
      let (info, table) = place_one_other i new_id r p mid other foreign e in
      let (info', table') =
        place_com_other i (suc new_id) rs mid q other (λ s m. owns s (mem-cons_of_mem r m)) rest in
      (info' ∙ info, λ node_id. table' node_id ∙ table node_id)

  -- One place of the own committee: the own result is placed, and an earlier place is kept.
  place_one_own :
      (new_id : ℕ) (r : ReconfigResult) (p q : Placement)
      → is_own local_info r ≡ true
      → place_one local_info (some mine) mine.new_com_id new_id r p ≡ ok q
      → IsPlaced local_info mine q × (q.placed_info.node_id ≡ new_id)
  unfolding place_one
  place_one_own new_id r p q own h =
      let e = ok-injective h in
      let info : q.placed_info ≡ record local_info { com_id = mine.new_com_id; node_id = new_id } =
        ap (λ x. x.placed_info) (sym e) ∙ if_true (is_own local_info r) _ _ own in
      let id : q.placed_info.node_id ≡ new_id = ap (λ x. x.node_id) info in
      (
        record {
          new_com = ap (λ x. x.com_id) info;
          same_shard = ap (λ x. x.shard_id) info;
          same_addr = ap (λ x. x.node_addr) info;
          entry =
              ap (λ x. addr_at x.new_table mine.new_com_id q.placed_info.node_id) (sym e)
              ∙ addr_at-insert_place mine.new_com_id new_id q.placed_info.node_id
                  r.old_node_info.node_addr p.new_table
              ∙ if_true (new_id == q.placed_info.node_id) _ _ (ground arith)
              ∙ same_info-addr r.old_node_info local_info own;
        },
        id,
      )

  place_one_kept :
      (new_id : ℕ) (r : ReconfigResult) (p q : Placement)
      → is_own local_info r ≡ false
      → IsPlaced local_info mine p
      → p.placed_info.node_id < new_id
      → place_one local_info (some mine) mine.new_com_id new_id r p ≡ ok q
      → IsPlaced local_info mine q × (q.placed_info.node_id ≡ p.placed_info.node_id)
  unfolding place_one
  place_one_kept new_id r p q foreign placed earlier h =
      let e = ok-injective h in
      let info : q.placed_info ≡ p.placed_info =
        ap (λ x. x.placed_info) (sym e) ∙ if_false (is_own local_info r) _ _ foreign in
      let id : q.placed_info.node_id ≡ p.placed_info.node_id = ap (λ x. x.node_id) info in
      (
        record {
          new_com = ap (λ x. x.com_id) info ∙ placed.new_com;
          same_shard = ap (λ x. x.shard_id) info ∙ placed.same_shard;
          same_addr = ap (λ x. x.node_addr) info ∙ placed.same_addr;
          entry =
              ap (λ x. addr_at x.new_table mine.new_com_id q.placed_info.node_id) (sym e)
              ∙ addr_at-insert_place mine.new_com_id new_id q.placed_info.node_id
                  r.old_node_info.node_addr p.new_table
              ∙ if_false (new_id == q.placed_info.node_id) _ _ (ground arith)
              ∙ ap (addr_at p.new_table mine.new_com_id) id
              ∙ placed.entry;
        },
        id,
      )

  place_com_own :
      (new_id : ℕ) (rs : List ReconfigResult) (p q : Placement)
      → (IsPlaced local_info mine p × (p.placed_info.node_id < new_id))
        ⊎ (any_of (is_own local_info) rs ≡ true)
      → place_com local_info (some mine) mine.new_com_id new_id rs p ≡ ok q
      → IsPlaced local_info mine q
  unfolding place_com any_of
  place_com_own new_id [] p q (inl (placed, _)) h =
      subst (IsPlaced local_info mine) (ok-injective h) placed
  place_com_own new_id [] p q (inr none_own) h = cc
  place_com_own new_id (r ∷ rs) p q found h =
      let (mid, e, rest) =
        >>=-eq-ok (place_one local_info (some mine) mine.new_com_id new_id r p)
          (place_com local_info (some mine) mine.new_com_id (suc new_id) rs) h in
      elim (Bool-cases (is_own local_info r)) [
        | inl own ↦
            let (placed, at) = place_one_own new_id r p mid own e in
            place_com_own (suc new_id) rs mid q (inl (placed, omega arith)) rest
        | inr foreign ↦ elim found [
          | inl (placed, earlier) ↦
              let (placed', at) = place_one_kept new_id r p mid foreign placed earlier e in
              place_com_own (suc new_id) rs mid q (inl (placed', omega arith)) rest
          | inr own_later ↦
              place_com_own (suc new_id) rs mid q
                (inr (sym (ap (λ b. b || any_of (is_own local_info) rs) foreign) ∙ own_later)) rest
        ]
      ]

  kept_elsewhere :
      (p q : Placement)
      → q.placed_info ≡ p.placed_info
      → ((node_id : ℕ)
          → addr_at q.new_table mine.new_com_id node_id
            ≡ addr_at p.new_table mine.new_com_id node_id)
      → IsPlaced local_info mine p
      → IsPlaced local_info mine q
  kept_elsewhere p q info table placed = record {
    new_com = ap (λ x. x.com_id) info ∙ placed.new_com;
    same_shard = ap (λ x. x.shard_id) info ∙ placed.same_shard;
    same_addr = ap (λ x. x.node_addr) info ∙ placed.same_addr;
    entry =
        table q.placed_info.node_id
        ∙ ap (λ x. addr_at p.new_table mine.new_com_id x.node_id) info
        ∙ placed.entry;
  }

  -- The loop over the new committees, while the own one is still to come or after it.
  pub place_coms_own :
      (sorted_of : ℕ → List ReconfigResult) (i count : ℕ) (p q : Placement)
      → ((j : ℕ) (r : ReconfigResult)
          → Mem r (sorted_of j)
          → is_own local_info r ≡ true
          → j ≡ mine.new_com_id)
      → any_of (is_own local_info) (sorted_of mine.new_com_id) ≡ true
      → (IsPlaced local_info mine p × (mine.new_com_id < i))
        ⊎ ((i ≤ mine.new_com_id) × (mine.new_com_id < i + count))
      → place_coms local_info (some mine) sorted_of i count p ≡ ok q
      → IsPlaced local_info mine q
  unfolding place_coms
  place_coms_own sorted_of i zero p q owns has (inl (placed, _)) h =
      subst (IsPlaced local_info mine) (ok-injective h) placed
  place_coms_own sorted_of i zero p q owns has (inr range) h = absurd (omega arith)
  place_coms_own sorted_of i (suc count) p q owns has found h =
      let start : Placement = record p { new_table = insert i [] p.new_table } in
      let (mid, e, rest) =
        >>=-eq-ok (place_com local_info (some mine) i 0 (sorted_of i) start)
          (place_coms local_info (some mine) sorted_of (suc i) count) h in
      elim (ℕ_discrete i mine.new_com_id) [
        | yes own ↦
            let placed = place_com_own 0 (sorted_of mine.new_com_id) start mid (inr has) (
              subst (λ j. place_com local_info (some mine) j 0 (sorted_of j) start ≡ ok mid) own
                e) in
            place_coms_own sorted_of (suc i) count mid q owns has (inl (placed, omega arith)) rest
        | no other ↦
            let (info, table) =
              place_com_other i 0 (sorted_of i) start mid other (λ r m. owns i r m) e in
            let cleared = λ (node_id : ℕ).
              table node_id ∙ addr_at-insert_other i mine.new_com_id [] p.new_table node_id other in
            place_coms_own sorted_of (suc i) count mid q owns has
              (later found other (λ placed. kept_elsewhere p mid info cleared placed)) rest
      ]
    where
      later :
          {a b : Type 0}
          → (a × (mine.new_com_id < i))
            ⊎ ((i ≤ mine.new_com_id) × (mine.new_com_id < i + suc count))
          → i ≢ mine.new_com_id
          → (a → b)
          → (b × (mine.new_com_id < suc i))
            ⊎ ((suc i ≤ mine.new_com_id) × (mine.new_com_id < suc i + count))
      later (inl (placed, below)) other keep = inl (keep placed, omega arith)
      later (inr range) other keep = inr (omega arith)
