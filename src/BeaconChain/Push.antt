-- ===== src/BeaconChain/Push.antt =====
-- Which blocks reach the clients and the committees.
use mathlib.Core.Path.{subst}
use less_chain.BeaconChain.{BeaconChain, TbBlock, to_push_block}
use less_chain.Core.{>>=-eq-ok, exit_if, ok, ok-injective}
use less_chain.Prelude.{
  ==_iff, Bool, Bool-cases, Option-cases, ap, arith, false, inl, inr, none, some, sub64, sym, true,
  ℕ, ◌==◌, ◌∙◌, ◌≡◌,
}
use less_chain.Prelude.Dict.{Dict, contains, insert, is_some, lookup, lookup-insert}

-- Each stored block stands at its own height.
unfoldable pub IsKeyed : Dict TbBlock → Type 0
IsKeyed blocks = (h : ℕ) (block : TbBlock) → lookup h blocks ≡ some block → block.height ≡ h

insert-IsKeyed :
    (block : TbBlock) (blocks : Dict TbBlock)
    → IsKeyed blocks
    → IsKeyed (insert block.height block blocks)
unfolding IsKeyed
insert-IsKeyed block blocks keyed h b found =
    let l = lookup-insert block.height h block blocks in
    elim (Bool-cases (block.height == h)) [
      | inl e ↦
          let same : block ≡ b = ground arith in
          ap (λ x. x.height) (sym same) ∙ (==_iff block.height h).0 e
      | inr e ↦ keyed h b (ground arith)
    ]

fresh :
    (h : ℕ) (blocks : Dict TbBlock) {u : Unit {0}}
    → exit_if (contains h blocks) ≡ ok u
    → lookup h blocks ≡ none
fresh h blocks run = elim (Option-cases (lookup h blocks)) [
  | inl e ↦ e
  | inr (b, e) ↦ let known = ap is_some e in absurd (exits _ known run)
]
  where
    exits : (b : Bool) {u : Unit {0}} → b ≡ true → exit_if b ≡ ok u → ⊥
    exits true e r = cc
    exits false e r = cc

-- If the stored blocks stand at their heights and a call that returns pushes a block, then the new
-- block's height had no block before, the pushed block is a stored one, its height is the new one's
-- less the confirmation depth (wrapping at 64 bits), and the stored blocks still stand at their
-- heights.
pub to_push_block-depth :
    (block pushed : TbBlock) (chain chain' : BeaconChain)
    → IsKeyed chain.tb_blocks
    → to_push_block block chain ≡ ok (some pushed, chain')
    → IsKeyed chain'.tb_blocks
      × (pushed.height ≡ sub64 block.height chain.height2_confirm)
      × (lookup block.height chain.tb_blocks ≡ none)
      × (lookup pushed.height chain'.tb_blocks ≡ some pushed)
unfolding to_push_block IsKeyed
to_push_block-depth block pushed chain chain' keyed run =
    let (_, new, last) = >>=-eq-ok (exit_if (contains block.height chain.tb_blocks)) _ run in
    let e = ok-injective last in
    let stored : insert block.height block chain.tb_blocks ≡ chain'.tb_blocks =
      ap (λ r. r.1.tb_blocks) e in
    let found : lookup (sub64 block.height chain.height2_confirm)
          (insert block.height block chain.tb_blocks)
        ≡ some pushed =
      ap (λ r. r.0) e in
    let keyed' = insert-IsKeyed block chain.tb_blocks keyed in
    let depth = keyed' _ pushed found in
    (
      subst IsKeyed stored keyed',
      depth,
      fresh block.height chain.tb_blocks new,
      subst (λ h. lookup h chain'.tb_blocks ≡ some pushed) (sym depth)
          (subst (λ d. lookup (sub64 block.height chain.height2_confirm) d ≡ some pushed) stored
            found),
    )
