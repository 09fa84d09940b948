-- ===== src/Committee/Schedule.antt =====
-- When a committee is to be reconfigured.
use less_chain.Committee.{Committee, com_add_tbs}
use less_chain.Core.{ok}
use less_chain.Prelude.{
  ==_iff, Bool-cases, arith, false, inl, inr, leb, max, refl, set, true, ℕ, ◌%◌, ◌<◌, ◌==◌, ◌≡◌,
  ◌≤◌,
}

-- The seed of a reconfiguration that is due is the height of a beacon block that has been seen, a
-- multiple of the configured distance.
pub record IsScheduled (c : Committee) : Type 0 where
  pub due :
      c.to_reconfig ≡ true
      → (0 < c.reconfig_seed_height)
        × (c.reconfig_seed_height % c.height2_reconfig ≡ 0)
        × (c.reconfig_seed_height ≤ c.tb_height)

-- If the distance is not zero, `AddTBs` returns for every beacon block; it raises the height seen to
-- the block's, never lowers it, and a reconfiguration that is due stays one at a multiple of the
-- distance.
pub com_add_tbs-IsScheduled :
    (height : ℕ) (c : Committee)
    → 0 < c.height2_reconfig
    → IsScheduled c
    → (c' : Committee) × (com_add_tbs height c ≡ ok c')
      × (c'.tb_height ≡ max height c.tb_height)
      × IsScheduled c'
unfolding com_add_tbs
com_add_tbs-IsScheduled height c set h =
    let some_distance : (c.height2_reconfig == 0) ≡ false = ground arith in
    let raised : Committee = record c { tb_height = height } in
    let due : Committee = record c {
      tb_height = height;
      reconfig_seed_height = height;
      to_reconfig = true;
    } in
    elim (Bool-cases (leb height c.tb_height)) [
      | inl e ↦ (c, rw e refl, ground arith, h)
      | inr e ↦ elim (Bool-cases (height % c.height2_reconfig == 0)) [
        | inl f ↦ (
          due,
          rw (e, some_distance, f) refl,
          ground arith,
          record { due = λ _. (ground arith, (==_iff _ _).0 f, omega arith) },
        )
        | inr f ↦ (
          raised,
          rw (e, some_distance, f) refl,
          ground arith,
          record { due = λ t. let (a, b, low) = h.due t in (a, b, ground arith) },
        )
      ]
    ]
