-- ===== src/Pbft/Votes.antt =====
-- The vote maps only grow.
use mathlib.Core.Path.{subst}
use less_chain.Pbft.{set2_d_map}
use less_chain.Prelude.{
  ==_iff, Bool-cases, List, [], arith, inl, inr, length, length-append, ℕ, ◌==◌, ◌∷◌, ◌≡◌, ◌≤◌,
}
use less_chain.Prelude.Dict.{Dict, get_or, get_or-insert}
use less_chain.TxPool.{add_addr, member}

abbrev pub votes_for : ℕ → Dict (List ℕ) → ℕ
votes_for digest votes = length (get_or digest [] votes)

length-add_addr : (a : ℕ) (xs : List ℕ) → length xs ≤ length (add_addr a xs)
length-add_addr a xs = elim (Bool-cases (member a xs)) [
  | inl e ↦ rw e (omega arith)
  | inr e ↦ let l = length-append xs (a ∷ []) in rw e (omega arith)
]

pub set2_d_map-grows :
    (key val d : ℕ) (votes : Dict (List ℕ))
    → votes_for d votes ≤ votes_for d (set2_d_map key val votes)
set2_d_map-grows key val d votes =
    let g = get_or-insert key d [] (add_addr val (get_or key [] votes)) votes in
    let l = length-add_addr val (get_or key [] votes) in
    elim (Bool-cases (key == d)) [
      | inl e ↦
          let same : key ≡ d = (==_iff key d).0 e in
          rw (g, e)
            (subst (λ k. votes_for k votes ≤ length (add_addr val (get_or key [] votes))) same l)
      | inr e ↦ rw (g, e) (omega arith)
    ]
