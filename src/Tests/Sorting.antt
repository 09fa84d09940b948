-- ===== src/Tests/Sorting.antt =====
-- A sort that does what node/reconfig.go relies on `sort.Slice` for.
use mathlib.Core.List.Perm
use mathlib.Core.Logic.Or
use mathlib.Core.List.{Pairwise, Perm, eq-or-mem_of_mem-cons, not-mem-nil}
use mathlib.Core.Path.{subst}
use less_chain.Node.{ReconfigResult}
use less_chain.Node.Placement.{IsOrdered, IsSortSlice, less_bytes}
use less_chain.Prelude.{
  Bool-cases, Bytes, List, [], arith, false, if_false, if_true, if◌then◌else◌, inl, inr, refl, sym,
  true, ◌∷◌, ◌≡◌,
}

less_bytes-asymm : (a b : Bytes) → less_bytes a b ≡ true → less_bytes b a ≡ false
unfolding less_bytes
less_bytes-asymm [] [] h = refl
less_bytes-asymm [] (y ∷ b) h = refl
less_bytes-asymm (x ∷ a) [] h = cc
less_bytes-asymm (x ∷ a) (y ∷ b) h = ground (arith, less_bytes-asymm a b)

less_bytes_trans :
    (a b c : Bytes) → less_bytes b a ≡ false → less_bytes c b ≡ false → less_bytes c a ≡ false
unfolding less_bytes
less_bytes_trans [] b [] h k = refl
less_bytes_trans [] [] (z ∷ c) h k = refl
less_bytes_trans [] (y ∷ b) (z ∷ c) h k = refl
less_bytes_trans (x ∷ a) [] c h k = cc
less_bytes_trans (x ∷ a) (y ∷ b) [] h k = cc
less_bytes_trans (x ∷ a) (y ∷ b) (z ∷ c) h k = ground (arith, less_bytes_trans a b c)

unfoldable pub put_in_order : ReconfigResult → List ReconfigResult → List ReconfigResult
put_in_order r [] = r ∷ []
put_in_order r (s ∷ ss) = if less_bytes s.vrf r.vrf then s ∷ put_in_order r ss else r ∷ s ∷ ss

unfoldable pub order_by_vrf : List ReconfigResult → List ReconfigResult
unfolding put_in_order
order_by_vrf [] = []
order_by_vrf (r ∷ rs) = put_in_order r (order_by_vrf rs)

put_in_order-perm :
    (r : ReconfigResult) (ss : List ReconfigResult) → Perm (put_in_order r ss) (r ∷ ss)
unfolding put_in_order
put_in_order-perm r [] = Perm.rfl
put_in_order-perm r (s ∷ ss) = elim (Bool-cases (less_bytes s.vrf r.vrf)) [
  | inl later ↦
      subst (λ l. Perm l (r ∷ s ∷ ss)) (sym (if_true (less_bytes s.vrf r.vrf) _ _ later))
        (Perm.trans (Perm.cons s (put_in_order-perm r ss)) (Perm.swap r s ss))
  | inr here ↦
      subst (λ l. Perm l (r ∷ s ∷ ss)) (sym (if_false (less_bytes s.vrf r.vrf) _ _ here)) Perm.rfl
]

put_in_order-IsOrdered :
    (r : ReconfigResult) (ss : List ReconfigResult) → IsOrdered ss → IsOrdered (put_in_order r ss)
unfolding put_in_order
put_in_order-IsOrdered r [] o = Pairwise.cons (λ s m. absurd (not-mem-nil m)) Pairwise.nil
put_in_order-IsOrdered r (s ∷ ss) (Pairwise.cons below o) =
    elim (Bool-cases (less_bytes s.vrf r.vrf)) [
      | inl later ↦ subst IsOrdered (sym (if_true (less_bytes s.vrf r.vrf) _ _ later)) (
          Pairwise.cons
            (λ t m.
              Or.elim (hlevel) (eq-or-mem_of_mem-cons ((Perm.mem_iff (put_in_order-perm r ss)).0 m))
                (λ e.
                  subst (λ x. less_bytes x.vrf s.vrf ≡ false) (sym e)
                    (less_bytes-asymm s.vrf r.vrf later))
                (below t))
            (put_in_order-IsOrdered r ss o))
      | inr here ↦ subst IsOrdered (sym (if_false (less_bytes s.vrf r.vrf) _ _ here)) (
          Pairwise.cons
            (λ t m.
              Or.elim (hlevel) (eq-or-mem_of_mem-cons m)
                (λ e. subst (λ x. less_bytes x.vrf r.vrf ≡ false) (sym e) here)
                (λ further. less_bytes_trans r.vrf s.vrf t.vrf here (below t further)))
            (Pairwise.cons below o))
    ]

order_by_vrf-perm : (rs : List ReconfigResult) → Perm (order_by_vrf rs) rs
unfolding order_by_vrf
order_by_vrf-perm [] = Perm.rfl
order_by_vrf-perm (r ∷ rs) =
    Perm.trans (put_in_order-perm r (order_by_vrf rs)) (Perm.cons r (order_by_vrf-perm rs))

order_by_vrf-IsOrdered : (rs : List ReconfigResult) → IsOrdered (order_by_vrf rs)
unfolding order_by_vrf
order_by_vrf-IsOrdered [] = Pairwise.nil
order_by_vrf-IsOrdered (r ∷ rs) =
    put_in_order-IsOrdered r (order_by_vrf rs) (order_by_vrf-IsOrdered rs)

pub order_by_vrf-IsSortSlice : IsSortSlice order_by_vrf
order_by_vrf-IsSortSlice = record {
  sort_slice-perm = order_by_vrf-perm;
  sort_slice-IsOrdered = order_by_vrf-IsOrdered;
}
