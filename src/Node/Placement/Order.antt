-- ===== src/Node/Placement/Order.antt =====
-- node/reconfig.go: the order by VRF value, and the grouping by new committee.
use mathlib.Core.List.Perm
use mathlib.Core.List
use mathlib.Core.List.Pairwise
use mathlib.Core.Logic.Or
use mathlib.Core.List.{
  Mem, Mem-prop, Pairwise, Perm, eq-or-mem_of_mem-cons, mem-cons_of_mem, mem-cons_self, not-mem-nil,
}
use mathlib.Core.Logic.{ite}
use mathlib.Core.Path.{ap₂, subst}
use less_chain.Node.{ComReconfigResults, ReconfigResult}
use less_chain.Node.Placement.{IsOrdered, group_coms, group_one, group_results, less_bytes}
use less_chain.Prelude.{
  Bool, Bool-cases, Bytes, List, [], ap, append-nil, append_assoc, arith, false, if_false, if_true,
  if◌then◌else◌, inl, inr, refl, select, select-append, sym, true, ℕ, ◌++◌, ◌==◌, ◌∙◌, ◌∷◌, ◌≡◌,
}
use less_chain.Prelude.Dict.{Dict, get_or, get_or-insert}

less_bytes_irrefl : (a : Bytes) → less_bytes a a ≡ false
unfolding less_bytes
less_bytes_irrefl [] = refl
less_bytes_irrefl (x ∷ a) = ground (arith, less_bytes_irrefl a)

-- Two byte strings of which neither comes first are equal.
pub less_bytes-total : (a b : Bytes) → less_bytes a b ≡ false → less_bytes b a ≡ false → a ≡ b
unfolding less_bytes
less_bytes-total [] [] h k = refl
less_bytes-total [] (y ∷ b) h k = cc
less_bytes-total (x ∷ a) [] h k = cc
less_bytes-total (x ∷ a) (y ∷ b) h k = ground (arith, less_bytes-total a b)

abbrev Before : ReconfigResult → ReconfigResult → Type 0
Before r s = less_bytes s.vrf r.vrf ≡ false

Before-prop : (r s : ReconfigResult) → IsProp (Before r s)
Before-prop r s = hlevel

-- Results with one VRF value are one result.
abbrev pub DistinctVrfs : List ReconfigResult → Type 0
DistinctVrfs rs = (r s : ReconfigResult) → Mem r rs → Mem s rs → r.vrf ≡ s.vrf → r ≡ s

-- The head of an ordered list comes before every element of it.
head_first :
    (r : ReconfigResult) (rs : List ReconfigResult)
    → IsOrdered (r ∷ rs)
    → (s : ReconfigResult) → Mem s (r ∷ rs)
    → Before r s
head_first r rs (Pairwise.cons below _) s m =
    Or.elim (Before-prop r s) (eq-or-mem_of_mem-cons m)
      (λ e. subst (λ t. Before r t) (sym e) (less_bytes_irrefl r.vrf)) (below s)

-- Two ordered rearrangements of each other are one list.
pub IsOrdered-unique :
    (rs ss : List ReconfigResult)
    → DistinctVrfs rs
    → IsOrdered rs
    → IsOrdered ss
    → Perm rs ss
    → rs ≡ ss
IsOrdered-unique [] ss distinct os ot p = Perm.nil-eq p
IsOrdered-unique (r ∷ rs) [] distinct os ot p = Perm.eq-nil p
IsOrdered-unique (r ∷ rs) (s ∷ ss) distinct os ot p =
    let s_mem = (Perm.mem_iff p).1 mem-cons_self in
    let r_mem = (Perm.mem_iff p).0 mem-cons_self in
    let first =
      distinct r s mem-cons_self s_mem
        (less_bytes-total r.vrf s.vrf (head_first s ss ot r r_mem) (head_first r rs os s s_mem)) in
    let rest = Perm.cons_inv (Perm.trans p (Perm.cons' (sym first) Perm.rfl)) in
    ap₂ ◌∷◌ first (
      IsOrdered-unique rs ss
        (λ x y mx my e. distinct x y (mem-cons_of_mem r mx) (mem-cons_of_mem r my) e)
        (Pairwise.of_cons os) (Pairwise.of_cons ot) rest)

-- All results, in the order in which the map is walked.
unfoldable pub all_results : Dict ComReconfigResults → List ReconfigResult
all_results [] = []
all_results ((com_id, rets) ∷ coms) = rets.results ++ all_results coms

-- Those of one new committee.
abbrev pub results_of : ℕ → List ReconfigResult → List ReconfigResult
results_of i = select (λ r. r.new_com_id == i)

group_results-select :
    (rs : List ReconfigResult) (groups : Dict (List ReconfigResult)) (i : ℕ)
    → get_or i [] (group_results rs groups) ≡ get_or i [] groups ++ results_of i rs
unfolding group_results group_one
group_results-select [] groups i = sym (append-nil (get_or i [] groups))
group_results-select (r ∷ rs) groups i = ground (
  arith,
  group_results-select rs (group_one r groups) i,
  get_or-insert r.new_com_id i [] (get_or r.new_com_id [] groups ++ r ∷ []) groups,
  append_assoc (get_or i [] groups) (r ∷ []) (results_of i rs),
)

group_coms-select :
    (coms : Dict ComReconfigResults) (groups : Dict (List ReconfigResult)) (i : ℕ)
    → get_or i [] (group_coms coms groups) ≡ get_or i [] groups ++ results_of i (all_results coms)
unfolding group_coms all_results
group_coms-select [] groups i = sym (append-nil (get_or i [] groups))
group_coms-select ((com_id, rets) ∷ coms) groups i =
    group_coms-select coms (group_results rets.results groups) i
    ∙ ap (λ l. l ++ results_of i (all_results coms)) (group_results-select rets.results groups i)
    ∙ append_assoc (get_or i [] groups) (results_of i rets.results)
        (results_of i (all_results coms))
    ∙ ap (λ l. get_or i [] groups ++ l)
        (sym (select-append (λ r. r.new_com_id == i) rets.results (all_results coms)))

pub group_coms_lem :
    (coms : Dict ComReconfigResults) (i : ℕ)
    → get_or i [] (group_coms coms []) ≡ results_of i (all_results coms)
group_coms_lem coms i = group_coms-select coms [] i

dec_true : (b : Bool) → Dec (b ≡ true)
dec_true true = yes refl
dec_true false = no (λ e. cc)

if-dec_true {ℓ} : {A : Type ℓ} (b : Bool) (x y : A) → (if b then x else y) ≡ ite (dec_true b) x y
unfolding dec_true
if-dec_true true x y = refl
if-dec_true false x y = refl

select-filter {ℓ} :
    {A : Type ℓ} (p : A → Bool) (xs : List A)
    → select p xs ≡ List.filter {p = λ x. p x ≡ true} (λ x. dec_true (p x)) xs
select-filter p [] = refl
select-filter p (x ∷ xs) =
    ap (λ rest. if p x then x ∷ rest else rest) (select-filter p xs) ∙ if-dec_true (p x) _ _

pub select-perm {ℓ} :
    {A : Type ℓ} (p : A → Bool) {xs ys : List A} → Perm xs ys → Perm (select p xs) (select p ys)
select-perm p {xs} {ys} perm =
    rw (select-filter p xs, select-filter p ys) (Perm.filter (λ x. dec_true (p x)) perm)

pub select-mem {ℓ} :
    {A : Type ℓ} (p : A → Bool) (xs : List A) (x : A) → Mem x (select p xs) → Mem x xs
select-mem p [] x m = m
select-mem p (y ∷ xs) x m = elim (Bool-cases (p y)) [
  | inl taken ↦
      Or.elim Mem-prop (eq-or-mem_of_mem-cons (subst (Mem x) (if_true (p y) _ _ taken) m))
        (λ e. subst (λ z. Mem z (y ∷ xs)) (sym e) mem-cons_self)
        (λ later. mem-cons_of_mem y (select-mem p xs x later))
  | inr left ↦ mem-cons_of_mem y (select-mem p xs x (subst (Mem x) (if_false (p y) _ _ left) m))
]

pub select-passes {ℓ} :
    {A : Type ℓ} (p : A → Bool) (xs : List A) (x : A) → Mem x (select p xs) → p x ≡ true
select-passes p [] x m = absurd (not-mem-nil m)
select-passes p (y ∷ xs) x m = elim (Bool-cases (p y)) [
  | inl taken ↦
      Or.elim (hlevel) (eq-or-mem_of_mem-cons (subst (Mem x) (if_true (p y) _ _ taken) m))
        (λ e. ap p e ∙ taken) (λ later. select-passes p xs x later)
  | inr left ↦ select-passes p xs x (subst (Mem x) (if_false (p y) _ _ left) m)
]

pub mem-select {ℓ} :
    {A : Type ℓ} (p : A → Bool) (xs : List A) (x : A) → Mem x xs → p x ≡ true → Mem x (select p xs)
mem-select p [] x m h = m
mem-select p (y ∷ xs) x m h =
    Or.elim Mem-prop (eq-or-mem_of_mem-cons m)
      (λ e.
        subst (Mem x) (sym (if_true (p y) _ _ (ap p (sym e) ∙ h)))
          (subst (λ z. Mem x (z ∷ select p xs)) e mem-cons_self))
      (λ later.
        let there = mem-select p xs x later h in
        elim (Bool-cases (p y)) [
          | inl taken ↦ subst (Mem x) (sym (if_true (p y) _ _ taken)) (mem-cons_of_mem y there)
          | inr left ↦ subst (Mem x) (sym (if_false (p y) _ _ left)) there
        ])
