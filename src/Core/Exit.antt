-- ===== src/Core/Exit.antt =====
-- How a call ends. The package-level `log.Error` of log/root.go calls `os.Exit(1)`, so a branch that
-- logs an error ends the process there: `exited`. A nil dereference or an index out of range is
-- `panicked`; a send on a full channel, or a lock that is never released, is `blocked`.
use less_chain.Prelude.{Bool, Option, false, none, not, refl, some, true, ◌≡◌}

pub data Outcome {ℓ} (A : Type ℓ) : Type ℓ where
  ok : A → Outcome A
  exited panicked blocked : Outcome A

infixl 5 ◌>>=◌
abbrev pub ◌>>=◌ {ℓ κ} : {A : Type ℓ} {B : Type κ} → Outcome A → (A → Outcome B) → Outcome B
ok a >>= f = f a
exited >>= f = exited
panicked >>= f = panicked
blocked >>= f = blocked

infixl 5 ◌>>◌
abbrev pub ◌>>◌ {ℓ} : {B : Type ℓ} → Outcome (Unit {0}) → Outcome B → Outcome B
m >> k = m >>= λ _. k

-- A read through a pointer or an index that may be missing.
abbrev pub or_panic {ℓ} : {A : Type ℓ} → Option A → Outcome A
or_panic none = panicked
or_panic (some a) = ok a

-- `if bad { log.Error(...) }`
abbrev pub exit_if : Bool → Outcome (Unit {0})
exit_if true = exited
exit_if false = ok tt

-- An index out of range.
abbrev pub panic_if : Bool → Outcome (Unit {0})
panic_if true = panicked
panic_if false = ok tt

-- Inversion of a successful bind.
pub >>=-eq-ok {ℓ κ} :
    {A : Type ℓ} {B : Type κ} (call : Outcome A) (next : A → Outcome B) {out : B}
    → (call >>= next) ≡ ok out
    → (mid : A) × (call ≡ ok mid) × (next mid ≡ ok out)
>>=-eq-ok panicked next run = cc
>>=-eq-ok blocked next run = cc
>>=-eq-ok exited next run = cc
>>=-eq-ok (ok mid) next run = (mid, refl, run)

pub ok-injective {ℓ} : {A : Type ℓ} {a b : A} → ok a ≡ ok b → a ≡ b
ok-injective e = cc

pub exit_if-eq-ok : (valid : Bool) {u : Unit {0}} → exit_if (not valid) ≡ ok u → valid ≡ true
exit_if-eq-ok true h = refl
exit_if-eq-ok false h = cc

pub panic_if-eq-ok : (bad : Bool) {u : Unit {0}} → panic_if bad ≡ ok u → bad ≡ false
panic_if-eq-ok true h = cc
panic_if-eq-ok false h = refl

-- `if err != nil { log.Error(...) }`
abbrev pub or_exit {ℓ} : {A : Type ℓ} → Option A → Outcome A
or_exit none = exited
or_exit (some a) = ok a
