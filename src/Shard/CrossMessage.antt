-- ===== src/Shard/CrossMessage.antt =====
-- shard/crossMessage.go: a message with its command in front. A command of more than twelve bytes
-- panics, and a message of fewer than twelve ends the process.
use less_chain.Core.{Outcome, exit_if, ok, or_panic, panicked, ◌>>=◌, ◌>>◌}
use less_chain.MessageHub.Connections.{written}
use less_chain.Prelude.{
  All, Bytes, Option, [], ap, arith, drop, drop-length-append, length, length-append, ltb, none,
  not, refl, replicate, select, some, suc, take, take-length-append, zero, ℕ, ◌++◌, ◌+◌, ◌-◌, ◌<◌,
  ◌==◌, ◌∷◌, ◌≡◌, ◌≤◌,
}

abbrev pub prefix_cmd_length : ℕ
prefix_cmd_length = 12

-- The loop that writes the command over a buffer of zeros; `none` is an index out of range.
copy_into : Bytes → Bytes → Option Bytes
copy_into [] b = some b
copy_into (v ∷ cmd) [] = none
copy_into (v ∷ cmd) (x ∷ b) = elim (copy_into cmd b) [
  | none ↦ none
  | some written ↦ some (v ∷ written)
]

unfoldable pub joint_message : Bytes → Bytes → Outcome Bytes
unfolding copy_into
joint_message cmd content = do
  b ← or_panic (copy_into cmd (replicate prefix_cmd_length 0))
  ok (b ++ content)

unfoldable pub split_message : Bytes → Outcome (Bytes × Bytes)
split_message message =
    exit_if (ltb (length message) prefix_cmd_length)
    >> ok (
      select (λ v. not (v == 0)) (take prefix_cmd_length message),
      drop prefix_cmd_length message,
    )

copy_into_zeros :
    (cmd : Bytes) (k n : ℕ)
    → length cmd + k ≡ n
    → copy_into cmd (replicate n 0) ≡ some (cmd ++ replicate k 0)
unfolding copy_into
copy_into_zeros [] k n e = ap (λ m. some (replicate m 0)) (omega arith)
copy_into_zeros (v ∷ cmd) k zero e = absurd (omega arith)
copy_into_zeros (v ∷ cmd) k (suc n) e = rw (copy_into_zeros cmd k n (omega arith)) refl

copy_into_long : (cmd b : Bytes) → length b < length cmd → copy_into cmd b ≡ none
unfolding copy_into
copy_into_long [] b h = absurd (omega arith)
copy_into_long (v ∷ cmd) [] h = refl
copy_into_long (v ∷ cmd) (x ∷ b) h = rw (copy_into_long cmd b (omega arith)) refl

select_zeros : (n : ℕ) → select (λ v. not (v == 0)) (replicate n 0) ≡ []
select_zeros zero = refl
select_zeros (suc n) = select_zeros n

select_nonzero :
    (cmd : Bytes) (n : ℕ)
    → All (λ v. 0 < v) cmd
    → select (λ v. not (v == 0)) (cmd ++ replicate n 0) ≡ cmd
select_nonzero [] n h = select_zeros n
select_nonzero (v ∷ cmd) n h = ground (arith, select_nonzero cmd n)

length-zeros : (n : ℕ) → length {A = ℕ} (replicate n 0) ≡ n
length-zeros zero = refl
length-zeros (suc n) = omega (arith, length-zeros n)

split_message-append :
    (front content : Bytes)
    → length front ≡ 12
    → split_message (front ++ content) ≡ ok (select (λ v. not (v == 0)) front, content)
unfolding split_message
split_message-append front content e = rw (← e) (
    ground (
      arith,
      length-append front content,
      take-length-append front content,
      drop-length-append front content,
    ))

-- A command of at most twelve bytes, none of them zero, comes back from the joint message with its
-- content.
split_message-joint_message :
    (cmd content : Bytes)
    → length cmd ≤ 12
    → All (λ v. 0 < v) cmd
    → (joint_message cmd content >>= split_message) ≡ ok (cmd, content)
unfolding joint_message
split_message-joint_message cmd content fits nonzero =
    let k = 12 - length cmd in
    rw (copy_into_zeros cmd k 12 (omega arith)) (
      rw
        (split_message-append (cmd ++ replicate k 0) content
          (omega (arith, length-append cmd (replicate k 0), length-zeros k)))
        (rw (select_nonzero cmd k nonzero) refl))

-- A longer command panics.
joint_message_long : (cmd content : Bytes) → 12 < length cmd → joint_message cmd content ≡ panicked
unfolding joint_message
joint_message_long cmd content h = rw (copy_into_long cmd (replicate 12 0) h) refl
