-- ===== src/Tests/Transactional.antt =====
-- Instances over blockchain/src/memory/mod.rs.
use rust_chain.Prelude.{
  ℕ, ◌+◌, ◌≡◌, ◌≢◌, refl, [], ◌∷◌, Result, ok, err, diverged, ltb, if◌then◌else◌, arith,
}
use rust_chain.Memory.Transactional.{new, apply, settle, settle_second}
use rust_chain.Memory.Transactional.Laws.{apply_all, commit_all, apply_all-new}

-- Writes before it fails, at values of 5 and more.
abbrev bump : ℕ → Result ℕ ℕ × ℕ
bump n = if ltb n 5 then (ok n, n + 1) else (err n, n + 100)

bump_returns : (n : ℕ) → (bump n).0 ≢ diverged
bump_returns n = ground arith

apply_all-new_example : apply_all (bump ∷ bump ∷ []) (new 4) ≡ new (commit_all (bump ∷ bump ∷ []) 4)
apply_all-new_example = apply_all-new (bump ∷ bump ∷ []) 4 (bump_returns, (bump_returns, tt))

-- On copies that differ: the failure of the second call alone is hidden, and the first call's value
-- stands.
apply_apart :
    (apply (record { first = 3; second = 9 }) bump ≡ (ok 3, new 4))
    × (apply (record { first = 9; second = 3 }) bump ≡ (err 9, new 3))
unfolding apply settle settle_second new
apply_apart = (refl, refl)
