-- ===== src/Memory/Transactional/Laws.antt =====
-- `MemoryTransactional::apply` of blockchain/src/memory/mod.rs as a transaction on one value.
use rust_chain.Prelude.{
  ◌≡◌, ◌≢◌, refl, List, [], ◌∷◌, Result, ok, err, diverged, All, Outcome, returned, panicked,
}
use rust_chain.Memory.Transactional.{
  MemoryTransactional, new, settle_second, settle, apply, settle_outcome, apply_outcome,
}

module _ {ℓ κ μ} {Inner : Type ℓ} {R : Type κ} {E : Type μ} where
  -- What a transaction leaves: its own value if it succeeds, the old one if it fails.
  abbrev pub committed : Inner → Result R E × Inner → Inner
  committed old (ok _, new) = new
  committed old (err _, new) = old
  committed old (diverged, new) = old

  settle-same :
      (f : Inner → Result R E × Inner) (s : Inner) (r : Result R E × Inner)
      → f s ≡ r
      → r.0 ≢ diverged
      → settle f s r ≡ (r.0, record { first = committed s r; second = committed s r })
  unfolding settle
  settle-same f s (ok a, new) h n = rw (h, settle_second)
  settle-same f s (err a, new) h n = refl
  settle-same f s (diverged, new) h n = absurd (n refl)

  -- On two equal copies `apply` answers what the function answers, and both copies end as the
  -- value that a transaction leaves.
  pub apply-new :
      (s : Inner) (f : Inner → Result R E × Inner)
      → (f s).0 ≢ diverged
      → apply (new s) f ≡ ((f s).0, new (committed s (f s)))
  unfolding apply new
  apply-new s f n = settle-same f s (f s) refl n

  unfoldable pub apply_all :
      List (Inner → Result R E × Inner) → MemoryTransactional Inner → MemoryTransactional Inner
  apply_all [] t = t
  apply_all (f ∷ fs) t = apply_all fs (apply t f).1

  -- The same calls, as transactions on one value.
  unfoldable pub commit_all : List (Inner → Result R E × Inner) → Inner → Inner
  commit_all [] s = s
  commit_all (f ∷ fs) s = commit_all fs (committed s (f s))

  -- Any sequence of calls of `apply` that return leaves two equal copies of what the sequence of
  -- transactions leaves.
  pub apply_all-new :
      (fs : List (Inner → Result R E × Inner)) (s : Inner)
      → All (λ f. (x : Inner) → (f x).0 ≢ diverged) fs
      → apply_all fs (new s) ≡ new (commit_all fs s)
  unfolding apply_all commit_all
  apply_all-new [] s h = refl
  apply_all-new (f ∷ fs) s h = rw (apply-new s f (h.0 s)) (apply_all-new fs (committed s (f s)) h.1)

  -- A closure that may panic, on two equal copies: when it returns it is a transaction.
  pub apply_outcome-returned :
      (s : Inner) (f : Inner → Outcome (Result R E × Inner)) (r : Result R E × Inner)
      → f s ≡ returned r
      → r.0 ≢ diverged
      → apply_outcome (new s) f ≡ returned (r.0, new (committed s r))
  unfolding apply_outcome settle_outcome settle_second new
  apply_outcome-returned s f (ok a, x) h n = rw (h, settle_outcome) (rw (h, settle_second) refl)
  apply_outcome-returned s f (err a, x) h n = rw (h, settle_outcome) refl
  apply_outcome-returned s f (diverged, x) h n = absurd (n refl)

  pub apply_outcome-panicked :
      (s : Inner) (f : Inner → Outcome (Result R E × Inner))
      → f s ≡ panicked
      → apply_outcome (new s) f ≡ panicked
  unfolding apply_outcome settle_outcome new
  apply_outcome-panicked s f h = rw (h, settle_outcome) refl
