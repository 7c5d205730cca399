-- ===== src/Memory/State/Reads.antt =====
-- Reading after `MemoryFlatState::apply` (blockchain/src/memory/state.rs) on a `MemoryForkTree`.
use rust_chain.Prelude.{
  ℕ, ◌<◌, true, Option, none, some, List, [], ◌∷◌, ◌≡◌, refl, ok, err, arith, ◌∙◌,
}
use rust_chain.Prelude.Eq.{Eq, beq_refl}
use rust_chain.Prelude.HashMap
use rust_chain.Prelude.BTreeMap
use rust_chain.Prelude.BTreeMap.{same, same_iff, before_iff}
use rust_chain.Block.{Identified}
use rust_chain.Memory.Chain.{
  MemoryForkTree, MemoryForkTreeItem, invalid_ancestor_depth, memory_fork_tree,
}
use rust_chain.Memory.Chain.Ancestor.{block_depth_lem}
use rust_chain.Memory.Chain.Links.{IsLinked}
use rust_chain.Memory.State.{History, MemoryFlatState, history_of, write_changes, get, apply}
use rust_chain.Memory.State.Changes.{
  last_change, history_of-write_changes, write_changes-IsFiled, written-write_changes,
}
use rust_chain.Memory.State.Inherit.{IsAt, IsFiledBy, has_shallower, get-memory}
use rust_chain.Memory.State.Written.{written_in}

module _ {ℓ} {I V : Type ℓ} ⦃eI : Eq I⦄ where
  has_shallower_of_written :
      (n depth : ℕ) (a : I) {v : Option V} (m : History I V)
      → written_in n a m ≡ some v
      → n < depth
      → has_shallower depth m ≡ true
  unfolding written_in has_shallower BTreeMap.get
  has_shallower_of_written n depth a [] w h = ground arith
  has_shallower_of_written n depth a {v} ((k, ids) ∷ m) w h =
      ground (arith, same_iff k n, before_iff k depth, has_shallower_of_written n depth a {v = v} m)

module _ {ℓ} {B I K V : Type ℓ} ⦃eI : Eq I⦄ ⦃eK : Eq K⦄ ⦃b : Identified B I⦄ where
  pub apply_lem :
      (t : MemoryForkTree B I) (s : MemoryFlatState K V I) (changes : List (K × Option V)) (id : I)
      (item : MemoryForkTreeItem B I)
      → HashMap.get id t.blocks ≡ some item
      → apply memory_fork_tree s changes id t ≡ (ok tt, write_changes item.depth id s changes)
  unfolding apply
  apply_lem t s changes id item g = rw (block_depth_lem t id item g, apply)

  pub get-write_changes :
      (t : MemoryForkTree B I) (s : MemoryFlatState K V I) (changes : List (K × Option V)) (q : K)
      (id : I) (item : MemoryForkTreeItem B I)
      → IsLinked t
      → IsFiledBy t s
      → HashMap.get id t.blocks ≡ some item
      → get memory_fork_tree (write_changes item.depth id s changes) q id t
        ≡ elim (last_change q changes) [ some v ↦ ok v | none ↦ get memory_fork_tree s q id t ]
  get-write_changes t s changes q id item l f g =
      let s' = write_changes item.depth id s changes in
      let filed = write_changes-IsFiled (IsAt t) item.depth id s changes (item, g, refl) f in
      get-memory t s' q id item l filed g
      ∙ ground (
        arith,
        get-memory t s q id item l f g,
        beq_refl id,
        same_iff item.depth item.depth,
        written-write_changes (IsAt t) item.depth id s changes q item.depth id (item, g, refl) f,
        history_of-write_changes item.depth id s changes q,
      )

  -- On a memory tree `apply` at a known block succeeds and keeps the histories filed; a key of the
  -- changeset then reads at that block as its last change, and any other key as before.
  pub get-apply :
      (t : MemoryForkTree B I) (s : MemoryFlatState K V I) (changes : List (K × Option V)) (id : I)
      (item : MemoryForkTreeItem B I)
      → IsLinked t
      → IsFiledBy t s
      → HashMap.get id t.blocks ≡ some item
      → let (result, s') = apply memory_fork_tree s changes id t in
        (result ≡ ok tt)
        × IsFiledBy t s'
        × ((q : K)
            → get memory_fork_tree s' q id t ≡ elim (last_change q changes) [
              | some v ↦ ok v
              | none ↦ get memory_fork_tree s q id t
            ])
  get-apply t s changes id item l f g = rw (apply_lem t s changes id item g) (
    refl,
    write_changes-IsFiled (IsAt t) item.depth id s changes (item, g, refl) f,
    λ q. get-write_changes t s changes q id item l f g,
  )

  -- Once `apply` has written a key at a block, `get` of that key fails at every deeper block that
  -- has not written the key itself, be it a descendant or not.
  pub get-apply_deeper :
      (t : MemoryForkTree B I) (s : MemoryFlatState K V I) (changes : List (K × Option V)) (q : K)
      (id other : I) (item deeper : MemoryForkTreeItem B I) (v : Option V)
      → IsLinked t
      → IsFiledBy t s
      → HashMap.get id t.blocks ≡ some item
      → HashMap.get other t.blocks ≡ some deeper
      → item.depth < deeper.depth
      → last_change q changes ≡ some v
      → written_in deeper.depth other (history_of s q) ≡ none
      → get memory_fork_tree (apply memory_fork_tree s changes id t).1 q other t
        ≡ err invalid_ancestor_depth
  get-apply_deeper t s changes q id other item deeper v l f g h d c w =
      rw (apply_lem t s changes id item g)
        (get-memory t s' q other deeper l filed h ∙ rw (unwritten, shallower))
    where
      s' : MemoryFlatState K V I
      s' = write_changes item.depth id s changes

      filed : IsFiledBy t s'
      filed = write_changes-IsFiled (IsAt t) item.depth id s changes (item, g, refl) f

      unwritten : written_in deeper.depth other (history_of s' q) ≡ none
      unwritten =
          written-write_changes (IsAt t) item.depth id s changes q deeper.depth other
            (item, g, refl) f
          ∙ ground (arith, same_iff item.depth deeper.depth)

      shallower : has_shallower deeper.depth (history_of s' q) ≡ true
      shallower =
          has_shallower_of_written item.depth deeper.depth id {v = v} (history_of s' q)
            (written-write_changes (IsAt t) item.depth id s changes q item.depth id (item, g, refl)
                f
              ∙ ground (arith, same_iff item.depth item.depth, beq_refl id))
            d
