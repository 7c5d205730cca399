-- ===== src/Memory/State.antt =====
-- blockchain/src/memory/state.rs: `MemoryFlatState`, for any implementation of `ForkTree`.
pub mod Search
pub mod Inherit
pub mod Written
pub mod Apply
pub mod Changes
pub mod Reads
pub mod Nearest
pub mod Refines
pub mod Shallower
pub mod Anywhere
use rust_chain.Prelude.{
  ℕ, Bool, true, false, Option, none, some, List, [], ◌∷◌, reverse, Result, ok, err, diverged,
  ◌>>=◌,
}
use mathlib.Core.Option
use rust_chain.Prelude.Eq.{Eq}
use rust_chain.Prelude.HashMap
use rust_chain.Prelude.HashMap.{HashMap}
use rust_chain.Prelude.BTreeMap
use rust_chain.Prelude.BTreeMap.{BTreeMap}
use rust_chain.ForkTree.{ForkTree, is_ancestor}
use rust_chain.FlatState.{FlatState, FlatStateMut}

-- What one key has: for each depth, the value written at each block. `none` is a removal.
abbrev pub History {ℓ} : Type ℓ → Type ℓ → Type ℓ
History I V = BTreeMap (HashMap I (Option V))

pub record MemoryFlatState {ℓ} (K V I : Type ℓ) : Type ℓ where
  pub state : HashMap K (History I V)

-- `MemoryFlatState::new`.
unfoldable pub new {ℓ} : {K V I : Type ℓ} → MemoryFlatState K V I
new = record { state = [] }

module _ {ℓ κ} {T B I V : Type ℓ} {E : Type κ} ⦃eI : Eq I⦄ (ft : ForkTree T B I E) where
  -- The inner `for` of `get`. `some` is its early return.
  unfoldable pub search_ids : T → I → List (I × Option V) → Result (Option (Option V)) E
  search_ids t block_id [] = ok none
  search_ids t block_id ((search_id, search_value) ∷ rest) = do
    found ← is_ancestor ft t block_id search_id
    elim found [ true ↦ ok (some search_value) | false ↦ search_ids t block_id rest ]

  -- The outer `for`.
  unfoldable pub search_depths :
      T → I → List (ℕ × HashMap I (Option V)) → Result (Option (Option V)) E
  unfolding search_ids
  search_depths t block_id [] = ok none
  search_depths t block_id ((_, search_id_to_value) ∷ rest) = do
    found ← search_ids t block_id search_id_to_value
    elim found [ some value ↦ ok (some value) | none ↦ search_depths t block_id rest ]

  -- `get` for a key that has a history.
  unfoldable pub get_history : T → I → History I V → Result (Option V) E
  unfolding search_depths BTreeMap.range_to
  get_history t block_id depth_to_id_value = do
    depth ← ft.block_depth t block_id
    found ← search_depths t block_id (reverse (BTreeMap.range_to depth depth_to_id_value))
    elim found [ some value ↦ ok value | none ↦ ok none ]

module _ {ℓ κ} {T B I K V : Type ℓ} {E : Type κ} ⦃eI : Eq I⦄ ⦃eK : Eq K⦄
    (ft : ForkTree T B I E) where
  -- `FlatState::get`.
  unfoldable pub get : MemoryFlatState K V I → K → I → T → Result (Option V) E
  unfolding get_history
  get s key block_id fork_tree = elim (HashMap.get key s.state) [
    | some depth_to_id_value ↦ get_history ft fork_tree block_id depth_to_id_value
    | none ↦ ok none
  ]

module _ {ℓ} {I V : Type ℓ} ⦃eI : Eq I⦄ where
  -- `.entry(depth).or_default().insert(block_id.clone(), value)`.
  unfoldable pub record_value : ℕ → I → Option V → History I V → History I V
  record_value depth block_id value = BTreeMap.modify_or depth [] (HashMap.insert block_id value)

module _ {ℓ} {I K V : Type ℓ} ⦃eI : Eq I⦄ ⦃eK : Eq K⦄ where
  -- `self.state.entry(key).or_default()`, before a write.
  unfoldable pub history_of : MemoryFlatState K V I → K → History I V
  history_of s key = Option.get_or (HashMap.get key s.state) []

  -- The body of the `for` of `apply`.
  unfoldable pub write_change : ℕ → I → MemoryFlatState K V I → K × Option V → MemoryFlatState K V I
  unfolding record_value history_of
  write_change depth block_id s (key, value) = record {
    state = HashMap.insert key (record_value depth block_id value (history_of s key)) s.state;
  }

  unfoldable pub write_changes :
      ℕ → I → MemoryFlatState K V I → List (K × Option V) → MemoryFlatState K V I
  unfolding write_change
  write_changes depth block_id s [] = s
  write_changes depth block_id s (change ∷ rest) =
      write_changes depth block_id (write_change depth block_id s change) rest

module _ {ℓ κ} {T B I K V : Type ℓ} {E : Type κ} ⦃eI : Eq I⦄ ⦃eK : Eq K⦄
    (ft : ForkTree T B I E) where
  -- `FlatStateMut::apply`.
  unfoldable pub apply :
      MemoryFlatState K V I
      → List (K × Option V)
      → I
      → T
      → Result (Unit {0}) E × MemoryFlatState K V I
  unfolding write_changes
  apply s changeset block_id fork_tree = elim (ft.block_depth fork_tree block_id) [
    | ok depth ↦ (ok tt, write_changes depth block_id s changeset)
    | err error ↦ (err error, s)
    | diverged ↦ (diverged, s)
  ]

  -- `impl FlatState for MemoryFlatState`.
  abbrev pub memory_flat_state : FlatState (MemoryFlatState K V I) T I K V E
  memory_flat_state = record { get = get ft }

  abbrev pub memory_flat_state_mut : FlatStateMut (MemoryFlatState K V I) T I K V E
  memory_flat_state_mut = record { apply = apply }
