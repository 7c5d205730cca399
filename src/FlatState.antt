-- ===== src/FlatState.antt =====
-- blockchain/src/state.rs: the traits of flat states, and `OverlayedFlatState`.
pub mod Overlay
use rust_chain.Prelude.{Option, none, some, Result, ok, err, diverged, List, []}
use rust_chain.Prelude.Eq.{Eq}
use rust_chain.Prelude.HashMap
use rust_chain.Prelude.HashMap.{HashMap}

-- `trait FlatState<FT>`: `S` implements it, for the fork tree `T` with ids `I`.
pub record FlatState {ℓ κ} (S T I K V : Type ℓ) (E : Type κ) : Type (ℓ ⊔ κ) where
  pub get : S → K → I → T → Result (Option V) E

-- `trait FlatStateMut<FT>`. The iterator of changes is the list of what it yields.
pub record FlatStateMut {ℓ κ} (S T I K V : Type ℓ) (E : Type κ) : Type (ℓ ⊔ κ) where
  pub apply : S → List (K × Option V) → I → T → Result (Unit {0}) E × S

-- `trait FlatStateTransactional<FT>`, whose methods write to a transaction.
pub record FlatStateTransactional {ℓ κ} (S T I K V Transaction : Type ℓ) (E : Type κ)
    : Type (ℓ ⊔ κ) where
  pub apply : S → Transaction → List (K × Option V) → I → T → Result (Unit {0}) E × Transaction

-- `struct OverlayedFlatState`. In the changeset `none` is a removal.
pub record OverlayedFlatState {ℓ} (S T I K V : Type ℓ) : Type ℓ where
  pub flat_state : S
  pub fork_tree : T
  pub block_id : I
  pub changeset : HashMap K (Option V)

module _ {ℓ} {S T I K V : Type ℓ} where
  -- `FlatState::overlayed`.
  unfoldable pub overlayed : S → I → T → OverlayedFlatState S T I K V
  overlayed flat_state block_id fork_tree = record {
    flat_state = flat_state;
    fork_tree = fork_tree;
    block_id = block_id;
    changeset = [];
  }

  -- `OverlayedFlatState::into_changeset`.
  unfoldable pub into_changeset : OverlayedFlatState S T I K V → List (K × Option V)
  into_changeset o = o.changeset

module _ {ℓ} {S T I K V : Type ℓ} ⦃e : Eq K⦄ where
  -- `OverlayedFlatState::get`.
  unfoldable pub get {κ} :
      {E : Type κ} → FlatState S T I K V E → OverlayedFlatState S T I K V → K → Result (Option V) E
  get fs o key = elim (HashMap.get key o.changeset) [
    | some value ↦ ok value
    | none ↦ fs.get o.flat_state key o.block_id o.fork_tree
  ]

  -- `OverlayedFlatState::insert`.
  unfoldable pub insert : OverlayedFlatState S T I K V → K → V → OverlayedFlatState S T I K V
  insert o key value = record o { changeset = HashMap.insert key (some value) o.changeset }

  -- `OverlayedFlatState::remove`.
  unfoldable pub remove : OverlayedFlatState S T I K V → K → OverlayedFlatState S T I K V
  remove o key = record o { changeset = HashMap.insert key none o.changeset }
