-- ===== src/FlatState/Overlay.antt =====
-- What an `OverlayedFlatState` of blockchain/src/state.rs reads after any sequence of writes.
use rust_chain.Prelude.{Option, none, some, ok, List, [], ◌∷◌, ◌≡◌, refl, true, false, arith}
use rust_chain.Prelude.Eq.{Eq, ◌=?◌}
use rust_chain.Prelude.HashMap
use rust_chain.FlatState.{
  FlatState, OverlayedFlatState, overlayed, into_changeset, get, insert, remove,
}

-- A write: `insert` with a value, `remove` with none.
pub data Write {ℓ} (K V : Type ℓ) : Type ℓ where
  inserts : K → V → Write K V
  removes : K → Write K V

abbrev pub key_of {ℓ} : {K V : Type ℓ} → Write K V → K
key_of (inserts k v) = k
key_of (removes k) = k

abbrev pub value_of {ℓ} : {K V : Type ℓ} → Write K V → Option V
value_of (inserts k v) = some v
value_of (removes k) = none

module _ {ℓ} {K V : Type ℓ} ⦃e : Eq K⦄ where
  -- The value of the last write to a key, if there is one.
  unfoldable pub last_write : K → List (Write K V) → Option (Option V)
  last_write q [] = none
  last_write q (w ∷ ws) = elim (last_write q ws) [
    | some v ↦ some v
    | none ↦ elim (key_of w =? q) [ true ↦ some (value_of w) | false ↦ none ]
  ]

module _ {ℓ} {S T I K V : Type ℓ} ⦃e : Eq K⦄ where
  unfoldable pub write : OverlayedFlatState S T I K V → Write K V → OverlayedFlatState S T I K V
  write o (inserts k v) = insert o k v
  write o (removes k) = remove o k

  unfoldable pub write_all :
      OverlayedFlatState S T I K V → List (Write K V) → OverlayedFlatState S T I K V
  unfolding write
  write_all o [] = o
  write_all o (w ∷ ws) = write_all (write o w) ws

  changeset-write :
      (o : OverlayedFlatState S T I K V) (w : Write K V) (q : K)
      → HashMap.get q (write o w).changeset
        ≡ elim (key_of w =? q) [ true ↦ some (value_of w) | false ↦ HashMap.get q o.changeset ]
  unfolding write insert remove
  changeset-write o (inserts k v) q = HashMap.get-insert k q (some v) o.changeset
  changeset-write o (removes k) q = HashMap.get-insert k q none o.changeset

  changeset-write_all :
      (o : OverlayedFlatState S T I K V) (ws : List (Write K V)) (q : K)
      → HashMap.get q (write_all o ws).changeset
        ≡ elim (last_write q ws) [ some v ↦ some v | none ↦ HashMap.get q o.changeset ]
  unfolding write_all last_write
  changeset-write_all o [] q = refl
  changeset-write_all o (w ∷ ws) q =
      ground (arith, changeset-write o w q, changeset-write_all (write o w) ws q)

  -- After any sequence of writes the changeset of an overlay holds the last write to each key, and
  -- no other key.
  pub into_changeset-write_all :
      (s : S) (block_id : I) (t : T) (ws : List (Write K V)) (q : K)
      → HashMap.get q (into_changeset (write_all (overlayed s block_id t) ws)) ≡ last_write q ws
  unfolding into_changeset overlayed HashMap.get
  into_changeset-write_all s block_id t ws q =
      ground (arith, changeset-write_all (overlayed s block_id t) ws q)

module _ {ℓ κ} {S T I K V : Type ℓ} {E : Type κ} ⦃e : Eq K⦄ (fs : FlatState S T I K V E) where
  get-write :
      (o : OverlayedFlatState S T I K V) (w : Write K V) (q : K)
      → get fs (write o w) q ≡ elim (key_of w =? q) [ true ↦ ok (value_of w) | false ↦ get fs o q ]
  unfolding get write insert remove
  get-write o (inserts k v) q = ground (arith, HashMap.get-insert k q (some v) o.changeset)
  get-write o (removes k) q = ground (arith, HashMap.get-insert k q none o.changeset)

  get-write_all_from :
      (o : OverlayedFlatState S T I K V) (ws : List (Write K V)) (q : K)
      → get fs (write_all o ws) q ≡ elim (last_write q ws) [ some v ↦ ok v | none ↦ get fs o q ]
  unfolding write_all last_write
  get-write_all_from o [] q = refl
  get-write_all_from o (w ∷ ws) q =
      ground (arith, get-write o w q, get-write_all_from (write o w) ws q)

  -- After any sequence of writes a key reads as its last write, or, if it was not written, as the
  -- state below reads at the overlay's block.
  pub get-write_all :
      (s : S) (block_id : I) (t : T) (ws : List (Write K V)) (q : K)
      → get fs (write_all (overlayed s block_id t) ws) q
        ≡ elim (last_write q ws) [ some v ↦ ok v | none ↦ fs.get s q block_id t ]
  unfolding get overlayed HashMap.get
  get-write_all s block_id t ws q = get-write_all_from (overlayed s block_id t) ws q
