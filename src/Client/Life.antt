-- ===== src/Client/Life.antt =====
-- A chain of blockchain/tests/simple.rs from its genesis on.
use rust_chain.Prelude.{
  ℕ, ◌<◌, ◌≡◌, refl, ◌∙◌, ap, subst, none, some, Option, List, [], ◌∷◌, ok, arith, List-cases, inl,
  inr, returned, panicked,
}
use rust_chain.Prelude.Eq.{nat_eq, beq_refl}
use rust_chain.Prelude.HashMap
use rust_chain.Memory.Chain.{MemoryForkTreeItem, Unique, new as new_tree, store}
use rust_chain.Memory.Chain.Insert.{insert-root}
use rust_chain.Memory.Chain.Links.{IsLinked, new-IsLinked, insert-IsLinked}
use rust_chain.Memory.Chain.Lookup.{get-store, new_item}
use rust_chain.Memory.Chain.Shallow.{IsShallow, new-IsShallow, insert-IsShallow}
use rust_chain.Memory.State.{new as new_state, write_changes, history_of}
use rust_chain.Memory.State.Changes.{write_changes-IsFiled}
use rust_chain.Memory.State.Inherit.{IsAt}
use rust_chain.Memory.State.Reads.{apply_lem}
use rust_chain.Memory.Transactional.{new, deref}
use rust_chain.Memory.Transactional.Laws.{apply_outcome-returned, apply_outcome-panicked}
use rust_chain.Client.{block_id_eq, block_identified, Block, BlockId, ChainData, Chain, import}
use rust_chain.Client.Genesis.{import_genesis, start}
use rust_chain.Client.Import.{insert-extended, import_cases}
use rust_chain.Client.Reads.{IsSound, extended-IsSound}

-- Imports, one after the other; the client goes on after an error.
unfoldable pub import_all : Unique → Chain → List Block → Chain
import_all u chain [] = chain
import_all u chain (block ∷ blocks) = import_all u (import u chain block).1 blocks

-- No block has the id of one that the tree has at its import.
abbrev pub AllFresh : Unique → Chain → List Block → Type 0
AllFresh u chain [] = Unit
AllFresh u chain (block ∷ blocks) =
    (HashMap.get block.id (deref chain).fork_tree.blocks ≡ none)
    × AllFresh u (import u chain block).1 blocks

abbrev pub IsHealthy : ChainData → Type 0
IsHealthy d = IsSound d × IsShallow d.fork_tree

import-IsHealthy :
    (u : Unique) (d : ChainData) (block : Block)
    → HashMap.get block.id d.fork_tree.blocks ≡ none
    → IsHealthy d
    → (d' : ChainData) × ((import u (new d) block).1 ≡ new d') × IsHealthy d'
import-IsHealthy u d block fresh h = import_cases u d block IsHealthy h (λ parent_id parent p g z. (
  extended-IsSound u d block parent_id parent p g fresh h.0 z,
  subst (λ r. IsShallow r.1) (insert-extended u d block parent_id parent p g z)
      (insert-IsShallow u d.fork_tree block h.1),
))

import_all-IsHealthy :
    (u : Unique) (d : ChainData) (blocks : List Block)
    → AllFresh u (new d) blocks
    → IsHealthy d
    → (d' : ChainData) × (import_all u (new d) blocks ≡ new d') × IsHealthy d'
unfolding import_all deref new
import_all-IsHealthy u d [] f h = (d, refl, h)
import_all-IsHealthy u d (block ∷ blocks) f h =
    let (d₁, e, h₁) = import-IsHealthy u d block f.0 h in
    let (d', e', h') =
      import_all-IsHealthy u d₁ blocks (subst (λ c. AllFresh u c blocks) e f.1) h₁ in
    (d', ap (λ c. import_all u c blocks) e ∙ e', h')

-- The data that the genesis makes.
abbrev pub genesis_data : Block → List (ℕ × Option ℕ) → ChainData
genesis_data genesis genesis_state = record {
  fork_tree = store new_tree genesis 0 [];
  state = write_changes 0 genesis.id new_state genesis_state;
}

pub get-genesis :
    (genesis : Block) (genesis_state : List (ℕ × Option ℕ))
    → HashMap.get genesis.id (genesis_data genesis genesis_state).fork_tree.blocks
      ≡ some (new_item genesis 0 [])
get-genesis genesis genesis_state =
    get-store new_tree genesis 0 [] genesis.id ∙ rw (beq_refl genesis.id)

import_genesis_lem :
    (u : Unique) (genesis : Block) (genesis_state : List (ℕ × Option ℕ))
    → genesis.parent_id ≡ none
    → import_genesis u genesis genesis_state (record { fork_tree = new_tree; state = new_state })
      ≡ elim genesis.extrinsics [
        | [] ↦ returned (ok tt, genesis_data genesis genesis_state)
        | _ ∷ _ ↦ panicked
      ]
unfolding import_genesis
import_genesis_lem u genesis genesis_state p = ground (
  arith,
  insert-root u new_tree genesis p,
  apply_lem (genesis_data genesis genesis_state).fork_tree new_state genesis_state genesis.id
      (new_item genesis 0 []) (get-genesis genesis genesis_state),
)

-- From a genesis without a parent the chain starts, unless the genesis has extrinsics, which panics.
pub start_lem :
    (u : Unique) (genesis : Block) (genesis_state : List (ℕ × Option ℕ))
    → genesis.parent_id ≡ none
    → start u genesis genesis_state ≡ elim genesis.extrinsics [
      | [] ↦ returned (ok tt, new (genesis_data genesis genesis_state))
      | _ ∷ _ ↦ panicked
    ]
unfolding start
start_lem u genesis genesis_state p =
    let d : ChainData = record { fork_tree = new_tree; state = new_state } in
    let f = import_genesis u genesis genesis_state in
    let done = import_genesis_lem u genesis genesis_state p in
    elim (List-cases genesis.extrinsics) [
      | inl empty ↦
          apply_outcome-returned d f (ok tt, genesis_data genesis genesis_state)
            (done ∙ ground (arith, empty)) (λ e. cc e)
          ∙ ground (arith, empty)
      | inr (x, rest, some_given) ↦
          apply_outcome-panicked d f (done ∙ ground (arith, some_given))
          ∙ ground (arith, some_given)
    ]

-- The same without extrinsics.
pub start_empty :
    (u : Unique) (genesis : Block) (genesis_state : List (ℕ × Option ℕ))
    → genesis.parent_id ≡ none
    → genesis.extrinsics ≡ []
    → start u genesis genesis_state ≡ returned (ok tt, new (genesis_data genesis genesis_state))
start_empty u genesis genesis_state p empty =
    start_lem u genesis genesis_state p ∙ ground (arith, empty)

pub genesis_data-IsHealthy :
    (u : Unique) (genesis : Block) (genesis_state : List (ℕ × Option ℕ))
    → genesis.parent_id ≡ none
    → IsHealthy (genesis_data genesis genesis_state)
unfolding new_state history_of HashMap.get
genesis_data-IsHealthy u genesis genesis_state p =
    let inserted = insert-root u new_tree genesis p in
    (
      (
        subst (λ r. IsLinked r.1) inserted
            (insert-IsLinked u new_tree genesis (unfold new_tree in refl) new-IsLinked),
        write_changes-IsFiled (IsAt (genesis_data genesis genesis_state).fork_tree) 0 genesis.id
            new_state genesis_state (new_item genesis 0 [], get-genesis genesis genesis_state, refl)
            (λ q. tt),
      ),
      subst (λ r. IsShallow r.1) inserted (insert-IsShallow u new_tree genesis new-IsShallow),
    )

-- A genesis without a parent and without extrinsics starts a chain; and then, whatever blocks with
-- new ids are imported, in whatever order and with whatever outcome: the two copies of the chain
-- stay equal, its tree stays well-formed, its state stays filed by the depths of the tree, and no
-- block is ever deeper than 3.
pub import_all-start :
    (u : Unique) (genesis : Block) (genesis_state : List (ℕ × Option ℕ)) (blocks : List Block)
    → genesis.parent_id ≡ none
    → genesis.extrinsics ≡ []
    → AllFresh u (new (genesis_data genesis genesis_state)) blocks
    → (chain : Chain) × (start u genesis genesis_state ≡ returned (ok tt, chain))
      × (d : ChainData) × (import_all u chain blocks ≡ new d)
      × IsSound d
      × ((k : BlockId) (item : MemoryForkTreeItem Block BlockId)
          → HashMap.get k d.fork_tree.blocks ≡ some item
          → item.depth < 4)
import_all-start u genesis genesis_state blocks p empty f =
    let (d, e, h) =
      import_all-IsHealthy u (genesis_data genesis genesis_state) blocks f
        (genesis_data-IsHealthy u genesis genesis_state p) in
    (
      new (genesis_data genesis genesis_state),
      start_empty u genesis genesis_state p empty,
      d,
      e,
      h.0,
      λ k item g. (h.1 k item g).0,
    )
