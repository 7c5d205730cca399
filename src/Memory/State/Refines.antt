-- ===== src/Memory/State/Refines.antt =====
-- `MemoryFlatState::get` (blockchain/src/memory/state.rs) returns what its specification says,
-- over a fork tree that keeps the promises of its trait.
use rust_chain.Prelude.{
  Option, none, some, ◌≡◌, refl, ok, inl, inr, Option-cases, Nat-cases, sym, ◌∙◌, subst,
}
use rust_chain.Prelude.Eq.{Eq}
use rust_chain.Prelude.HashMap
use rust_chain.Prelude.BTreeMap
use rust_chain.ForkTree.{ForkTree}
use rust_chain.Memory.State.{History, MemoryFlatState, history_of, get_history, get}
use rust_chain.Memory.State.Nearest.{Ancestry, IsKnownAt, IsNearest, search_from-IsNearest}
use rust_chain.Memory.State.Search.{search_from}
use rust_chain.Memory.State.Written.{written_in, IsFiled}

-- What `get` answers for what its search found: no entry reads as no value.
abbrev pub answer {ℓ} : {V : Type ℓ} → Option (Option V) → Option V
answer (some v) = v
answer none = none

module _ {ℓ κ} {T B I V : Type ℓ} {E : Type κ} ⦃eI : Eq I⦄ {ft : ForkTree T B I E} {t : T}
    (p : Ancestry ft t) where
  get_history_found :
      {id : I} (m : History I V) (r : Option (Option V))
      → p.IsKnown id
      → search_from ft t id (p.depth_of id) m ≡ ok r
      → get_history ft t id m ≡ ok (answer r)
  unfolding get_history search_from
  get_history_found {id} m (some v) k found = rw (p.block_depth_lem id k, found)
  get_history_found {id} m none k found = rw (p.block_depth_lem id k, found)

module _ {ℓ κ} {T B I V : Type ℓ} {E : Type κ} ⦃e : Eq I⦄ {ft : ForkTree T B I E} {t : T}
    (p : Ancestry ft t) where
  IsNearest-unique :
      (id : I) (m : History I V) (r r' : Option (Option V))
      → IsNearest p id m r
      → IsNearest p id m r'
      → r ≡ r'
  IsNearest-unique id m none none h h' = refl
  IsNearest-unique id m none (some v) h (a, q, w, deepest) = sym (h a q) ∙ w
  IsNearest-unique id m (some v) none (a, q, w, deepest) h = sym w ∙ h a q
  IsNearest-unique id m (some v) (some v') (a, q, w, deepest) (c, q', w', deepest') =
      elim (Nat-cases (p.depth_of a) (p.depth_of c)) [
        | inl lt ↦ absurd (cc (deepest c q' lt, w'))
        | inr (inl eq) ↦
            let one = p.one_at_depth id a c q q' eq in
            sym w ∙ subst (λ x. written_in (p.depth_of x) x m ≡ some v') (sym one) w'
        | inr (inr gt) ↦ absurd (cc (deepest' a q gt, w))
      ]

module _ {ℓ κ} {T B I K V : Type ℓ} {E : Type κ} ⦃eI : Eq I⦄ ⦃eK : Eq K⦄ {ft : ForkTree T B I E}
    {t : T} (p : Ancestry ft t) where
  get_finds :
      (s : MemoryFlatState K V I) (key : K) (id : I)
      → p.IsKnown id
      → IsFiled (IsKnownAt p) (history_of s key)
      → (r : Option (Option V)) × (get ft s key id t ≡ ok (answer r))
        × IsNearest p id (history_of s key) r
  unfolding get history_of written_in BTreeMap.get
  get_finds s key id k f = elim (Option-cases (HashMap.get key s.state)) [
    | inl n ↦ (none, rw (n, get), rw (n, history_of) (λ a q. refl))
    | inr (m, h) ↦
        let filed = rw (h, history_of) at f in
        let (r, found, nearest) = search_from-IsNearest p id m k filed in
        (r, rw (h, get) (get_history_found p m r k found), rw (h, history_of) nearest)
  ]

  -- At a known block, with the key's values filed by depth, `get` returns the value written at the
  -- nearest of the block's ancestors (the block included) that has one for the key, and no value if
  -- there is none; there is one such answer.
  pub get-IsNearest :
      (s : MemoryFlatState K V I) (key : K) (id : I)
      → p.IsKnown id
      → IsFiled (IsKnownAt p) (history_of s key)
      → (r : Option (Option V)) × (get ft s key id t ≡ ok (answer r))
        × IsNearest p id (history_of s key) r
        × ((r' : Option (Option V)) → IsNearest p id (history_of s key) r' → r' ≡ r)
  get-IsNearest s key id k f =
      let (r, found, nearest) = get_finds s key id k f in
      (r, found, nearest, λ r' h. IsNearest-unique p id (history_of s key) r' r h nearest)
