-- ===== src/Client/Order.antt =====
-- Imports (blockchain/tests/simple.rs) of blocks in any order.
use rust_chain.Prelude.Eq.{nat_eq}
use rust_chain.Prelude.{
  ℕ, ◌+◌, ◌≡◌, refl, sym, ap, ◌∙◌, Option, List, [], ◌∷◌, map, Mem, All, All-get, Result, ok,
}
use mathlib.Core.HLevel.{¬_prop}
use mathlib.Core.Logic.{∥∥₁_elim}
use mathlib.Core.List.{Perm, Permᴰ, Pairwise, mem-cons_self, mem-cons_of_mem}
use mathlib.Core.List.Perm
use mathlib.Core.List.Permᴰ
use native.Mathlib.Decide.{ℕ_discrete}
use rust_chain.Memory.Chain.{Unique, QueryError, memory_fork_tree}
use rust_chain.Memory.State.{get}
use rust_chain.Memory.Transactional.{new}
use rust_chain.Client.{
  block_id_eq, block_identified, BlockId, Block, Chain, ChainData, ChainError, import,
}
use rust_chain.Client.Importable.{
  IsImportable, IsImportable-prop, IsPlaced, find_parent, after, import-after, after-IsSound,
  after-IsPlaced,
}
use rust_chain.Client.Life.{import_all}
use rust_chain.Client.Reads.{IsSound}
use rust_chain.Client.View.{IsApart, View, view, read, add, add_comm, get-view, view-extended}

-- The answers of imports, one after the other.
unfoldable pub answers : Unique → Chain → List Block → List (Result (Unit {0}) ChainError)
answers u chain [] = []
answers u chain (block ∷ blocks) =
    let (answer, chain') = import u chain block in answer ∷ answers u chain' blocks

Answer-IsSet : IsSet (Result (Option ℕ) QueryError)
Answer-IsSet = hlevel ℕ_discrete

abbrev AllPlaced : ChainData → (Block → ℕ) → List Block → Type 0
AllPlaced d height blocks = (b : Block) → Mem b blocks → IsPlaced d (height b) b

module _ (height : Block → ℕ) where
  add_all : List Block → View → View
  add_all [] v = v
  add_all (b ∷ bs) v = add_all bs (add b (height b + 1) v)

  add_all-perm :
      {bs cs : List Block}
      → Permᴰ bs cs
      → Pairwise IsApart bs
      → (v : View) → add_all bs v ≡ add_all cs v
  unfolding add_all
  add_all-perm Permᴰ.nil h v = refl
  add_all-perm (Permᴰ.cons {a = a} {l₂ = cs} e p) (Pairwise.cons f h) v =
      add_all-perm p h (add a (height a + 1) v) ∙ ap (λ x. add_all cs (add x (height x + 1) v)) e
  add_all-perm (Permᴰ.swap {a = a} {b = b} {a' = a'} {l = l} e e') (Pairwise.cons f h) v =
      ap (add_all l) (add_comm a b (height a + 1) (height b + 1) v (f b mem-cons_self))
      ∙ ap (λ x. add_all l (add a (height a + 1) (add x (height x + 1) v))) e'
      ∙ ap (λ x. add_all l (add x (height x + 1) (add a' (height a' + 1) v))) e
  add_all-perm (Permᴰ.trans p q) h v =
      add_all-perm p h v
      ∙ add_all-perm q (Permᴰ.pairwise (λ a b. ¬_prop) (λ a b n e. n (sym e)) p h) v

module _ (u : Unique) (height : Block → ℕ) where
  import_all-view :
      (d : ChainData) (bs : List Block)
      → IsSound d
      → AllPlaced d height bs
      → Pairwise IsApart bs
      → (answers u (new d) bs ≡ map (λ b. ok tt) bs)
        × (d' : ChainData) × (import_all u (new d) bs ≡ new d')
        × IsSound d'
        × (view d' ≡ add_all height bs (view d))
  unfolding answers import_all add_all
  import_all-view d [] s f p = (refl, d, refl, s, refl)
  import_all-view d (b ∷ bs) s f (Pairwise.cons ne p) =
      let m = f b mem-cons_self in
      let d₁ = after u d (height b) b m in
      let step = import-after u d (height b) b m in
      let f₁ : AllPlaced d₁ height bs = λ c i.
        after-IsPlaced u d (height b) b m (height c) c (f c (mem-cons_of_mem b i)) (ne c i) in
      let (a, d', e, s', w) = import_all-view d₁ bs (after-IsSound u d (height b) b m s) f₁ p in
      (
        ap (λ r. r.0 ∷ answers u r.1 bs) step ∙ ap (λ rest. ok tt ∷ rest) a,
        d',
        ap (λ r. import_all u r.1 bs) step ∙ e,
        s',
        w ∙ ap (add_all height bs) (view-extended d b m.parent_id (height b + 1) s),
      )

  -- On a sound chain blocks that can all be imported, with different ids, can be imported one after
  -- the other in any order, and whatever the order every key then reads the same at every id.
  pub import_all_perm :
      (d : ChainData) (bs cs : List Block)
      → IsSound d
      → All (λ b. IsImportable d (height b) b) bs
      → Pairwise IsApart bs
      → Perm bs cs
      → (answers u (new d) cs ≡ map (λ b. ok tt) cs)
        × (d₁ d₂ : ChainData) × (import_all u (new d) bs ≡ new d₁)
        × (import_all u (new d) cs ≡ new d₂)
        × ((q : ℕ) (k : BlockId)
            → get memory_fork_tree d₁.state q k d₁.fork_tree
              ≡ get memory_fork_tree d₂.state q k d₂.fork_tree)
  import_all_perm d bs cs s f h p =
      let placed : AllPlaced d height bs = λ b m.
        find_parent d (height b) b (All-get (λ c. IsImportable-prop d (height c) c) bs f m) in
      let (a, d₁, e₁, s₁, w₁) = import_all-view d bs s placed h in
      let placed' : AllPlaced d height cs = λ b m. placed b ((Perm.mem_iff p).1 m) in
      let h' = Perm.pairwise (λ a b. ¬_prop) (λ a b n e. n (sym e)) p h in
      let (a', d₂, e₂, s₂, w₂) = import_all-view d cs s placed' h' in
      let same_reads = λ (q : ℕ) (k : BlockId).
        ∥∥₁_elim p (Answer-IsSet (read (view d₁) q k) (read (view d₂) q k))
          (λ o. ap (λ v. read v q k) (w₁ ∙ add_all-perm height o h (view d) ∙ sym w₂)) in
      (a', d₁, d₂, e₁, e₂, λ q k. get-view d₁ q k s₁ ∙ same_reads q k ∙ sym (get-view d₂ q k s₂))
