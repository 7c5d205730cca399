-- ===== src/Net/Worker/Service/Shared.antt =====
-- What the clones of a `Service` (blocknet/src/libp2p/mod.rs) share.
use rust_chain.Prelude.{List, [], ◌∷◌, ◌≡◌, refl, ap, map}
use rust_chain.Prelude.{Outcome, returned, panicked}
use rust_chain.SyncExtra.{expect, read_unwrap, write_unwrap, hold, share}
use rust_chain.Net.Worker.Service.{Service, new_service, local_info, set_local_info, peers}

-- A call of a method of one of the clones, and what it answers.
pub data Call {ℓ} (PeerInfo : Type ℓ) : Type ℓ where
  get_info : Call PeerInfo
  set_info : PeerInfo → Call PeerInfo
  get_peers : Call PeerInfo

pub data Answer {ℓ} (PeerId PeerInfo : Type ℓ) : Type ℓ where
  info_is : PeerInfo → Answer PeerId PeerInfo
  info_set : Answer PeerId PeerInfo
  peers_are : List (PeerId × PeerInfo) → Answer PeerId PeerInfo

-- An answer, if there is a result.
abbrev pub answer {ℓ κ} : {A : Type κ} {B : Type ℓ} → (A → B) → Outcome A → Outcome B
answer f (returned a) = returned (f a)
answer f panicked = panicked

-- The info that the calls leave.
unfoldable pub last_info {ℓ} : {PeerInfo : Type ℓ} → PeerInfo → List (Call PeerInfo) → PeerInfo
last_info info [] = info
last_info info (set_info info' ∷ calls) = last_info info' calls
last_info info (get_info ∷ calls) = last_info info calls
last_info info (get_peers ∷ calls) = last_info info calls

module _ {ℓ} {PeerId PeerInfo : Type ℓ} where
  unfoldable pub call :
      Service PeerId PeerInfo
      → Call PeerInfo
      → Outcome (Answer PeerId PeerInfo) × Service PeerId PeerInfo
  unfolding local_info set_local_info peers
  call service get_info = (answer info_is (local_info service), service)
  call service (set_info info) =
      let (outcome, service') = set_local_info service info in
      (answer (λ _. info_set) outcome, service')
  call service get_peers = (answer peers_are (peers service), service)

  unfoldable pub call_all :
      Service PeerId PeerInfo
      → List (Call PeerInfo)
      → List (Outcome (Answer PeerId PeerInfo)) × Service PeerId PeerInfo
  unfolding call
  call_all service [] = ([], service)
  call_all service (c ∷ calls) =
      let (outcome, service') = call service c in
      let (outcomes, service'') = call_all service' calls in (outcome ∷ outcomes, service'')

  -- What the calls answer when there is just the info that was set last.
  unfoldable pub answers : PeerInfo → List (Call PeerInfo) → List (Answer PeerId PeerInfo)
  answers info [] = []
  answers info (get_info ∷ calls) = info_is info ∷ answers info calls
  answers info (set_info info' ∷ calls) = info_set ∷ answers info' calls
  answers info (get_peers ∷ calls) = peers_are [] ∷ answers info calls

  -- A call leaves a service that is as a new one.
  pub call-new :
      (info : PeerInfo) (c : Call PeerInfo)
      → (call (new_service info) c).1 ≡ new_service (last_info info (c ∷ []))
  unfolding call new_service local_info set_local_info peers expect read_unwrap write_unwrap hold
      share last_info
  call-new info get_info = refl
  call-new info (set_info info') = refl
  call-new info get_peers = refl

  -- Whatever calls are made by clones of a new service, in the order in which they get the locks: none
  -- panics, each `local_info` is the info that was set last, each `peers` is empty, and the service
  -- that is left is as a new one with the last info.
  pub call_all-new :
      (info : PeerInfo) (calls : List (Call PeerInfo))
      → call_all (new_service info) calls
        ≡ (map returned (answers info calls), new_service (last_info info calls))
  unfolding call_all call new_service local_info set_local_info peers expect read_unwrap
      write_unwrap hold share last_info answers
  call_all-new info [] = refl
  call_all-new info (get_info ∷ calls) =
      ap (λ r. (returned (info_is info) ∷ r.0, r.1)) (call_all-new info calls)
  call_all-new info (set_info info' ∷ calls) =
      ap (λ r. (returned info_set ∷ r.0, r.1)) (call_all-new info' calls)
  call_all-new info (get_peers ∷ calls) =
      ap (λ r. (returned (peers_are []) ∷ r.0, r.1)) (call_all-new info calls)
