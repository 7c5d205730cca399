-- ===== src/Net/Behaviour/Settings.antt =====
-- blocknet/src/libp2p/peer_info/behaviour.rs: `Config` and its builders.
use rust_chain.Prelude.{ℕ, Bool, false}
use rust_chain.Net.Types.{Types}

-- An interval is its seconds.
pub record Config {ℓ} (W : Types {ℓ}) : Type ℓ where
  pub protocol_version : W.Text
  pub local_public_key : W.Key
  pub agent_version : W.Text
  pub interval : ℕ
  pub push_listen_addr_updates : Bool
  pub cache_size : ℕ
  pub protocol_name : W.Protocol
  pub push_protocol_name : W.Protocol

module _ {ℓ} {W : Types {ℓ}} where
  -- `agent` is `rust-libp2p/` and the version of the crate, which the build fills in.
  unfoldable pub new_config :
      (agent version : W.Text) → W.Key → (name push_name : W.Protocol) → Config W
  new_config agent version key name push_name = record {
    protocol_version = version;
    agent_version = agent;
    local_public_key = key;
    interval = 300;
    push_listen_addr_updates = false;
    cache_size = 100;
    protocol_name = name;
    push_protocol_name = push_name;
  }

  unfoldable pub with_agent_version : Config W → W.Text → Config W
  with_agent_version config v = record config { agent_version = v }

  unfoldable pub with_interval : Config W → ℕ → Config W
  with_interval config d = record config { interval = d }

  unfoldable pub with_push_listen_addr_updates : Config W → Bool → Config W
  with_push_listen_addr_updates config b = record config { push_listen_addr_updates = b }

  unfoldable pub with_cache_size : Config W → ℕ → Config W
  with_cache_size config size = record config { cache_size = size }
