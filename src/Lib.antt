-- ===== src/Lib.antt =====
-- A model of the Rust workspace rust-chain: the framework crate `blockchain`, which keeps a tree of
-- blocks and their states, and the crate `blocknet`, which connects peers.
--
-- The parts and where they are modelled:
--   blockchain/src/block.rs            Block: the traits of blocks, as records.
--   blockchain/src/chain.rs            ForkTree: the traits of fork trees, importers and builders of
--                                      blocks, and `is_ancestor`.
--   blockchain/src/memory/chain.rs     Memory/Chain: `MemoryForkTree`. Each stage of `insert` is a
--                                      function, and `insert` composes them.
--   blockchain/src/state.rs            FlatState: the trait of flat states, `OverlayedFlatState`.
--   blockchain/src/memory/state.rs     Memory/State: `MemoryFlatState` over any fork tree.
--   blockchain/src/memory/mod.rs       Memory/Transactional: `MemoryTransactional`.
--   blockchain/tests/simple.rs         Client: the chain of the test, which puts these together:
--                                      `import`, the builder of blocks, the start from a genesis
--                                      (Client/Genesis), whose `assert!` on its extrinsics panics.
--                                      Client/View is an abstract view of it: depths of blocks and
--                                      what was written of each key, in no order.
--   blocknet/src/service.rs            Net/Service: the traits of services.
--   blocknet/src/libp2p/mod.rs         Net/Worker: `Worker::step` and `run`; `retain`, `send_all`,
--                                      `push_sender` are the stages of its arms. Net/Worker/Service:
--                                      `Service`, whose `broadcast` and `listen` send actions;
--                                      Publish follows broadcasts to what the worker publishes.
--   blocknet/src/libp2p/peer_info/protocol.rs, codec.rs, json.rs
--                                      Net/Protocol, Net/Codec and Net/Codec/Json.
--   blocknet/src/libp2p/peer_info/handler.rs
--                                      Net/Handler: `Handler`, one per connection. Run has the calls
--                                      that it gets, one after the other; BothEnds sets two peers
--                                      at the ends of its streams.
--   blocknet/src/libp2p/peer_info/behaviour.rs
--                                      Net/Behaviour: `Behaviour`, its `Config` in Settings. It
--                                      makes the handlers; Exchange puts the two together.
--   blocknet/src/libp2p/mod.rs         Net/Node: `Worker::new` and `Worker::service`; a node is the
--                                      worker, its swarm and its service, and Run has its calls.
--   util/sync-extra/src/lib.rs         SyncExtra: locks with the poisoning of the standard library
--                                      and the methods that panic on it. Uses runs their users.
--   tinyjam/src/lib.rs                 Tinyjam: its one record.
-- Net/Types names the types that peer_info is over, Net/Exchange what its handlers send and get.
-- Tests holds concrete inputs, runs and instances.
--
-- How the source is read. A method on `&mut self` returns the value that it leaves, with an error
-- too, or an `Outcome` of them where it can panic. `HashMap` is an association list, `BTreeMap` a
-- sorted one (Prelude). A trait is a record of functions over the type that implements it. `usize`
-- depths are plain numbers: one insert raises a depth by one. The `u32` numbers of blocks wrap around, as in a release build.
-- The loop of `ancestor_id_at_depth` has no bound in the source. It runs on fuel, one round more
-- than the depth of the block that it starts from, and `diverged` is the outcome of a loop whose
-- fuel is used up. `itertools::unique` is a parameter: it keeps the members of a list.
--
-- The worker gets its actions and events as a list, each with the answers that the channels and
-- gossipsub give at that time: these, and libp2p's lists of addresses, are parameters. So are the
-- timer, the bounded set of futures and the supported protocols of a handler (`Runtime`), which
-- each call brings anew, the streams (`Io`), serde_json (`Serde`) and the channel of actions
-- (`Actions`); `FuturesSet` and `BoundedSet` are what a set of futures documents. What the builder
-- of libp2p makes of a node (`Setup`, `Parts`) is a parameter as well. What a handler has a future
-- do is a value (`Exchange`), and `complete` says what it comes to with a codec. The events of a
-- handler are a stack, since the source pops the last one.
--
-- Not modelled: logging; libp2p, tokio and serde themselves; and the declarations of modules and
-- features. The traits that nothing implements are records without a value.
pub mod Prelude
pub mod Block
pub mod ForkTree
pub mod FlatState
pub mod Memory
pub mod Net
pub mod SyncExtra
pub mod Tinyjam
pub mod Client
mod Tests
