-- ===== src/Events/Discovery.antt =====
-- How a node learns the addresses of its peers: `mdns` and `identify` of src/app/p2p/events.rs.
pub mod Laws
use rust_dfs.Base.{ℕ, Bool, true, false, Option, none, some, List, [], ◌∷◌, ◌++◌, if◌then◌else◌}
use rust_dfs.Events.Address.{Multiaddr, p2p_circuit, is_dialable}
use rust_dfs.Events.State.{
  Effect, Net, World, did, add_peer_address, add_address, add_explicit_peer, listen_on,
}

abbrev dial : ℕ → Multiaddr → World → World
dial peer addr w = if is_dialable addr then did (add_peer_address peer addr) w else w

-- The arm `Discovered` of `mdns`.
unfoldable pub mdns : List (ℕ × Multiaddr) → World → World
unfolding is_dialable
mdns [] w = w
mdns ((peer, addr) ∷ peers) w =
    mdns peers (did (add_explicit_peer peer) (did (add_address peer addr) (dial peer addr w)))

module _ (net : Net) where
  -- A relay is asked to be listened on, through the address that leads to it.
  abbrev listen_via : ℕ → Multiaddr → World → World
  listen_via peer addr w = elim (net.with_p2p peer addr) [
    | none ↦ w
    | some relay_addr ↦ did (listen_on (relay_addr ++ p2p_circuit ∷ [])) w
  ]

  -- The arm `Received` of `identify`, with the addresses that the peer listens on.
  unfoldable pub identify : ℕ → Bool → List Multiaddr → World → World
  unfolding is_dialable
  identify peer is_relay [] w = w
  identify peer is_relay (addr ∷ addrs) w =
      let known = did (add_explicit_peer peer) (dial peer addr (did (add_address peer addr) w)) in
      identify peer is_relay addrs (if is_relay then listen_via peer addr known else known)
