-- ===== src/Events/Discovery/Laws.antt =====
-- What the handlers of mdns and identify (src/app/p2p/events.rs) do to the log.
use rust_dfs.Base.{
  ℕ, ◌≡◌, Bool, true, false, List, [], ◌∷◌, ◌++◌, Bool-cases, Option-cases, inl, inr,
}
use rust_dfs.Events.Address.{Multiaddr, p2p_circuit, is_dialable}
use rust_dfs.Events.State.{
  Effect, Net, World, did, add_peer_address, add_address, add_explicit_peer, listen_on,
}
use rust_dfs.Events.Discovery.{dial, listen_via, mdns, identify}

-- The effects of these handlers: an address goes to the address book only if it can be dialed.
pub data IsDiscovery : Effect → Type 0 where
  dialed :
      (peer : ℕ) (addr : Multiaddr)
      → is_dialable addr ≡ true
      → IsDiscovery (add_peer_address peer addr)
  known : (peer : ℕ) (addr : Multiaddr) → IsDiscovery (add_address peer addr)
  explicit : (peer : ℕ) → IsDiscovery (add_explicit_peer peer)
  via_relay : (addr : Multiaddr) → IsDiscovery (listen_on addr)

module _ (P : World → Type 0)
    (keep : (e : Effect) (w : World) → IsDiscovery e → P w → P (did e w)) where
  dial_keeps : (peer : ℕ) (addr : Multiaddr) (w : World) → P w → P (dial peer addr w)
  dial_keeps peer addr w h = elim (Bool-cases (is_dialable addr)) [
    | inl good ↦ rw good (keep _ w (dialed peer addr good) h)
    | inr bad ↦ rw bad h
  ]

  -- What each of these effects keeps, the handlers keep.
  pub mdns_keeps : (peers : List (ℕ × Multiaddr)) (w : World) → P w → P (mdns peers w)
  unfolding mdns
  mdns_keeps [] w h = h
  mdns_keeps ((peer, addr) ∷ peers) w h =
      mdns_keeps peers _
        (keep _ _ (explicit peer) (keep _ _ (known peer addr) (dial_keeps peer addr w h)))

  listen_keeps :
      (net : Net) (peer : ℕ) (addr : Multiaddr) (w : World) → P w → P (listen_via net peer addr w)
  listen_keeps net peer addr w h = elim (Option-cases (net.with_p2p peer addr)) [
    | inl none_there ↦ rw (none_there, listen_via) h
    | inr (relay, found) ↦
        rw (found, listen_via) (keep _ w (via_relay (relay ++ p2p_circuit ∷ [])) h)
  ]

  pub identify_keeps :
      (net : Net) (peer : ℕ) (is_relay : Bool) (addrs : List Multiaddr) (w : World)
      → P w
      → P (identify net peer is_relay addrs w)
  unfolding identify
  identify_keeps net peer is_relay [] w h = h
  identify_keeps net peer false (addr ∷ addrs) w h =
      identify_keeps net peer false addrs _
        (keep _ _ (explicit peer) (dial_keeps peer addr _ (keep _ w (known peer addr) h)))
  identify_keeps net peer true (addr ∷ addrs) w h = identify_keeps net peer true addrs _ (
      listen_keeps net peer addr _
        (keep _ _ (explicit peer) (dial_keeps peer addr _ (keep _ w (known peer addr) h))))
