-- ===== src/Startup/Bootstrap/Laws.antt =====
-- Which peers a node knows when its loop starts (src/app/p2p/service.rs).
use rust_dfs.Base.{ℕ, ◌≡◌, refl, sym, ap, subst, ◌∙◌, some, List, [], ◌∷◌, inl, inr, arith, All}
use rust_dfs.Base.{Result, ok, Result-cases, Option-cases, continue, continue-ok, continue_keeps}
use rust_dfs.Base.Text.{Text}
use rust_dfs.Events.Address.{Multiaddr}
use rust_dfs.Events.State.{Effect, World, did, add_address, add_explicit_peer}
use rust_dfs.Events.Log.{IsLogged, now, before}
use rust_dfs.Startup.Errors.{ServerError}
use rust_dfs.Startup.Bootstrap.{Swarm, last_peer, add_bootstrap_peer, add_bootstrap_peers}

module _ (swarm : Swarm) where
  -- The text is an address whose last component is a peer.
  pub record IsPeerAddress (t : Text) : Type 0 where
    pub addr : Multiaddr
    pub peer : ℕ
    pub parsed : swarm.parse t ≡ ok addr
    pub is_last : last_peer addr ≡ some peer

  -- Kademlia has its address, and Gossipsub the peer.
  pub record IsJoined (w : World) (t : Text) : Type 0 where
    pub valid : IsPeerAddress t
    pub known : IsLogged (add_address valid.peer valid.addr) w.log
    pub explicit : IsLogged (add_explicit_peer valid.peer) w.log

  peer-IsPeerAddress :
      (t : Text) (w : World) → (add_bootstrap_peer swarm t w).0 ≡ ok tt → IsPeerAddress t
  unfolding add_bootstrap_peer
  peer-IsPeerAddress t w e = elim (Result-cases (swarm.parse t)) [
    | inr (_, bad) ↦ absurd (ground (arith, bad))
    | inl (addr, parsed) ↦ elim (Option-cases (last_peer addr)) [
      | inl nobody ↦ absurd (ground (arith, parsed, nobody))
      | inr (peer, is_last) ↦ record {
        addr = addr;
        peer = peer;
        parsed = parsed;
        is_last = is_last;
      }
    ]
  ]

  peer_added :
      (t : Text) (w : World) (v : IsPeerAddress t)
      → add_bootstrap_peer swarm t w
        ≡ (ok tt, did (add_explicit_peer v.peer) (did (add_address v.peer v.addr) w))
  unfolding add_bootstrap_peer
  peer_added t w v = rw (v.parsed, add_bootstrap_peer, v.is_last) refl

  peer_keeps :
      (t : Text) (w : World) (e : Effect)
      → IsLogged e w.log
      → IsLogged e (add_bootstrap_peer swarm t w).1.log
  unfolding add_bootstrap_peer
  peer_keeps t w e h = elim (Result-cases (swarm.parse t)) [
    | inr (_, bad) ↦ rw (bad, add_bootstrap_peer) h
    | inl (addr, parsed) ↦ elim (Option-cases (last_peer addr)) [
      | inl nobody ↦ rw (parsed, add_bootstrap_peer, nobody) h
      | inr (peer, is_last) ↦ rw (parsed, add_bootstrap_peer, is_last) (before (before h))
    ]
  ]

  peers_keep :
      (ts : List Text) (w : World) (e : Effect)
      → IsLogged e w.log
      → IsLogged e (add_bootstrap_peers swarm ts w).1.log
  unfolding add_bootstrap_peers
  peers_keep [] w e h = h
  peers_keep (t ∷ ts) w e h =
      continue_keeps (λ v. IsLogged e v.log) (add_bootstrap_peer swarm t w)
        (λ _. add_bootstrap_peers swarm ts) (peer_keeps t w e h) (λ _ v. peers_keep ts v e)

  abbrev after : (t : Text) → World → IsPeerAddress t → World
  after t w v = did (add_explicit_peer v.peer) (did (add_address v.peer v.addr) w)

  first_added :
      (t : Text) (ts : List Text) (w : World) (v : IsPeerAddress t)
      → add_bootstrap_peers swarm (t ∷ ts) w ≡ add_bootstrap_peers swarm ts (after t w v)
  unfolding add_bootstrap_peers
  first_added t ts w v = ap (λ r. continue r (λ _. add_bootstrap_peers swarm ts)) (peer_added t w v)

  first_valid :
      (t : Text) (ts : List Text) (w : World)
      → (add_bootstrap_peers swarm (t ∷ ts) w).0 ≡ ok tt
      → IsPeerAddress t
  unfolding add_bootstrap_peers
  first_valid t ts w e =
      let (_, first, _) =
        continue-ok (add_bootstrap_peer swarm t w) (λ _. add_bootstrap_peers swarm ts) e in
      peer-IsPeerAddress t w first

  -- Where the bootstrap peers are all taken, each has been made known.
  pub peers-IsJoined :
      (ts : List Text) (w : World)
      → (add_bootstrap_peers swarm ts w).0 ≡ ok tt
      → All (IsJoined (add_bootstrap_peers swarm ts w).1) ts
  peers-IsJoined [] w e = tt
  peers-IsJoined (t ∷ ts) w e =
      let v : IsPeerAddress t = first_valid t ts w e in
      let same = first_added t ts w v in
      subst (λ (x : Result ServerError Unit × World). IsJoined x.1 t × All (IsJoined x.1) ts)
        (sym same)
        (
          record {
            valid = v;
            known = peers_keep ts _ _ (before now);
            explicit = peers_keep ts _ _ now;
          },
          peers-IsJoined ts (after t w v) (ap (λ x. x.0) (sym same) ∙ e),
        )
