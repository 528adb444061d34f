-- ===== src/Startup/Bootstrap/Joined.antt =====
-- A node whose loop starts knows all its bootstrap peers (`start` of src/app/p2p/service.rs).
use rust_dfs.Base.{◌≡◌, sym, ap, subst, ◌∙◌, List, [], ◌∷◌, inl, inr, arith, All}
use rust_dfs.Base.{Exec, Result, ok, Result-cases, continue, continue-ok, continue_ends, map_err}
use rust_dfs.Base.Text.{Text, text}
use rust_dfs.Domain.{Sha256Hasher}
use rust_dfs.Store.Codec.{Codecs}
use rust_dfs.Store.Interface.{FileStore, StoreError}
use rust_dfs.Processing.Fs.{Fs}
use rust_dfs.Events.Log.{before}
use rust_dfs.Events.State.{Effect, Net, World, did, set_server_mode}
use rust_dfs.Events.Publishing.{provide_all_published_files}
use rust_dfs.Events.Publishing.Keeps.{provide_all_published_files-keeps}
use rust_dfs.Startup.Config.{P2pServiceConfig}
use rust_dfs.Startup.Errors.{P2pNetworkError, ServerError, p2p_network}
use rust_dfs.Startup.Keypair.{Keys, keypair}
use rust_dfs.Startup.Bootstrap.{
  Swarm, listen, subscribe_topic, add_bootstrap_peers, prepare, Start, start_service,
}
use rust_dfs.Startup.Bootstrap.Laws.{IsJoined, peers-IsJoined}

module _ (swarm : Swarm) where
  did-IsJoined :
      (e : Effect) (t : Text) (w : World) → IsJoined swarm w t → IsJoined swarm (did e w) t
  did-IsJoined e t w j = record {
    valid = j.valid;
    known = before j.known;
    explicit = before j.explicit;
  }

  All-did :
      (e : Effect) (ts : List Text) (w : World)
      → All (IsJoined swarm w) ts
      → All (IsJoined swarm (did e w)) ts
  All-did e [] w h = tt
  All-did e (t ∷ ts) w (j, rest) = (did-IsJoined e t w j, All-did e ts w rest)

  module _ (config : P2pServiceConfig) where
    abbrev AllJoined : World → Type 0
    AllJoined w = All (IsJoined swarm w) config.bootstrap_peers

    abbrev peers : Exec World ServerError Unit
    peers = add_bootstrap_peers swarm config.bootstrap_peers

    abbrev after_listening : Exec World ServerError Unit
    after_listening w =
        continue (subscribe_topic swarm config.file_search_topic (did set_server_mode w))
          (λ _. peers)

    abbrev after_tcp : Exec World ServerError Unit
    after_tcp w =
        continue (listen swarm (text "/ip4/0.0.0.0/udp/0/quic-v1") w) (λ _. after_listening)

    -- The bootstrap peers come last.
    prepare-IsJoined :
        (w : World) → (prepare swarm config w).0 ≡ ok tt → AllJoined (prepare swarm config w).1
    unfolding prepare
    prepare-IsJoined w e =
        continue_ends AllJoined (listen swarm (text "/ip4/0.0.0.0/tcp/0") w) (λ _. after_tcp)
          (λ _ w₁ _.
            continue_ends AllJoined (listen swarm (text "/ip4/0.0.0.0/udp/0/quic-v1") w₁)
              (λ _. after_listening)
              (λ _ w₂ _.
                continue_ends AllJoined
                  (subscribe_topic swarm config.file_search_topic (did set_server_mode w₂))
                  (λ _. peers) (λ _ w₃ _. peers-IsJoined swarm config.bootstrap_peers w₃)))
          e

module _ (fs : Fs) (S : FileStore) (K : Keys) (net : Net) (h : Sha256Hasher) (c : Codecs)
    (show : StoreError → Text) (as_error : Text → P2pNetworkError)
    (build : K.Keypair → Result P2pNetworkError Swarm) (config : P2pServiceConfig) where
  -- Which calls were made before the loop.
  pub record IsReady (s : Start fs S K) : Type 0 where
    pub key_pair : K.Keypair
    pub swarm : Swarm
    pub built : build key_pair ≡ ok swarm
    pub joined : All (IsJoined swarm s.world) config.bootstrap_peers

  abbrev provide : Exec (Start fs S K) ServerError Unit
  provide s =
      let (r, world) =
        provide_all_published_files net h c S fs s.files show (S.stream_published_files s.records)
          s.world in
      (map_err (λ e. p2p_network (as_error e)) r, record s { world = world })

  provide-IsJoined :
      (swarm : Swarm) (s : Start fs S K)
      → All (IsJoined swarm s.world) config.bootstrap_peers
      → All (IsJoined swarm (provide s).1.world) config.bootstrap_peers
  provide-IsJoined swarm s =
      provide_all_published_files-keeps net h c (λ w. All (IsJoined swarm w) config.bootstrap_peers)
        (λ e w _ j. All-did swarm e config.bootstrap_peers w j) S fs s.files show
        (S.stream_published_files s.records) s.world

  abbrev prepared : Swarm → Start fs S K → Result ServerError Unit × Start fs S K
  prepared swarm s =
      let (r, world) = prepare swarm config s.world in (r, record s { world = world })

  abbrev with_swarm : Swarm → Exec (Start fs S K) ServerError Unit
  with_swarm swarm s = continue (prepared swarm s) (λ _. provide)

  abbrev with_key : K.Keypair → Exec (Start fs S K) ServerError Unit
  with_key k s = continue (map_err p2p_network (build k), s) with_swarm

  with_swarm-IsReady :
      (k : K.Keypair) (swarm : Swarm) (s : Start fs S K)
      → build k ≡ ok swarm
      → (with_swarm swarm s).0 ≡ ok tt
      → IsReady (with_swarm swarm s).1
  with_swarm-IsReady k swarm s built e =
      let (_, done, same) = continue-ok (prepared swarm s) (λ _. provide) e in
      subst (λ (x : Result ServerError Unit × Start fs S K). IsReady x.1) (sym same)
        (record {
          key_pair = k;
          swarm = swarm;
          built = built;
          joined =
              provide-IsJoined swarm (prepared swarm s).1
                (prepare-IsJoined swarm config s.world done);
        })

  with_key-IsReady :
      (k : K.Keypair) (s : Start fs S K) → (with_key k s).0 ≡ ok tt → IsReady (with_key k s).1
  with_key-IsReady k s e = elim (Result-cases (build k)) [
    | inr (_, bad) ↦ absurd (ground (arith, bad))
    | inl (swarm, built) ↦
        let same : with_key k s ≡ with_swarm swarm s =
          ap (λ r. continue (map_err p2p_network r, s) with_swarm) built in
        subst (λ (x : Result ServerError Unit × Start fs S K). IsReady x.1) (sym same)
          (with_swarm-IsReady k swarm s built (ap (λ x. x.0) (sym same) ∙ e))
  ]

  abbrev got_key : K.Keypair → Start fs S K → Result ServerError K.Keypair × Start fs S K
  got_key generated s =
      let (r, files) = keypair fs K config.keypair_file generated s.files in
      (map_err p2p_network r, record s { files = files })

  -- If the start comes to its loop, every bootstrap peer of the configuration is an address that ends
  -- with a peer, Kademlia has been given that address and Gossipsub that peer; what is provided
  -- afterwards takes nothing back.
  pub start_service-IsReady :
      (generated : K.Keypair) (s : Start fs S K)
      → (start_service fs S K net h c show as_error build config generated s).0 ≡ ok tt
      → IsReady (start_service fs S K net h c show as_error build config generated s).1
  unfolding start_service
  start_service-IsReady generated s e =
      continue_ends IsReady (got_key generated s) with_key (λ k s₁ _. with_key-IsReady k s₁) e
