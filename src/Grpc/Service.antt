-- ===== src/Grpc/Service.antt =====
-- `GrpcService` of src/app/grpc/server.rs, which serves `DfsService` to the clients on this machine,
-- and its errors (src/app/grpc/errors.rs). A clone of the store or of the sender of commands is the
-- same store or channel.
use rust_dfs.Base.{ℕ, ◌<◌, ◌≡◌, refl, ◌++◌, true}
use rust_dfs.Base.{Result, ok, err, Exec, lift, map_err, wrap_err, ◌>>=◌, Result-cases, inl, inr}
use rust_dfs.Base.Text.{Text, text}
use rust_dfs.Base.Decimal.{show_nat}
use rust_dfs.Startup.Errors.{GrpcServerError, address_parse, transport, grpc_server}
use rust_dfs.Startup.Server.{Server, service_ended}

-- What is served to the clients.
pub record DfsService (Store Sender : Type 0) : Type 0 where
  pub store : Store
  pub command_sender : Sender

pub record GrpcService (Store Sender : Type 0) : Type 0 where
  pub port : ℕ
  pub store : Store
  pub command_sender : Sender

-- The sockets of this machine: `parse` of a `SocketAddr`, and `serve_with_shutdown` of tonic, which
-- comes back when the token is cancelled or with an error.
pub record Host (Store Sender : Type 0) : Type 1 where
  pub SocketAddr : Type 0
  pub State : Type 0
  pub v4 : ℕ → ℕ → ℕ → ℕ → ℕ → SocketAddr
  pub parse : Text → Result Text SocketAddr
  pub serve_with_shutdown : SocketAddr → DfsService Store Sender → Exec State Text Unit

-- An IPv4 address and a port, written as they are here, are read.
pub record ParsesLocal {Store Sender : Type 0} (host : Host Store Sender) : Type 0 where
  pub parse_local :
      (port : ℕ)
      → port < 65536
      → host.parse (text "127.0.0.1:" ++ show_nat port) ≡ ok (host.v4 127 0 0 1 port)

module _ (Store Sender : Type 0) where
  -- `GrpcService::new`
  abbrev pub new : ℕ → Store → Sender → GrpcService Store Sender
  new port store command_sender = record {
    port = port;
    store = store;
    command_sender = command_sender;
  }

  abbrev pub dfs_service : GrpcService Store Sender → DfsService Store Sender
  dfs_service g = record { store = g.store; command_sender = g.command_sender }

  module _ (host : Host Store Sender) where
    -- `start`
    unfoldable pub start_grpc : GrpcService Store Sender → Exec host.State GrpcServerError Unit
    start_grpc g = do
      grpc_address ←
          lift (map_err address_parse (host.parse (text "127.0.0.1:" ++ show_nat g.port)))
      wrap_err transport (host.serve_with_shutdown grpc_address (dfs_service g))

    -- The clients reach the node from its own machine, on the port it was given: the address never
    -- fails to parse, and only a failure to serve it ends the service with an error, which cancels
    -- the token of the server.
    pub start_grpc-IsLocal :
        ParsesLocal host
        → (g : GrpcService Store Sender) (w : host.State) (i : ℕ) (s : Server) → g.port < 65536
        → let served = host.serve_with_shutdown (host.v4 127 0 0 1 g.port) (dfs_service g) w in
          (start_grpc g w ≡ (map_err transport served.0, served.1))
          × ((service_ended i (map_err grpc_server (start_grpc g w).0) s).cancelled
              ≡ (elim served.0 [ ok _ ↦ s.cancelled | err _ ↦ true ]))
    unfolding start_grpc service_ended
    start_grpc-IsLocal H g w i s small =
        elim (Result-cases
          (host.serve_with_shutdown (host.v4 127 0 0 1 g.port) (dfs_service g) w).0) [
            | inl (_, well) ↦ rw (H.parse_local g.port small, well) (refl, refl)
            | inr (_, bad) ↦ rw (H.parse_local g.port small, bad) (refl, refl)
          ]
