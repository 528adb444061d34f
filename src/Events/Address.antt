-- ===== src/Events/Address.antt =====
-- Addresses of peers, as far as src/app/p2p/events.rs looks at them, and `is_dialable`.
use rust_dfs.Base.{ℕ, Bool, true, false, ◌||◌, List, [], ◌∷◌, if◌then◌else◌, ◌≡◌, ◌↔◌, All, arith}
use rust_dfs.Base.Text.{Text}

-- An IP address, with what the standard library says of it.
pub record Ip : Type 0 where
  pub octets : List ℕ
  pub is_loopback : Bool
  pub is_unspecified : Bool

-- `libp2p::multiaddr::Protocol`; `other` stands for the rest of them.
pub data Protocol : Type 0 where
  ip4 : Ip → Protocol
  ip6 : Ip → Protocol
  p2p : ℕ → Protocol
  p2p_circuit : Protocol
  other : Text → Protocol

abbrev pub Multiaddr : Type 0
Multiaddr = List Protocol

-- `is_dialable`
unfoldable pub is_dialable : Multiaddr → Bool
is_dialable [] = true
is_dialable (ip4 ip ∷ protos) =
    let rest = is_dialable protos in if ip.is_loopback || ip.is_unspecified then false else rest
is_dialable (ip6 ip ∷ protos) =
    let rest = is_dialable protos in if ip.is_loopback || ip.is_unspecified then false else rest
is_dialable (p2p peer ∷ protos) = is_dialable protos
is_dialable (p2p_circuit ∷ protos) = is_dialable protos
is_dialable (other name ∷ protos) = is_dialable protos

-- No component of the address is an IP address of this host or of no host.
pub data IsRoutable : Protocol → Type 0 where
  routable4 : (ip : Ip) → ip.is_loopback ≡ false → ip.is_unspecified ≡ false → IsRoutable (ip4 ip)
  routable6 : (ip : Ip) → ip.is_loopback ≡ false → ip.is_unspecified ≡ false → IsRoutable (ip6 ip)
  peer : (n : ℕ) → IsRoutable (p2p n)
  circuit : IsRoutable p2p_circuit
  named : (name : Text) → IsRoutable (other name)

dialable-IsRoutable : (addr : Multiaddr) → is_dialable addr ≡ true → All IsRoutable addr
unfolding is_dialable
dialable-IsRoutable [] h = tt
dialable-IsRoutable (ip4 ip ∷ protos) h =
    (routable4 ip (ground arith) (ground arith), dialable-IsRoutable protos (ground arith))
dialable-IsRoutable (ip6 ip ∷ protos) h =
    (routable6 ip (ground arith) (ground arith), dialable-IsRoutable protos (ground arith))
dialable-IsRoutable (p2p n ∷ protos) h = (peer n, dialable-IsRoutable protos h)
dialable-IsRoutable (p2p_circuit ∷ protos) h = (circuit, dialable-IsRoutable protos h)
dialable-IsRoutable (other name ∷ protos) h = (named name, dialable-IsRoutable protos h)

IsRoutable-dialable : (addr : Multiaddr) → All IsRoutable addr → is_dialable addr ≡ true
unfolding is_dialable
IsRoutable-dialable [] h = ground arith
IsRoutable-dialable (ip4 ip ∷ protos) (routable4 _ a b, h) =
    ground (arith, a, b, IsRoutable-dialable protos h)
IsRoutable-dialable (ip6 ip ∷ protos) (routable6 _ a b, h) =
    ground (arith, a, b, IsRoutable-dialable protos h)
IsRoutable-dialable (p2p n ∷ protos) (_, h) = IsRoutable-dialable protos h
IsRoutable-dialable (p2p_circuit ∷ protos) (_, h) = IsRoutable-dialable protos h
IsRoutable-dialable (other name ∷ protos) (_, h) = IsRoutable-dialable protos h

-- An address is dialed exactly if no component of it is an IP address of this host or of no host,
-- wherever it stands in the address.
pub is_dialable-IsRoutable : (addr : Multiaddr) → (is_dialable addr ≡ true) ↔ All IsRoutable addr
is_dialable-IsRoutable addr = (dialable-IsRoutable addr, IsRoutable-dialable addr)
