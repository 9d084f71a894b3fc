-- ===== src/Ether/Laws.antt =====
-- The next hop that `_phtx_ether` (pytcp/protocols/ether/phtx.py) sends an IPv4 packet to.
use py_tcp.Prelude.{
  ℕ, ◌≡◌, ◌⊎◌, inl, inr, refl, Option, none, some, List, [], ◌∷◌, Bool, true, false, Bool-cases,
  All, arith,
}
use py_tcp.Dict.{get?}
use py_tcp.Address.Ip4.{Ip4Host, contains, is_multicast, is_limited_broadcast, broadcast_address}
use py_tcp.Ip4.Output.{
  TxStatus, dst_no_gateway_ip4, dst_arp_cache_fail, dst_gateway_arp_cache_fail, first_host,
}
use py_tcp.Arp.{
  ArpState, CacheEntry, broadcast_mac, find_entry, found_entry, arp_request, send_arp,
  send_arp_request,
}
use py_tcp.Ether.{
  EtherOut, enqueued, dropped, raised, on_lookup, is_network_broadcast, is_external, to_gateway,
  to_hop, to_network, resolve_ip4,
}

abbrev pub Has : Ip4Host → List Ip4Host → Type 0
Has host [] = ⊥
Has host (other ∷ hosts) = (host ≡ other) ⊎ Has host hosts

-- The destination is a broadcast: the limited one, or the network's address or its broadcast, for the
-- network of a host with the source address.
pub data IsBroadcast (hosts : List Ip4Host) (src dst : ℕ) : Type 0 where
  limited : is_limited_broadcast dst ≡ true → IsBroadcast hosts src dst
  of_network :
      (host : Ip4Host)
      → Has host hosts
      → host.address ≡ src
      → (dst ≡ host.network.address) ⊎ (dst ≡ broadcast_address host.network)
      → IsBroadcast hosts src dst

-- The destination itself, if it lies in the networks of all hosts with the source address; or the gateway
-- of a host with the source address whose network it lies outside of.
pub data IsHop (hosts : List Ip4Host) (src dst : ℕ) : ℕ → Type 0 where
  direct :
      All (λ host. host.address ≡ src → contains host.network dst ≡ true) hosts
      → IsHop hosts src dst dst
  gateway :
      (host : Ip4Host) (hop : ℕ)
      → Has host hosts
      → host.address ≡ src
      → contains host.network dst ≡ false
      → host.gateway ≡ some hop
      → IsHop hosts src dst hop

-- A host with the source address has no gateway, and the destination lies outside of its network.
abbrev pub LacksGateway : List Ip4Host → ℕ → ℕ → Type 0
LacksGateway hosts src dst =
    (host : Ip4Host) × Has host hosts
    × (host.address ≡ src)
    × (contains host.network dst ≡ false)
    × (host.gateway ≡ none)

-- A packet to a broadcast goes to all on the network. Any other goes to the MAC address that the cache has
-- for its next hop, which is noted as a hit; it is dropped where a gateway is lacking, and where the
-- cache has no entry for the next hop, and then an ARP request for it has gone out.
abbrev pub Resolves : List Ip4Host → ℕ → ℕ → ArpState → EtherOut × ArpState → Type 0
Resolves hosts src dst s (enqueued mac, t) =
    (IsBroadcast hosts src dst × (mac ≡ broadcast_mac) × (t ≡ s))
    ⊎ ((IsBroadcast hosts src dst → ⊥)
        × ((hop : ℕ) × IsHop hosts src dst hop × (find_entry hop s ≡ (some mac, t))))
Resolves hosts src dst s (dropped status, t) =
    (IsBroadcast hosts src dst → ⊥)
    × (((status ≡ dst_no_gateway_ip4) × LacksGateway hosts src dst × (t ≡ s))
        ⊎ ((hop : ℕ) × IsHop hosts src dst hop
            × (get? hop s.arp_cache ≡ none)
            × (t ≡ send_arp (arp_request hop s) s)))
Resolves hosts src dst s (raised, t) = ⊥

-- What a search finds.
Search : (Ip4Host → Bool) → List Ip4Host → Option Ip4Host → Type 0
Search p hosts none = All (λ host. p host ≡ false) hosts
Search p hosts (some host) = Has host hosts × (p host ≡ true)

further :
    (p : Ip4Host → Bool) (h : Ip4Host) (hosts : List Ip4Host) (o : Option Ip4Host)
    → p h ≡ false
    → Search p hosts o
    → Search p (h ∷ hosts) o
unfolding Search
further p h hosts none f all = (f, all)
further p h hosts (some host) f (has, t) = (inr has, t)

first_host-Search :
    (p : Ip4Host → Bool) (hosts : List Ip4Host) → Search p hosts (first_host p hosts)
unfolding first_host Search
first_host-Search p [] = tt
first_host-Search p (h ∷ hosts) = elim (Bool-cases (p h)) [
  | inl t ↦ rw t (inl refl, t)
  | inr f ↦ rw f (further p h hosts (first_host p hosts) f (first_host-Search p hosts))
]

module _ (hosts : List Ip4Host) (src dst : ℕ) (s : ArpState)
    (single : IsBroadcast hosts src dst → ⊥) where
  found-Resolves :
      (status : TxStatus) (hop : ℕ) (o : Option CacheEntry)
      → IsHop hosts src dst hop
      → get? hop s.arp_cache ≡ o
      → find_entry hop s ≡ found_entry hop s o
      → Resolves hosts src dst s (on_lookup status (found_entry hop s o))
  unfolding send_arp_request
  found-Resolves status hop none is_hop held e = (single, inr (hop, is_hop, held, refl))
  found-Resolves status hop (some entry) is_hop held e = inr (single, (hop, is_hop, e))

  lookup-Resolves :
      (status : TxStatus) (hop : ℕ)
      → IsHop hosts src dst hop
      → Resolves hosts src dst s (on_lookup status (find_entry hop s))
  unfolding find_entry
  lookup-Resolves status hop is_hop =
      found-Resolves status hop (get? hop s.arp_cache) is_hop refl refl

  gateway-Resolves :
      (host : Ip4Host) (o : Option ℕ)
      → host.gateway ≡ o
      → Has host hosts
      → is_external src dst host ≡ true
      → Resolves hosts src dst s (to_gateway o s)
  gateway-Resolves host none e has external =
      (single, inl (refl, (host, has, ground (arith, external), ground (arith, external), e), refl))
  gateway-Resolves host (some hop) e has external =
      lookup-Resolves dst_gateway_arp_cache_fail hop
        (gateway host hop has (ground (arith, external)) (ground (arith, external)) e)

  inside :
      (others : List Ip4Host)
      → All (λ host. is_external src dst host ≡ false) others
      → All (λ host. host.address ≡ src → contains host.network dst ≡ true) others
  inside [] all = tt
  inside (h ∷ others) (first, all) = ((λ e. ground (arith, first, e)), inside others all)

  hop-Resolves :
      (o : Option Ip4Host)
      → Search (is_external src dst) hosts o
      → Resolves hosts src dst s (to_hop dst s o)
  unfolding Search
  hop-Resolves none all = lookup-Resolves dst_arp_cache_fail dst (direct (inside hosts all))
  hop-Resolves (some host) (has, external) = gateway-Resolves host host.gateway refl has external

module _ (hosts : List Ip4Host) (src dst : ℕ) (s : ArpState)
    (not_limited : is_limited_broadcast dst ≡ false) where
  none_matches :
      (others : List Ip4Host) (host : Ip4Host)
      → All (λ host. is_network_broadcast src dst host ≡ false) others
      → Has host others
      → is_network_broadcast src dst host ≡ false
  none_matches [] host all has = absurd has
  none_matches (h ∷ others) host (f, all) (inl e) = rw e f
  none_matches (h ∷ others) host (f, all) (inr has) = none_matches others host all has

  not_broadcast :
      All (λ host. is_network_broadcast src dst host ≡ false) hosts → IsBroadcast hosts src dst → ⊥
  not_broadcast all (limited t) = cc
  not_broadcast all (of_network host has own at) = ground (arith, none_matches hosts host all has)

  network-Resolves :
      (o : Option Ip4Host)
      → Search (is_network_broadcast src dst) hosts o
      → Resolves hosts src dst s (to_network hosts src dst s o)
  unfolding Search
  network-Resolves none all =
      hop-Resolves hosts src dst s (not_broadcast all) (first_host (is_external src dst) hosts)
        (first_host-Search _ hosts)
  network-Resolves (some host) (has, t) =
      inl (of_network host has (ground (arith, t)) (is_network t), refl, refl)
    where
      is_network :
          is_network_broadcast src dst host ≡ true
          → (dst ≡ host.network.address) ⊎ (dst ≡ broadcast_address host.network)
      is_network t = ground arith

-- Whatever hosts the stack has: a packet to the limited broadcast, or to the address or the broadcast of the
-- network of a host with the source address, is enqueued for the broadcast address. Any other, to a
-- destination that is no multicast group, is enqueued only for the MAC address that the ARP cache
-- has for its next hop: the destination if it lies in the networks of all hosts that have the source
-- address, and else the gateway of one of them. It is dropped only where such a host has no gateway,
-- or where the cache has no entry for the next hop, after an ARP request for it was sent.
pub resolve_ip4-Resolves :
    (hosts : List Ip4Host) (src dst : ℕ) (s : ArpState)
    → is_multicast dst ≡ false
    → Resolves hosts src dst s (resolve_ip4 hosts src dst s)
unfolding resolve_ip4
resolve_ip4-Resolves hosts src dst s one = elim (Bool-cases (is_limited_broadcast dst)) [
  | inl t ↦ rw (one, t) (inl (limited t, refl, refl))
  | inr f ↦
      rw (one, f)
        (network-Resolves hosts src dst s f (first_host (is_network_broadcast src dst) hosts)
          (first_host-Search _ hosts))
]
