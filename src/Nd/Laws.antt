-- ===== src/Nd/Laws.antt =====
-- Lookups of neighbours, and where IPv6 packets go that need one.
use py_tcp.Prelude.{ℕ, ◌≡◌, refl, none, some, true, false, ◌==◌, ap, ◌∙◌, arith}
use py_tcp.Dict.{get?}
use py_tcp.Dict.Laws.{get?-insert}
use py_tcp.Arp.{new_entry}
use py_tcp.Address.Ip6.{is_ip6_multicast}
use py_tcp.Ip4.Output.{dst_nd_cache_fail}
use py_tcp.Ip6.Output.{first_ip6_host}
use py_tcp.Ether.{enqueued, dropped}
use py_tcp.Nd.{
  NdState, send_neighbor_solicitation, add_nd_entry, found_nd_entry, find_nd_entry, on_nd_lookup,
  is_ip6_external, resolve_ip6,
}

pub get?-add_nd_entry :
    (now k m : ℕ) (s : NdState) → get? k (add_nd_entry now k m s).nd_cache ≡ some (new_entry now m)
unfolding add_nd_entry
get?-add_nd_entry now k m s =
    let same : (k == k) ≡ true = ground arith in
    get?-insert k k (new_entry now m) s.nd_cache ∙ rw same refl

resolve_ip6-hop :
    (src dst : ℕ) (s : NdState)
    → is_ip6_multicast dst ≡ false
    → first_ip6_host (is_ip6_external src dst) s.ip6_host ≡ none
    → resolve_ip6 src dst s ≡ on_nd_lookup dst_nd_cache_fail (find_nd_entry dst s)
unfolding resolve_ip6
resolve_ip6-hop src dst s single inside = rw (single, inside) refl

-- A packet for a neighbour that the cache does not know is dropped, and a solicitation for its address is
-- sent to the group of the address. Once the neighbour's answer is noted in the state that is left,
-- the packet is enqueued for the address that it tells.
resolve_ip6-exchange :
    (src dst now mac : ℕ) (s : NdState)
    → is_ip6_multicast dst ≡ false
    → first_ip6_host (is_ip6_external src dst) s.ip6_host ≡ none
    → get? dst s.nd_cache ≡ none
    → (resolve_ip6 src dst s ≡ (dropped dst_nd_cache_fail, send_neighbor_solicitation dst s))
      × ((resolve_ip6 src dst (add_nd_entry now dst mac (send_neighbor_solicitation dst s))).0
          ≡ enqueued mac)
unfolding find_nd_entry add_nd_entry send_neighbor_solicitation
resolve_ip6-exchange src dst now mac s single inside unknown =
    let after = add_nd_entry now dst mac (send_neighbor_solicitation dst s) in
    (
      resolve_ip6-hop src dst s single inside
          ∙ ap (λ o. on_nd_lookup dst_nd_cache_fail (found_nd_entry dst s o)) unknown,
      ap (λ r. r.0) (resolve_ip6-hop src dst after single inside)
          ∙ ap (λ o. (on_nd_lookup dst_nd_cache_fail (found_nd_entry dst after o)).0)
              (get?-add_nd_entry now dst mac (send_neighbor_solicitation dst s)),
    )
