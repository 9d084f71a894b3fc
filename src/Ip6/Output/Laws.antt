-- ===== src/Ip6/Output/Laws.antt =====
-- What `_phtx_ip6` (pytcp/protocols/ip6/phtx.py) hands on to Ethernet.
use py_tcp.Prelude.{
  ℕ, zero, suc, ◌+◌, ◌≤◌, ◌≡◌, ◌≢◌, inl, inr, refl, Option, none, some, List, [], ◌∷◌, ◌++◌, Bool,
  ◌&&◌, ◌==◌, leb, ltb, length, All, Bool-cases, arith, All-append,
}
use py_tcp.Packet.Ip6.{is_known_next, ip6_pseudo_sum, ip6_plen}
use py_tcp.Packet.Ip6.Frag.{is_carried_next}
use py_tcp.Ip4.{cut}
use py_tcp.Ip4.Output.{TxStatus}
use py_tcp.Ip6.{Ip6Stack}
use py_tcp.Ip6.Output.{
  Carried6, Src6, chosen, dropped, validate_src_ip6_address, validate_dst_ip6_address, Ip6Tx,
  ip6_tx_len, Ip6Out, raised, returned, ip6_tx_header, ip6_data_mtu, ip6_frag_of, carried_frag,
  FragsOut, frags_raised, frags_sent, and_then, send_frags, frags_status, phtx_ip6_ext_frag,
  send_ip6, send_ip6_from, phtx_ip6, ip6_default_hop,
}
use py_tcp.Ip6.Output.Source.{IsOwn6, LetsOwn6, validate_src-LetsOwn6}

-- What goes out fits the MTU, from a source of the stack to the destination, which is not ::.
pub record IsSendable6 (mtu : ℕ) (s : Ip6Stack) (dst : ℕ) (tx : Ip6Tx) : Type 0 where
  pub fits : ip6_tx_len tx ≤ mtu
  pub own : IsOwn6 s tx.carried tx.header.src
  pub there : (tx.header.dst ≡ dst) × (dst ≢ 0)

abbrev pub Sends6 : ℕ → Ip6Stack → ℕ → Ip6Out → Type 0
Sends6 mtu s dst (raised id) = Unit
Sends6 mtu s dst (returned status txs id) = All (IsSendable6 mtu s dst) txs

abbrev SendsFrags : ℕ → Ip6Stack → ℕ → FragsOut → Type 0
SendsFrags mtu s dst (frags_raised id) = Unit
SendsFrags mtu s dst (frags_sent ts txs id) = All (IsSendable6 mtu s dst) txs

module _ (mtu : ℕ) (s : Ip6Stack) (dst : ℕ) where
  and_then-SendsFrags :
      (o : Ip6Out) (rest : ℕ → FragsOut)
      → Sends6 mtu s dst o
      → ((id : ℕ) → SendsFrags mtu s dst (rest id))
      → SendsFrags mtu s dst (and_then o rest)
  and_then-SendsFrags (raised id) rest h all = tt
  and_then-SendsFrags (returned status txs id) rest h all = joined (rest id) (all id)
    where
      joined :
          (r : FragsOut)
          → SendsFrags mtu s dst r
          → SendsFrags mtu s dst (elim r [
            | frags_raised id' ↦ frags_raised id'
            | frags_sent ts more id' ↦ frags_sent (status ∷ ts) (txs ++ more) id'
          ])
      joined (frags_raised id') r = tt
      joined (frags_sent ts more id') r = All-append (IsSendable6 mtu s dst) txs more h r

  module _ (send : ℕ → Carried6 → Ip6Out)
      (all : (id : ℕ) (c : Carried6) → Sends6 mtu s dst (send id c)) where
    send_frags-SendsFrags :
        (next id : ℕ) (pieces : List (ℕ × (List ℕ × Bool)))
        → SendsFrags mtu s dst (send_frags send next id pieces)
    unfolding send_frags
    send_frags-SendsFrags next id [] = tt
    send_frags-SendsFrags next id (piece ∷ pieces) = elim (Bool-cases (is_carried_next next)) [
      | inr f ↦ rw f tt
      | inl t ↦ rw t (
          and_then-SendsFrags (send id (carried_frag (ip6_frag_of next id piece))) _
            (all id (carried_frag (ip6_frag_of next id piece)))
            (λ id'. send_frags-SendsFrags next id' pieces))
    ]

    frags_status-Sends6 :
        (o : FragsOut) → SendsFrags mtu s dst o → Sends6 mtu s dst (frags_status o)
    frags_status-Sends6 (frags_raised id) h = tt
    frags_status-Sends6 (frags_sent ts txs id) h = h

    ext_frag-Sends6 :
        (next id : ℕ) (o : Option (List ℕ))
        → Sends6 mtu s dst (phtx_ip6_ext_frag mtu send next id o)
    ext_frag-Sends6 next id none = tt
    ext_frag-Sends6 next id (some payload) = elim (Bool-cases (ip6_data_mtu mtu == 0)) [
      | inl t ↦ rw t tt
      | inr f ↦
          let pieces = cut (length payload) (ip6_data_mtu mtu) 0 payload in
          rw f (
            frags_status-Sends6 (send_frags send next (id + 1) pieces)
              (send_frags-SendsFrags next (id + 1) pieces))
    ]

    send_ip6-Sends6 :
        (id src hop : ℕ) (carried : Carried6) (ether : Ip6Tx → TxStatus)
        → IsOwn6 s carried src
        → dst ≢ 0
        → Sends6 mtu s dst
            (send_ip6 mtu send id (ip6_tx_header src dst hop carried.next) carried ether)
    send_ip6-Sends6 id src hop carried ether own there =
        elim (Bool-cases (is_known_next carried.next)) [
          | inr f ↦ rw f tt
          | inl t ↦ elim (Bool-cases (leb (ip6_plen carried.len) mtu)) [
            | inl fits ↦
                rw (t, fits)
                  (record { fits = ground (arith, fits); own = own; there = (refl, there) }, tt)
            | inr long ↦
                rw (t, long)
                  (ext_frag-Sends6 carried.next id
                    (carried.assemble (ip6_pseudo_sum src dst carried.next carried.len)))
          ]
        ]

send_ip6_from-Sends6 :
    (mtu : ℕ) (s : Ip6Stack) (send : ℕ → ℕ → ℕ → Carried6 → Ip6Out) (id dst hop : ℕ)
    (carried : Carried6) (ether : Ip6Tx → TxStatus) (c : Src6)
    → ((src id : ℕ) (c : Carried6) → Sends6 mtu s dst (send src dst id c))
    → LetsOwn6 s carried c
    → Sends6 mtu s dst (send_ip6_from mtu send id dst hop carried ether c)
unfolding validate_dst_ip6_address
send_ip6_from-Sends6 mtu s send id dst hop carried ether (dropped status) all own = tt
send_ip6_from-Sends6 mtu s send id dst hop carried ether (chosen src) all own =
    elim (Bool-cases (dst == 0)) [
      | inl z ↦ rw z tt
      | inr f ↦ rw f (
          send_ip6-Sends6 mtu s dst (send src dst) (all src) id src hop carried ether own
            (ground (arith, f)))
    ]

-- Whatever source is asked for, with whatever way to send by Ethernet, at whatever depth of calls: each
-- packet and each fragment that is handed on is at most an MTU long and goes to the destination,
-- which is not ::, from a unicast address of the stack, or from :: for a neighbour solicitation
-- without options or a report of multicast listeners.
pub phtx_ip6-Sends6 :
    (fuel mtu : ℕ) (s : Ip6Stack) (id src dst hop : ℕ) (carried : Carried6)
    (ether : Ip6Tx → TxStatus)
    → Sends6 mtu s dst (phtx_ip6 fuel mtu s id src dst hop carried ether)
unfolding phtx_ip6
phtx_ip6-Sends6 zero mtu s id src dst hop carried ether = tt
phtx_ip6-Sends6 (suc fuel) mtu s id src dst hop carried ether =
    elim (Bool-cases (ltb 0 hop && ltb hop 256)) [
      | inr f ↦ rw f tt
      | inl t ↦ rw t (
          send_ip6_from-Sends6 mtu s
            (λ src' dst' id' frag. phtx_ip6 fuel mtu s id' src' dst' ip6_default_hop frag ether) id
            dst hop carried ether (validate_src_ip6_address s src dst carried)
            (λ src' id' frag. phtx_ip6-Sends6 fuel mtu s id' src' dst ip6_default_hop frag ether)
            (validate_src-LetsOwn6 s src dst carried))
    ]
