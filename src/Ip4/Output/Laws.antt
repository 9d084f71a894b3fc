-- ===== src/Ip4/Output/Laws.antt =====
-- What `_phtx_ip4` (pytcp/protocols/ip4/phtx.py) hands on to Ethernet.
use py_tcp.Prelude.{
  ℕ, zero, suc, ◌+◌, ◌≤◌, ◌<◌, ◌≡◌, ◌≢◌, ◌⊎◌, inl, inr, refl, Option, none, some, List, [], ◌∷◌,
  map, Bool, true, ◌&&◌, ◌==◌, leb, ltb, length, take, drop, length-take, All, Bool-cases, arith,
}
use py_tcp.Address.Ip4.{is_unspecified}
use py_tcp.Packet.Ip4.{Ip4Header, header_asserts, is_known_proto, pseudo_sum}
use py_tcp.Ip4.{cut, data_mtu, header_len}
use py_tcp.Ip4.Output.{
  Ip4Stack, Src, unchanged, chosen, dropped, TxStatus, validate_src_ip4_address,
  validate_dst_ip4_address, Carried, Ip4Tx, whole, fragment, tx_len, Ip4Out, raised, returned,
  tx_header, fragment_tx, new_fragments, fragments_sent, send_fragments, send_ip4, send_to,
  phtx_ip4, send_chosen,
}
use py_tcp.Ip4.Output.Source.{IsOwn, LetsOwn, validate_src-LetsOwn}

-- What goes out fits the MTU, from a source of the stack to the destination, which is not 0.0.0.0.
abbrev header_of : Ip4Tx → Ip4Header
header_of (whole h dlen) = h
header_of (fragment h payload) = h

abbrev pub IsSendable : ℕ → Ip4Stack → Bool → ℕ → Ip4Tx → Type 0
IsSendable mtu s is_dhcp dst tx =
    let h = header_of tx in
    ((tx_len tx ≤ mtu) ⊎ (mtu < header_len)) × IsOwn s is_dhcp h.src × (h.dst ≡ dst) × (dst ≢ 0)

abbrev pub Sends : ℕ → Ip4Stack → Bool → ℕ → Ip4Out → Type 0
Sends mtu s is_dhcp dst (raised id) = Unit
Sends mtu s is_dhcp dst (returned status txs id) = All (IsSendable mtu s is_dhcp dst) txs

piece_fits :
    {mtu : ℕ} (size : ℕ) (payload : List ℕ)
    → (header_len + size ≤ mtu) ⊎ (mtu < header_len)
    → (20 + 0 + length (take size payload) ≤ mtu) ⊎ (mtu < header_len)
piece_fits size payload (inl fits) = inl (omega (arith, length-take size payload))
piece_fits size payload (inr short) = inr short

data_mtu-fits : (mtu : ℕ) → (header_len + data_mtu mtu ≤ mtu) ⊎ (mtu < header_len)
data_mtu-fits mtu = elim (Bool-cases (ltb mtu header_len)) [
  | inl t ↦ inr (ground (arith, t))
  | inr f ↦ inl (ground (arith, f))
]

new_fragments_accepted :
    (h : Ip4Header) (pieces : List (ℕ × (List ℕ × Bool)))
    → header_asserts h ≡ true
    → new_fragments h pieces ≡ some (map (fragment_tx h) pieces)
unfolding new_fragments
new_fragments_accepted h [] t = refl
new_fragments_accepted h (piece ∷ pieces) t = rw (t, new_fragments_accepted h pieces t) refl

module _ (mtu : ℕ) (s : Ip4Stack) (is_dhcp : Bool) (src dst : ℕ) (own : IsOwn s is_dhcp src)
    (there : dst ≢ 0) where
  pieces-IsSendable :
      (ttl id proto fuel size offset : ℕ) (payload : List ℕ)
      → (header_len + size ≤ mtu) ⊎ (mtu < header_len)
      → All
          (IsSendable mtu s is_dhcp dst)
          (map (fragment_tx (tx_header src dst ttl id proto)) (cut fuel size offset payload))
  unfolding cut
  pieces-IsSendable ttl id proto fuel size offset [] fits = tt
  pieces-IsSendable ttl id proto zero size offset (b ∷ bytes) fits = tt
  pieces-IsSendable ttl id proto (suc fuel) size offset (b ∷ bytes) fits = (
    (piece_fits size (b ∷ bytes) fits, own, refl, there),
    pieces-IsSendable ttl id proto fuel size (offset + length (take size (b ∷ bytes)))
        (drop size (b ∷ bytes)) fits,
  )

  fragments_sent-Sends :
      (id : ℕ) (h : Ip4Header) (ether : Ip4Tx → TxStatus) (pieces : List (ℕ × (List ℕ × Bool)))
      → All (IsSendable mtu s is_dhcp dst) (map (fragment_tx h) pieces)
      → Sends mtu s is_dhcp dst (fragments_sent id ether (new_fragments h pieces))
  unfolding new_fragments
  fragments_sent-Sends id h ether [] all = tt
  fragments_sent-Sends id h ether (piece ∷ pieces) all = elim (Bool-cases (header_asserts h)) [
    | inr f ↦ rw f tt
    | inl t ↦ rw (t, new_fragments_accepted h pieces t) all
  ]

  send_fragments-Sends :
      (ttl id proto : ℕ) (ether : Ip4Tx → TxStatus) (o : Option (List ℕ))
      → Sends mtu s is_dhcp dst (send_fragments mtu id (tx_header src dst ttl 0 proto) ether o)
  send_fragments-Sends ttl id proto ether none = tt
  send_fragments-Sends ttl id proto ether (some payload) = elim (Bool-cases (data_mtu mtu == 0)) [
    | inl t ↦ rw t tt
    | inr f ↦ rw f (
        fragments_sent-Sends (id + 1) (tx_header src dst ttl (id + 1) proto) ether
          (cut (length payload) (data_mtu mtu) 0 payload)
          (pieces-IsSendable ttl (id + 1) proto (length payload) (data_mtu mtu) 0 payload
            (data_mtu-fits mtu)))
  ]

  send_ip4-Sends :
      (ttl id : ℕ) (carried : Carried) (ether : Ip4Tx → TxStatus)
      → Sends mtu s is_dhcp dst
          (send_ip4 mtu id (tx_header src dst ttl 0 carried.proto) carried ether)
  send_ip4-Sends ttl id carried ether = elim (Bool-cases (is_known_proto carried.proto)) [
    | inr f ↦ rw f tt
    | inl t ↦ elim (Bool-cases (leb (20 + 0 + carried.len) mtu)) [
      | inl fits ↦ rw (t, fits) ((ground (arith, fits), own, refl, there), tt)
      | inr long ↦
          rw (t, long)
            (send_fragments-Sends ttl id carried.proto ether
              (carried.assemble (pseudo_sum src dst carried.proto carried.len)))
    ]
  ]

send_to-Sends :
    (mtu : ℕ) (s : Ip4Stack) (is_dhcp : Bool) (src dst ttl id : ℕ) (carried : Carried)
    (ether : Ip4Tx → TxStatus)
    → IsOwn s is_dhcp src
    → Sends mtu s is_dhcp dst (send_to mtu id src dst ttl carried ether)
unfolding validate_dst_ip4_address
send_to-Sends mtu s is_dhcp src dst ttl id carried ether own =
    elim (Bool-cases (is_unspecified dst)) [
      | inl t ↦ rw t tt
      | inr f ↦
          rw f (send_ip4-Sends mtu s is_dhcp src dst own (ground (arith, f)) ttl id carried ether)
    ]

Src-Sends :
    (mtu : ℕ) (s : Ip4Stack) (dst ttl id : ℕ) (carried : Carried) (ether : Ip4Tx → TxStatus)
    (c : Src)
    → LetsOwn s carried.is_dhcp c
    → Sends mtu s carried.is_dhcp dst (send_chosen mtu id dst ttl carried ether c)
Src-Sends mtu s dst ttl id carried ether (unchanged a) own =
    send_to-Sends mtu s carried.is_dhcp a dst ttl id carried ether own
Src-Sends mtu s dst ttl id carried ether (chosen count a) own =
    send_to-Sends mtu s carried.is_dhcp a dst ttl id carried ether own
Src-Sends mtu s dst ttl id carried ether (dropped count status) own = tt

-- Whatever source is asked for, with whatever way to send by Ethernet: each packet and each fragment that
-- is handed on is at most an MTU long, unless the MTU is shorter than a header, and goes to the destination, which is not 0.0.0.0, from a unicast
-- address of the stack, or from 0.0.0.0 for the DHCP client.
pub phtx_ip4-Sends :
    (mtu : ℕ) (s : Ip4Stack) (id src dst ttl : ℕ) (carried : Carried) (ether : Ip4Tx → TxStatus)
    → Sends mtu s carried.is_dhcp dst (phtx_ip4 mtu s id src dst ttl carried ether)
unfolding phtx_ip4
phtx_ip4-Sends mtu s id src dst ttl carried ether = elim (Bool-cases (ltb 0 ttl && ltb ttl 256)) [
  | inr f ↦ rw f tt
  | inl t ↦ rw t (
      Src-Sends mtu s dst ttl id carried ether (validate_src_ip4_address s src dst carried.is_dhcp)
        (validate_src-LetsOwn s src dst carried.is_dhcp))
]
