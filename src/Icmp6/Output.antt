-- ===== src/Icmp6/Output.antt =====
-- `_phtx_icmp6` (pytcp/protocols/icmp6/phtx.py) over `_phtx_ip6`.
use py_tcp.Prelude.{ℕ, ◌≡◌, refl, Option, none, some, [], ◌∷◌, Bool, true, false, not, ◌==◌}
use py_tcp.Ip4.Output.{TxStatus}
use py_tcp.Packet.Icmp6.{
  Icmp6Message, neighbor_solicitation, neighbor_advertisement, mld2_report, tlla, new_icmp6,
  icmp6_len, assemble_icmp6,
}
use py_tcp.Ip6.{Ip6Stack}
use py_tcp.Ip6.Output.{Carried6, Ip6Tx, Ip6Out, raised, phtx_ip6}
use py_tcp.Icmp6.{Icmp6Tx, advertisement}

-- What `_validate_src_ip6_address` asks of the packet: a solicitation without options, or a report.
abbrev pub is_dad : Icmp6Message → Bool
is_dad (neighbor_solicitation target []) = true
is_dad _ = false

abbrev pub is_mld2_report : Icmp6Message → Bool
is_mld2_report (mld2_report records) = true
is_mld2_report _ = false

-- The assembled message for `_phtx_ip6`.
abbrev pub carried_icmp6 : Icmp6Message → Carried6
carried_icmp6 m = record {
  next = 58;
  len = icmp6_len m;
  is_dad = is_dad m;
  is_mld2_report = is_mld2_report m;
  assemble = λ sum. some (assemble_icmp6 m sum);
}

-- Behind the constructor, which raises for every message that is not handed on.
abbrev pub hand_on :
    ℕ → ℕ → Ip6Stack → ℕ → Icmp6Tx → (Ip6Tx → TxStatus) → Option Icmp6Message → Ip6Out
hand_on fuel mtu s id tx ether none = raised id
hand_on fuel mtu s id tx ether (some m) =
    phtx_ip6 fuel mtu s id tx.ip6_src tx.ip6_dst tx.ip6_hop (carried_icmp6 m) ether

-- `_phtx_icmp6`
unfoldable pub phtx_icmp6 : ℕ → ℕ → Ip6Stack → ℕ → Icmp6Tx → (Ip6Tx → TxStatus) → Ip6Out
unfolding new_icmp6
phtx_icmp6 fuel mtu s id tx ether = hand_on fuel mtu s id tx ether (new_icmp6 tx.args)

-- The answer to a solicitation is an advertisement for the constructor, solicited unless its source is
-- unspecified.
new_icmp6-advertisement :
    (src target mac : ℕ)
    → new_icmp6 (Icmp6Tx.args (advertisement src target mac))
      ≡ some (neighbor_advertisement false (not (src == 0)) (src == 0) target (tlla mac ∷ []))
unfolding new_icmp6
new_icmp6-advertisement src target mac = refl
