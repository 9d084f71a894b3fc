-- ===== src/Ip6/Tests.antt =====
-- IPv6 packets in and out at concrete inputs.
use py_tcp.Prelude.{ℕ, ◌≡◌, none, some, [], ◌∷◌, false, arith, ◌+◌, ◌<◌}
use mathlib.Core.Option.{some_inj}
use py_tcp.Ip4.{
  Fragment, Flows, defragment, update_flow, cleanup, flow_id, covered, sorted, header_len,
}
use py_tcp.Ip4.Output.{TxStatus, passed_to_tx_ring}
use py_tcp.Address.Ip6.{new_ip6_host}
use py_tcp.Ip6.{Ip6Stack, defragment_ip6}
use py_tcp.Ip6.Laws.{SameData, defragment_ip6-defragment}
use py_tcp.Ip6.Output.{Carried6, Ip6Tx, phtx_ip6}
use py_tcp.Ip6.Output.Laws.{Sends6, phtx_ip6-Sends6}

-- fe80::1/64
abbrev stack : Ip6Stack
stack = record {
  ip6_host =
      new_ip6_host 0xfe80_0000_0000_0000_0000_0000_0000_0001
        0xffff_ffff_ffff_ffff_0000_0000_0000_0000
      ∷ [];
  ip6_multicast = [];
}

abbrev forty_bytes : Carried6
forty_bytes = record {
  next = 17;
  len = 40;
  is_dad = false;
  is_mld2_report = false;
  assemble = λ s. some (1 ∷ 2 ∷ []);
}

abbrev passes : Ip6Tx → TxStatus
passes tx = passed_to_tx_ring

phtx_ip6-Sends6_example :
    Sends6 64 stack 0xfe80_0000_0000_0000_0000_0000_0000_0002
      (phtx_ip6 2 64 stack 3 0 0xfe80_0000_0000_0000_0000_0000_0000_0002 64 forty_bytes passes)
phtx_ip6-Sends6_example =
    phtx_ip6-Sends6 2 64 stack 3 0 0xfe80_0000_0000_0000_0000_0000_0000_0002 64 forty_bytes passes

abbrev only : Fragment
only = record {
  src = 1;
  dst = 2;
  id = 3;
  offset = 0;
  flag_mf = false;
  header = [];
  payload = 1 ∷ 2 ∷ [];
}

abbrev no_flows : Flows
no_flows k = none

only_short :
    (n : ℕ)
    → covered 0 (sorted (update_flow 0 only (cleanup 0 no_flows (flow_id only))).pieces) ≡ some n
    → header_len + n < 0x1_0000
unfolding covered sorted update_flow cleanup
only_short n e = omega (arith, some_inj.0 e)

defragment_ip6-defragment_example :
    SameData
      (update_flow 0 only (cleanup 0 no_flows (flow_id only))).header
      17
      (defragment 0 only no_flows).0
      (defragment_ip6 0 17 only no_flows).0
    × ((defragment 0 only no_flows).1 ≡ (defragment_ip6 0 17 only no_flows).1)
defragment_ip6-defragment_example = defragment_ip6-defragment 0 17 only no_flows only_short
