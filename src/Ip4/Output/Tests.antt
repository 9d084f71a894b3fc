-- ===== src/Ip4/Output/Tests.antt =====
-- Sending of IPv4 packets at concrete inputs.
use py_tcp.Prelude.{◌+◌, ◌≡◌, refl, some, [], ◌∷◌, false, arith}
use py_tcp.Address.Ip4.{new_ip4_host}
use py_tcp.Ip4.Output.{
  Ip4Stack, TxStatus, passed_to_tx_ring, Carried, Ip4Tx, raised, phtx_ip4, validate_src_ip4_address,
  unchanged, member,
}
use py_tcp.Ip4.Output.Laws.{Sends, phtx_ip4-Sends}
use py_tcp.Ip4.Output.Numbers.{
  Request, ids_after, IsLong, no_more, one_long, any_other, phtx_ip4-raises,
}

-- 10.0.0.1/24
abbrev stack : Ip4Stack
stack = record {
  ip4_host = new_ip4_host 0x0a00_0001 0xffff_ff00 ∷ [];
  ip4_multicast = 0xe000_0001 ∷ [];
}

abbrev forty_bytes : Carried
forty_bytes = record { proto = 17; len = 40; is_dhcp = false; assemble = λ s. some (1 ∷ 2 ∷ []) }

abbrev passes : Ip4Tx → TxStatus
passes tx = passed_to_tx_ring

phtx_ip4-Sends_example :
    Sends 48 stack false 0x0a00_0002 (phtx_ip4 48 stack 3 0 0x0a00_0002 64 forty_bytes passes)
phtx_ip4-Sends_example = phtx_ip4-Sends 48 stack 3 0 0x0a00_0002 64 forty_bytes passes

stack_source : validate_src_ip4_address stack 0x0a00_0001 0x0a00_0002 false ≡ unchanged 0x0a00_0001
unfolding validate_src_ip4_address member new_ip4_host
stack_source = refl

-- Too long for an MTU of 48, and a packet that fits between two of it.
abbrev long_request : Request
long_request = record {
  src = 0x0a00_0001;
  dst = 0x0a00_0002;
  ttl = 64;
  carried = forty_bytes;
  ether = passes;
}

abbrev short_request : Request
short_request = record long_request { carried = record forty_bytes { len = 2 } }

long_request-IsLong : IsLong 48 stack long_request
long_request-IsLong = record {
  lives = omega arith;
  mortal = omega arith;
  from = stack_source;
  there = omega arith;
  known = refl;
  long = omega arith;
  first = 1;
  others = 2 ∷ [];
  made = refl;
}

phtx_ip4-raises_example :
    phtx_ip4 48 stack
      (ids_after 48 stack (long_request ∷ short_request ∷ []) 0xfffe)
      0x0a00_0001
      0x0a00_0002
      64
      forty_bytes
      passes
    ≡ raised (ids_after 48 stack (long_request ∷ short_request ∷ []) 0xfffe + 1)
phtx_ip4-raises_example =
    phtx_ip4-raises 48 stack (long_request ∷ short_request ∷ []) 1 0xfffe long_request (omega arith)
      (omega arith) (one_long long_request-IsLong (any_other short_request no_more)) (omega arith)
      long_request-IsLong
