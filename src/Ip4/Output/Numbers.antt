-- ===== src/Ip4/Output/Numbers.antt =====
-- The identifications that `_phtx_ip4` (pytcp/protocols/ip4/phtx.py) gives to fragmented packets.
use py_tcp.Prelude.{
  ℕ, suc, ◌+◌, ◌≤◌, ◌<◌, ◌≡◌, ◌≢◌, refl, Option, none, some, List, [], ◌∷◌, true, false, ◌&&◌, ◌==◌,
  leb, ltb, length, Bool-cases, inl, inr, ap, ◌∙◌, arith,
}
use py_tcp.Address.Ip4.{is_unspecified}
use py_tcp.Packet.Ip4.{Ip4Header, header_asserts, is_known_proto, pseudo_sum}
use py_tcp.Ip4.{cut, data_mtu, header_len}
use py_tcp.Ip4.Output.{
  Ip4Stack, Src, unchanged, chosen, dropped, TxStatus, validate_src_ip4_address,
  validate_dst_ip4_address, Carried, Ip4Tx, Ip4Out, raised, returned, tx_header, new_fragments,
  fragments_sent, send_fragments, send_ip4, send_to, send_chosen, phtx_ip4,
}

-- A call of `_phtx_ip4`, with its way to Ethernet.
pub record Request : Type 0 where
  pub src : ℕ
  pub dst : ℕ
  pub ttl : ℕ
  pub carried : Carried
  pub ether : Ip4Tx → TxStatus

-- `self.ip4_id` after a call, which an exception leaves as it was changed so far.
abbrev pub next_id : Ip4Out → ℕ
next_id (raised id) = id
next_id (returned status txs id) = id

fragments_sent_id :
    (id : ℕ) (ether : Ip4Tx → TxStatus) (o : Option (List Ip4Tx))
    → next_id (fragments_sent id ether o) ≡ id
fragments_sent_id id ether none = refl
fragments_sent_id id ether (some txs) = refl

module _ (mtu : ℕ) (s : Ip4Stack) where
  abbrev pub request_out : Request → ℕ → Ip4Out
  request_out r id = phtx_ip4 mtu s id r.src r.dst r.ttl r.carried r.ether

  -- `self.ip4_id` after a sequence of calls.
  pub ids_after : List Request → ℕ → ℕ
  ids_after [] id = id
  ids_after (r ∷ rest) id = ids_after rest (next_id (request_out r id))

  -- A request with a valid source, destination, protocol and ttl, that is longer than the MTU.
  pub record IsLong (r : Request) : Type 0 where
    pub lives : 0 < r.ttl
    pub mortal : r.ttl < 256
    pub from : validate_src_ip4_address s r.src r.dst (Carried.is_dhcp r.carried) ≡ unchanged r.src
    pub there : r.dst ≢ 0
    pub known : is_known_proto (Carried.proto r.carried) ≡ true
    pub long : mtu < header_len + Carried.len r.carried
    pub first : ℕ
    pub others : List ℕ
    pub made :
        Carried.assemble r.carried
          (pseudo_sum r.src r.dst (Carried.proto r.carried) (Carried.len r.carried))
        ≡ some (first ∷ others)

  -- At least `n` of the requests are long.
  pub data Longs : ℕ → List Request → Type 0 where
    no_more : Longs 0 []
    one_long :
        {n : ℕ} {r : Request} {rest : List Request}
        → IsLong r
        → Longs n rest
        → Longs (suc n) (r ∷ rest)
    any_other : {n : ℕ} (r : Request) {rest : List Request} → Longs n rest → Longs n (r ∷ rest)

  send_fragments_ahead :
      (id : ℕ) (h : Ip4Header) (ether : Ip4Tx → TxStatus) (o : Option (List ℕ))
      → id ≤ next_id (send_fragments mtu id h ether o)
  send_fragments_ahead id h ether none = omega arith
  send_fragments_ahead id h ether (some payload) = elim (Bool-cases (data_mtu mtu == 0)) [
    | inl t ↦ rw t (omega arith)
    | inr f ↦
        rw
          (
            f,
            fragments_sent_id (id + 1) ether (
                new_fragments (record h { id = id + 1 })
                  (cut (length payload) (data_mtu mtu) 0 payload)),
          )
          (omega arith)
  ]

  send_ip4_ahead :
      (id src dst ttl : ℕ) (carried : Carried) (ether : Ip4Tx → TxStatus)
      → id ≤ next_id (send_ip4 mtu id (tx_header src dst ttl 0 carried.proto) carried ether)
  send_ip4_ahead id src dst ttl carried ether = elim (Bool-cases (is_known_proto carried.proto)) [
    | inr f ↦ rw f (omega arith)
    | inl t ↦ elim (Bool-cases (leb (20 + 0 + carried.len) mtu)) [
      | inl fits ↦ rw (t, fits) (omega arith)
      | inr long ↦
          rw (t, long)
            (send_fragments_ahead id (tx_header src dst ttl 0 carried.proto) ether
              (carried.assemble (pseudo_sum src dst carried.proto carried.len)))
    ]
  ]

  send_to_ahead :
      (id src dst ttl : ℕ) (carried : Carried) (ether : Ip4Tx → TxStatus)
      → id ≤ next_id (send_to mtu id src dst ttl carried ether)
  unfolding validate_dst_ip4_address
  send_to_ahead id src dst ttl carried ether = elim (Bool-cases (is_unspecified dst)) [
    | inl t ↦ rw t (omega arith)
    | inr f ↦ rw f (send_ip4_ahead id src dst ttl carried ether)
  ]

  send_chosen_ahead :
      (id dst ttl : ℕ) (carried : Carried) (ether : Ip4Tx → TxStatus) (c : Src)
      → id ≤ next_id (send_chosen mtu id dst ttl carried ether c)
  send_chosen_ahead id dst ttl carried ether (unchanged a) =
      send_to_ahead id a dst ttl carried ether
  send_chosen_ahead id dst ttl carried ether (chosen count a) =
      send_to_ahead id a dst ttl carried ether
  send_chosen_ahead id dst ttl carried ether (dropped count status) = omega arith

  -- No call lowers the identification.
  request_ahead : (r : Request) (id : ℕ) → id ≤ next_id (request_out r id)
  unfolding phtx_ip4
  request_ahead r id = elim (Bool-cases (ltb 0 r.ttl && ltb r.ttl 256)) [
    | inr f ↦ rw f (omega arith)
    | inl t ↦ rw t (
        send_chosen_ahead id r.dst r.ttl r.carried r.ether
          (validate_src_ip4_address s r.src r.dst (Carried.is_dhcp r.carried)))
  ]

  module _ (room : 28 ≤ mtu) (word : mtu ≤ 0xffff) where
    send_fragments-some :
        (id : ℕ) (h : Ip4Header) (ether : Ip4Tx → TxStatus) (payload : List ℕ)
        → send_fragments mtu id h ether (some payload)
          ≡ fragments_sent (id + 1) ether (
              new_fragments
                (record h { id = id + 1 })
                (cut (length payload) (data_mtu mtu) 0 payload))
    send_fragments-some id h ether payload =
        let some_size : (data_mtu mtu == 0) ≡ false = ground arith in rw some_size refl

    -- A long request takes the next identification, for all of its fragments.
    long_out :
        (r : Request) (id : ℕ) (l : IsLong r)
        → request_out r id
          ≡ fragments_sent (id + 1) r.ether (
              new_fragments
                (tx_header r.src r.dst r.ttl (id + 1) (Carried.proto r.carried))
                (cut (length (l.first ∷ l.others)) (data_mtu mtu) 0 (l.first ∷ l.others)))
    unfolding phtx_ip4 validate_dst_ip4_address
    long_out r id l =
        let lives : (ltb 0 r.ttl && ltb r.ttl 256) ≡ true = ground (arith, l.lives, l.mortal) in
        let there : is_unspecified r.dst ≡ false = ground (arith, l.there) in
        let exceeds : leb (20 + 0 + Carried.len r.carried) mtu ≡ false = ground (arith, l.long) in
        let h = tx_header r.src r.dst r.ttl 0 (Carried.proto r.carried) in
        let sent : request_out r id
            ≡ send_fragments mtu id h r.ether (
                Carried.assemble r.carried
                  (pseudo_sum r.src r.dst (Carried.proto r.carried) (Carried.len r.carried))) =
          rw (lives, l.from, there, l.known, exceeds) refl in
        sent
        ∙ (ap (send_fragments mtu id h r.ether) l.made
            ∙ send_fragments-some id h r.ether (l.first ∷ l.others))

    long_id : (r : Request) (id : ℕ) → IsLong r → next_id (request_out r id) ≡ id + 1
    long_id r id l = ap next_id (long_out r id l) ∙ fragments_sent_id (id + 1) r.ether _

    Longs-ids_after :
        (n : ℕ) (requests : List Request) (id : ℕ)
        → Longs n requests
        → id + n ≤ ids_after requests id
    unfolding ids_after
    Longs-ids_after _ _ id no_more = omega arith
    Longs-ids_after _ _ id (one_long {n} {r} {rest} l more) =
        omega (arith, long_id r id l, Longs-ids_after n rest (next_id (request_out r id)) more)
    Longs-ids_after n _ id (any_other r {rest} more) =
        omega (arith, request_ahead r id, Longs-ids_after n rest (next_id (request_out r id)) more)

    long-raises :
        (r : Request) (id : ℕ) → IsLong r → 0xffff ≤ id → request_out r id ≡ raised (id + 1)
    unfolding new_fragments cut
    long-raises r id l spent =
        let refused : header_asserts
              (tx_header r.src r.dst r.ttl (id + 1) (Carried.proto r.carried))
            ≡ false =
          ground arith in
        long_out r id l ∙ rw refused refl

-- The identification is counted up with every packet that is fragmented, is never set back, and the
-- assembler of fragments asserts that it has 16 bits. With an MTU from 28 to 65535, after any sequence
-- of calls of `_phtx_ip4` in which as many packets were valid and longer than the MTU as were left
-- up to 65535, whatever other packets were sent between them and however they ended, the next
-- such packet makes `_phtx_ip4` raise, and the count goes on.
pub phtx_ip4-raises :
    (mtu : ℕ) (s : Ip4Stack) (requests : List Request) (n id : ℕ) (r : Request)
    → 28 ≤ mtu
    → mtu ≤ 0xffff
    → Longs mtu s n requests
    → 0xffff ≤ id + n
    → IsLong mtu s r
    → phtx_ip4 mtu s (ids_after mtu s requests id) r.src r.dst r.ttl r.carried r.ether
      ≡ raised (ids_after mtu s requests id + 1)
phtx_ip4-raises mtu s requests n id r room word longs spent l =
    long-raises mtu s room word r (ids_after mtu s requests id) l
      (omega (arith, Longs-ids_after mtu s room word n requests id longs))
