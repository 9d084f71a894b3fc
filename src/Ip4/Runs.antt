-- ===== src/Ip4/Runs.antt =====
-- `_defragment_ip4_packet` (pytcp/protocols/ip4/phrx.py) on fragments of one packet among others.
use py_tcp.Prelude.{
  ℕ, ◌+◌, ◌<◌, ◌≡◌, refl, List, [], ◌∷◌, true, false, arith, length, All, Option, none, some,
  Bool-cases, inl, inr, ◌∙◌, sym, ltb,
}
use py_tcp.Ip4.{
  Fragment, Flow, FlowId, flow_id, same_flow, Flows, put, cleanup, flow_timeout, update_flow,
  with_header, with_data, with_length, whole_header, keep_flow, reassembled, reassemble, defragment,
  run, header_len,
}
use py_tcp.Ip4.Cut.{Starts}
use py_tcp.Ip4.Order.{AnyEntry}
use py_tcp.Ip4.Whole.{
  IsFragment, IsFlow, IsKnown, IsWhole, fresh-IsFlow, known-IsFlow, reassemble-IsWhole,
  reassemble_complete, put_same,
}

put_other :
    (k j : FlowId) (flow : Option Flow) (flows : Flows)
    → same_flow k j ≡ false
    → put k flow flows j ≡ flows j
unfolding put
put_other k j flow flows h = rw h refl

module _ (k j : FlowId) (flow : Flow) (flows : Flows) (other : same_flow k j ≡ false) where
  header_other :
      (bytes : List ℕ) (o : Option (List ℕ)) → (with_header k flows bytes o).1 j ≡ flows j
  header_other bytes none = put_other k j none flows other
  header_other bytes (some h) = put_other k j none flows other

  data_other : (n : ℕ) (o : Option (List ℕ)) → (with_data k flow flows n o).1 j ≡ flows j
  data_other n none = refl
  data_other n (some bytes) = header_other bytes (whole_header flow.header n)

  length_other : (o : Option ℕ) → (with_length k flow flows o).1 j ≡ flows j
  length_other none = refl
  length_other (some n) = data_other n _

  reassemble_other : (reassemble k flow flows).1 j ≡ flows j
  unfolding reassemble
  reassemble_other = length_other _

other_flow :
    (now : ℕ) (f : Fragment) (k : FlowId) (flows : Flows)
    → same_flow (flow_id f) k ≡ false
    → (defragment now f flows).1 k ≡ cleanup now flows k
unfolding defragment
other_flow now f k flows h =
    let kept = cleanup now flows in
    let flow = update_flow now f (kept (flow_id f)) in
    let stored = put (flow_id f) (some flow) kept in
    let same : stored k ≡ kept k = put_other (flow_id f) k (some flow) kept h in
    elim (Bool-cases flow.last) [
      | inl l ↦ rw l (reassemble_other (flow_id f) k flow stored h ∙ same)
      | inr w ↦ rw w same
    ]

-- Identifiers that agree are equal.
same_flow-eq : (a b : FlowId) → same_flow a b ≡ true → a ≡ b
same_flow-eq a b h =
    let src : a.src ≡ b.src = ground arith in
    let dst : a.dst ≡ b.dst = ground arith in
    let id : a.id ≡ b.id = ground arith in λ i. record { src = src i; dst = dst i; id = id i }

module _ (size : ℕ) (whole : List ℕ) (some_size : 0 < size)
    (short : header_len + length whole < 0x1_0000) where
  update_flow-IsFlow :
      (now : ℕ) (f : Fragment) (known : Option Flow)
      → IsFragment size whole f
      → IsKnown size whole known
      → IsFlow size whole (update_flow now f known)
  update_flow-IsFlow now f none i k = fresh-IsFlow size whole some_size now f i
  update_flow-IsFlow now f (some g) i k = known-IsFlow size whole some_size now f g i k

  kept-IsKnown :
      (now : ℕ) (flow : Option Flow)
      → IsKnown size whole flow
      → IsKnown size whole (keep_flow now flow)
  kept-IsKnown now none h = tt
  kept-IsKnown now (some flow) h = elim (Bool-cases (ltb flow.timestamp (now + flow_timeout))) [
    | inl t ↦ rw t h
    | inr f ↦ rw f tt
  ]

  cleanup-IsKnown :
      (now : ℕ) (k : FlowId) (flows : Flows)
      → IsKnown size whole (flows k)
      → IsKnown size whole (cleanup now flows k)
  unfolding cleanup
  cleanup-IsKnown now k flows h = kept-IsKnown now (flows k) h

  defragment-IsWhole :
      (now : ℕ) (f : Fragment) (flows : Flows)
      → IsFragment size whole f
      → IsKnown size whole (flows (flow_id f))
      → IsWhole size whole (defragment now f flows).0
        × IsKnown size whole ((defragment now f flows).1 (flow_id f))
  unfolding defragment
  defragment-IsWhole now f flows i k =
      let kept = cleanup now flows in
      let flow = update_flow now f (kept (flow_id f)) in
      let stored = put (flow_id f) (some flow) kept in
      let valid : IsFlow size whole flow =
        update_flow-IsFlow now f (kept (flow_id f)) i (cleanup-IsKnown now (flow_id f) flows k) in
      let held : stored (flow_id f) ≡ some flow = put_same (flow_id f) (some flow) kept in
      elim (Bool-cases flow.last) [
        | inl l ↦
            rw l
              (reassemble-IsWhole size whole some_size (flow_id f) flow stored short valid l held)
        | inr w ↦ rw w (tt, rw held valid)
      ]

  -- A step of the run keeps what is held of the packet, whatever arrives.
  defragment-IsKnown :
      (now : ℕ) (f : Fragment) (k : FlowId) (flows : Flows)
      → (same_flow (flow_id f) k ≡ true → IsFragment size whole f)
      → IsKnown size whole (flows k)
      → (same_flow (flow_id f) k ≡ true → IsWhole size whole (defragment now f flows).0)
        × IsKnown size whole ((defragment now f flows).1 k)
  defragment-IsKnown now f k flows i h = elim (Bool-cases (same_flow (flow_id f) k)) [
    | inl s ↦
        let e : k ≡ flow_id f = sym (same_flow-eq (flow_id f) k s) in
        let done : _ = defragment-IsWhole now f flows (i s) (rw⁻¹ e h) in
        ((λ _. done.0), rw e done.1)
    | inr n ↦ ((λ s. absurd (cc)), rw (other_flow now f k flows n) (cleanup-IsKnown now k flows h))
  ]

-- Fragments arrive in any order, repeated, late and mixed with those of other packets. If those with
-- the identifier `k` are cut from one packet of at most 65515 bytes at multiples of a positive size,
-- only the last with MF clear, and nothing else is held under `k`, then none of them raises an
-- exception, and whatever is put together under `k` has the packet's data.
pub run-IsWhole :
    (size : ℕ) (whole : List ℕ) (k : FlowId) (events : List (ℕ × Fragment)) (flows : Flows)
    → 0 < size
    → header_len + length whole < 0x1_0000
    → All (λ e. same_flow (flow_id e.1) k ≡ true → IsFragment size whole e.1) events
    → IsKnown size whole (flows k)
    → All (λ e. same_flow (flow_id e.0) k ≡ true → IsWhole size whole e.1) (run events flows)
unfolding run
run-IsWhole size whole k [] flows z short all h = tt
run-IsWhole size whole k ((now, f) ∷ rest) flows z short all h =
    let step : _ = defragment-IsKnown size whole z short now f k flows all.0 h in
    (step.0, run-IsWhole size whole k rest (defragment now f flows).1 z short all.1 step.1)

-- A fragment of a packet of 1 to 65515 bytes arrives, and what is held under its identifier is of this
-- packet. If, after the cleanup and with this fragment, every piece is held and the last one is marked
-- as such, then the packet is put together at once, and its flow is gone.
pub defragment_complete :
    (size : ℕ) (whole : List ℕ) (now : ℕ) (f : Fragment) (flows : Flows)
    → (some_size : 0 < size) → header_len + length whole < 0x1_0000
    → 0 < length whole
    → IsFragment size whole f
    → IsKnown size whole (flows (flow_id f))
    → (update_flow now f (cleanup now flows (flow_id f))).last ≡ true
    → ((o : ℕ)
        → Starts size whole some_size o
        → AnyEntry (λ p d. p ≡ o) (update_flow now f (cleanup now flows (flow_id f))).pieces)
    → (header : List ℕ) × ((defragment now f flows).0 ≡ reassembled header whole)
      × ((defragment now f flows).1 (flow_id f) ≡ none)
unfolding defragment
defragment_complete size whole now f flows z short full i h last all =
    let kept = cleanup now flows in
    let flow = update_flow now f (kept (flow_id f)) in
    let stored = put (flow_id f) (some flow) kept in
    let valid : IsFlow size whole flow =
      update_flow-IsFlow size whole z short now f (kept (flow_id f)) i
        (cleanup-IsKnown size whole z short now (flow_id f) flows h) in
    let (header, e) =
      reassemble_complete size whole z (flow_id f) flow stored short full valid last all in
    rw (last, e) (header, refl, put_same (flow_id f) none stored)
