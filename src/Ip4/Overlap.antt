-- ===== src/Ip4/Overlap.antt =====
-- `_defragment_ip4_packet` (pytcp/protocols/ip4/phrx.py) on fragments that overlap.
use py_tcp.Prelude.{
  ℕ, ◌+◌, ◌≤◌, ◌<◌, ◌≡◌, refl, List, [], ◌∷◌, true, false, arith, length, none, some, if◌then◌else◌,
  ◌∙◌, ap, replicate, length-replicate, Bool-cases, inl, inr,
}
use py_tcp.Dict.{insert}
use py_tcp.Ip4.{
  Fragment, Flow, FlowId, waiting, flow_id, Flows, cleanup, update_flow, sorted, insert_sorted,
  covered, fill, pack_into, Reassembly, struct_error, with_length, with_data, reassemble,
  defragment, put,
}

abbrev start_flow : List ℕ → ℕ → List ℕ → Flow
start_flow header time d = record {
  header = header;
  timestamp = time;
  last = false;
  pieces = (0, d) ∷ [];
}

overlap_pieces :
    (o : ℕ) (d e : List ℕ) → 0 < o → sorted (insert o e ((0, d) ∷ [])) ≡ (0, d) ∷ (o, e) ∷ []
unfolding sorted insert_sorted insert
overlap_pieces o d e h = ground (arith, sorted)

overlap_covered :
    (o : ℕ) (d e : List ℕ) → o ≤ length d → covered 0 ((0, d) ∷ (o, e) ∷ []) ≡ some (o + length e)
unfolding covered
overlap_covered o d e h = ground arith

overlap_fill :
    (n : ℕ) (d : List ℕ) (rest : List (ℕ × List ℕ))
    → n < length d
    → fill ((0, d) ∷ rest) (replicate n 0) ≡ none
unfolding fill pack_into
overlap_fill n d rest h = ground (arith, length-replicate {A = ℕ} n 0)

overlap_reassemble :
    (k : FlowId) (flow : Flow) (flows : Flows) (o : ℕ) (d e : List ℕ)
    → flow.pieces ≡ insert o e ((0, d) ∷ [])
    → 0 < o
    → o + length e < length d
    → (reassemble k flow flows).0 ≡ struct_error
unfolding reassemble
overlap_reassemble k flow flows o d e held inside ends =
    let in_order : sorted flow.pieces ≡ (0, d) ∷ (o, e) ∷ [] =
      ap sorted held ∙ overlap_pieces o d e inside in
    let n = o + length e in
    ap (λ es. (with_length k flow flows (covered 0 es)).0) in_order
    ∙ (ap (λ r. (with_length k flow flows r).0) (overlap_covered o d e (omega arith))
        ∙ (ap (λ es. (with_data k flow flows n (fill es (replicate n 0))).0) in_order
            ∙ ap (λ x. (with_data k flow flows n x).0) (overlap_fill n d ((o, e) ∷ []) ends)))

-- The flow behind the last fragment.
abbrev ended_flow : List ℕ → ℕ → List ℕ → Fragment → Flow
ended_flow header time d f = record {
  header = header;
  timestamp = time;
  last = true;
  pieces = insert f.offset f.payload ((0, d) ∷ []);
}

update_start :
    (now : ℕ) (header : List ℕ) (time : ℕ) (d : List ℕ) (f : Fragment)
    → f.flag_mf ≡ false
    → update_flow now f (some (start_flow header time d)) ≡ ended_flow header time d f
unfolding update_flow
update_start now header time d f mf = rw mf refl

-- What `defragment` does with the flow that it has updated.
answer : FlowId → Flow → Flows → Reassembly
answer k flow kept = if flow.last then (reassemble k flow (put k (some flow) kept)).0 else waiting

defragment-answer :
    (now : ℕ) (f : Fragment) (flows : Flows)
    → (defragment now f flows).0
      ≡ answer (flow_id f) (update_flow now f (cleanup now flows (flow_id f))) (cleanup now flows)
unfolding defragment answer
defragment-answer now f flows =
    elim (Bool-cases (update_flow now f (cleanup now flows (flow_id f))).last) [
      | inl t ↦ rw t refl
      | inr e ↦ rw e refl
    ]

-- A flow holds the start of a packet. A fragment without MF that lies inside of that start, and ends
-- before it, makes the reassembly raise struct.error: the buffer ends with the fragment of the highest
-- offset, and the start does not fit in it.
pub overlap-raises :
    (now : ℕ) (header : List ℕ) (time : ℕ) (d : List ℕ) (f : Fragment) (flows : Flows)
    → cleanup now flows (flow_id f) ≡ some (start_flow header time d)
    → f.flag_mf ≡ false
    → 0 < f.offset
    → f.offset + length f.payload < length d
    → (defragment now f flows).0 ≡ struct_error
unfolding answer
overlap-raises now header time d f flows known mf inside ends =
    let kept = cleanup now flows in
    let flow = ended_flow header time d f in
    defragment-answer now f flows
    ∙ (ap (λ g. answer (flow_id f) g kept)
          (ap (update_flow now f) known ∙ update_start now header time d f mf)
        ∙ overlap_reassemble (flow_id f) flow (put (flow_id f) (some flow) kept) f.offset d
            f.payload refl inside ends)
