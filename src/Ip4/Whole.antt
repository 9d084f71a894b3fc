-- ===== src/Ip4/Whole.antt =====
-- What `_defragment_ip4_packet` makes of the fragments of one packet.
use py_tcp.Prelude.{
  ℕ, ◌+◌, ◌<◌, ◌≡◌, refl, List, true, false, ap, sym, ◌∙◌, ◌⊎◌, inl, inr, arith, length, Option,
  none, some, Bool-cases,
}
use py_tcp.Dict.{insert}
use py_tcp.Dict.Laws.{Entries, Entries-insert}
use py_tcp.Ip4.{
  Fragment, Flow, FlowId, Flows, put, update_flow, sorted, covered, fill, with_header, with_data,
  with_length, whole_header, Reassembly, waiting, reassembled, struct_error, reassemble, header_len,
}
use py_tcp.Ip4.Cut.{
  Piece, Piece-length, Piece-inside, Piece-slice, Piece-apart, Starts, Piece-Starts,
}
use py_tcp.Ip4.Order.{
  Ascending, Distinct, AnyEntry, sorted-Entries, sorted-AnyEntry, insert-AnyEntry, insert-Distinct,
  sorted-Ascending,
}
use py_tcp.Ip4.Pieces.{covered-fill, covered-end, covered_complete, zeros, all_of, no_shift}

Option-cases : {A : Type 0} (o : Option A) → (o ≡ none) ⊎ ((a : A) × (o ≡ some a))
Option-cases none = inl refl
Option-cases (some a) = inr (a, refl)

whole_header-some :
    (header : List ℕ) (n : ℕ)
    → header_len + n < 0x1_0000
    → (h : List ℕ) × (whole_header header n ≡ some h)
unfolding whole_header
whole_header-some header n short = elim (Option-cases (whole_header header n)) [
  | inl e ↦ absurd (ground (arith, e))
  | inr h ↦ h
]

pub put_same : (k : FlowId) (flow : Option Flow) (flows : Flows) → put k flow flows k ≡ flow
unfolding put
put_same k flow flows = ground arith

module _ (size : ℕ) (whole : List ℕ) where
  abbrev pub AtEnd : ℕ → List ℕ → Type 0
  AtEnd o d = o + length d ≡ length whole

  abbrev pub LastPiece : ℕ → List ℕ → Type 0
  LastPiece o d = Piece size whole o d × AtEnd o d

  -- A fragment of the packet: one of its pieces, and MF is clear at the end only.
  pub record IsFragment (f : Fragment) : Type 0 where
    pub piece : Piece size whole f.offset f.payload
    pub ends : f.flag_mf ≡ false → AtEnd f.offset f.payload

  -- A flow holds pieces of the packet; the last one is there if the flow says so.
  pub record IsFlow (flow : Flow) : Type 0 where
    pub distinct : Distinct flow.pieces
    pub held : Entries (Piece size whole) flow.pieces
    pub ended : flow.last ≡ true → AnyEntry LastPiece flow.pieces

  abbrev pub IsKnown : Option Flow → Type 0
  IsKnown none = Unit
  IsKnown (some flow) = IsFlow flow

  -- No exception, and no other data than the packet's.
  abbrev pub IsWhole : Reassembly → Type 0
  IsWhole waiting = Unit
  IsWhole (reassembled header bytes) = bytes ≡ whole
  IsWhole struct_error = ⊥

  module _ (some_size : 0 < size) where
    pub fresh-IsFlow : (now : ℕ) (f : Fragment) → IsFragment f → IsFlow (update_flow now f none)
    unfolding update_flow
    fresh-IsFlow now f i = elim (Bool-cases f.flag_mf) [
      | inl t ↦ rw t (record { distinct = (tt, tt); held = (i.piece, tt); ended = λ e. cc })
      | inr e ↦ rw e (record {
        distinct = (tt, tt);
        held = (i.piece, tt);
        ended = λ _. inl (i.piece, i.ends e);
      })
    ]

    -- A piece in the place of another one at its offset is the last one if that was.
    replace_last : (o : ℕ) (d e : List ℕ) → Piece size whole o d → LastPiece o e → LastPiece o d
    replace_last o d e p last = (
      p,
      omega (
        arith,
        last.1,
        Piece-length size whole some_size o d p,
        Piece-length size whole some_size o e last.0,
      ),
    )

    insert_last :
        (f : Fragment) (g : Flow)
        → IsFragment f
        → LastPiece f.offset f.payload ⊎ AnyEntry LastPiece g.pieces
        → AnyEntry LastPiece (insert f.offset f.payload g.pieces)
    insert_last f g i =
        insert-AnyEntry LastPiece f.offset f.payload g.pieces
          (λ w. replace_last f.offset f.payload w i.piece)

    pub known-IsFlow :
        (now : ℕ) (f : Fragment) (g : Flow)
        → IsFragment f
        → IsFlow g
        → IsFlow (update_flow now f (some g))
    unfolding update_flow
    known-IsFlow now f g i k =
        let distinct : _ = insert-Distinct f.offset f.payload g.pieces k.distinct in
        let held : _ =
          Entries-insert (Piece size whole) f.offset f.payload g.pieces i.piece k.held in
        elim (Bool-cases f.flag_mf) [
          | inl t ↦ rw t (record {
            distinct = distinct;
            held = held;
            ended = λ l. insert_last f g i (inr (k.ended l));
          })
          | inr e ↦ rw e (record {
            distinct = distinct;
            held = held;
            ended = λ _. insert_last f g i (inl (i.piece, i.ends e));
          })
        ]

    sorted-whole :
        (flow : Flow) (r : ℕ)
        → IsFlow flow
        → flow.last ≡ true
        → covered 0 (sorted flow.pieces) ≡ some r
        → (r ≡ length whole) × (fill (sorted flow.pieces) (zeros r) ≡ some whole)
    sorted-whole flow r k l c =
        let es = sorted flow.pieces in
        let held : Entries (Piece size whole) es =
          sorted-Entries (Piece size whole) flow.pieces k.held in
        let up : Ascending 0 es = sorted-Ascending flow.pieces k.distinct in
        let last : AnyEntry LastPiece es = sorted-AnyEntry LastPiece flow.pieces (k.ended l) in
        let full : r ≡ length whole =
          covered-end whole (Piece size whole) (Piece-inside size whole some_size)
            (Piece-slice size whole some_size) (Piece-apart size whole some_size) 0 r es held up
            (omega arith) last c in
        let filled : _ =
          covered-fill whole (Piece size whole) (Piece-inside size whole some_size)
            (Piece-slice size whole some_size) (Piece-apart size whole some_size) 0 r es held up
            (omega arith) c in
        (
          full,
          ap (fill es) (sym (no_shift r))
              ∙ (filled.2 r (omega arith) ∙ ap some (all_of r whole full)),
        )

    -- Without a gap, the packet is put together, and the flow goes.
    reassemble-covered :
        (k : FlowId) (flow : Flow) (flows : Flows) (r : ℕ)
        → header_len + length whole < 0x1_0000
        → IsFlow flow
        → flow.last ≡ true
        → covered 0 (sorted flow.pieces) ≡ some r
        → (header : List ℕ) × (reassemble k flow flows
            ≡ (reassembled header whole, put k none flows))
    unfolding reassemble
    reassemble-covered k flow flows r short i l c =
        let (full, filled) = sorted-whole flow r i l c in
        let (header, written) = whole_header-some flow.header r (rw full short) in
        (
          header,
          ap (with_length k flow flows) c
              ∙ (ap (with_data k flow flows r) filled ∙ ap (with_header k flows whole) written),
        )

    reassemble_waiting :
        (k : FlowId) (flow : Flow) (flows : Flows)
        → covered 0 (sorted flow.pieces) ≡ none
        → reassemble k flow flows ≡ (waiting, flows)
    unfolding reassemble
    reassemble_waiting k flow flows c = ap (with_length k flow flows) c

    pub reassemble-IsWhole :
        (k : FlowId) (flow : Flow) (flows : Flows)
        → header_len + length whole < 0x1_0000
        → IsFlow flow
        → flow.last ≡ true
        → flows k ≡ some flow
        → IsWhole (reassemble k flow flows).0 × IsKnown ((reassemble k flow flows).1 k)
    reassemble-IsWhole k flow flows short i l at =
        elim (Option-cases (covered 0 (sorted flow.pieces))) [
          | inl c ↦ rw (reassemble_waiting k flow flows c) (tt, rw at i)
          | inr (r, c) ↦
              let (header, e) = reassemble-covered k flow flows r short i l c in
              rw e (refl, rw (put_same k none flows) tt)
        ]

    -- Every piece is there: the packet is put together.
    pub reassemble_complete :
        (k : FlowId) (flow : Flow) (flows : Flows)
        → header_len + length whole < 0x1_0000
        → 0 < length whole
        → IsFlow flow
        → flow.last ≡ true
        → ((o : ℕ) → Starts size whole some_size o → AnyEntry (λ p d. p ≡ o) flow.pieces)
        → (header : List ℕ) × (reassemble k flow flows
            ≡ (reassembled header whole, put k none flows))
    reassemble_complete k flow flows short full i l all =
        let es = sorted flow.pieces in
        let (r, c) =
          covered_complete whole (Piece size whole) (Piece-inside size whole some_size)
            (Piece-slice size whole some_size) (Piece-apart size whole some_size)
            (Starts size whole some_size) (Piece-Starts size whole some_size) 0 es
            (sorted-Entries (Piece size whole) flow.pieces i.held)
            (sorted-Ascending flow.pieces i.distinct)
            (inr (record { index = 0; at = omega arith; below = full }))
            (λ o _ s. sorted-AnyEntry (λ p d. p ≡ o) flow.pieces (all o s)) in
        reassemble-covered k flow flows r short i l c
