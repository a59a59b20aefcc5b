-- ===== src/Link/Pump/Wire.antt =====
-- Partial writes: what reaches the wire is whole lines, and the start of the last one.
use bosun_midi_captain.Base.{
  ℕ, ◌≡◌, refl, sym, ap, ◌∙◌, String, Option, none, some, List, [], ◌∷◌, ◌++◌, arith, Bool-cases,
  inl, inr, take, drop, take-drop, append-nil, append_assoc,
}
use bosun_midi_captain.Json.{Json}
use bosun_midi_captain.Link.Pump.{
  Pump, Pass, Stop, runs, write_only_stalled, silent, is_empty, next_line, begin_line, fill_pending,
  write_pending, receive, read_or_stop, pump_pass, arrive, opened, pump,
}

-- The state in which a pass ends, whether the loop goes on or not.
abbrev pub state_of : Stop → Pump
state_of (runs p) = p
state_of (write_only_stalled p) = p
state_of (silent p) = p

module _ (encode : String → List ℕ) where
  -- The bytes of some lines, one after the other.
  abbrev pub encode_all : List String → List ℕ
  encode_all [] = []
  encode_all (line ∷ lines) = encode line ++ encode_all lines

  -- What is on the wire and what is still pending are the lines that were begun, whole and in order.
  abbrev pub IsWhole : Pump → Type 0
  IsWhole p = p.wire ++ p.pending ≡ encode_all p.begun

  encode_all-append :
      (xs : List String) (line : String)
      → encode_all (xs ++ line ∷ []) ≡ encode_all xs ++ encode line
  encode_all-append [] line = append-nil (encode line)
  encode_all-append (x ∷ xs) line =
      ap (λ rest. encode x ++ rest) (encode_all-append xs line)
      ∙ sym (append_assoc (encode x) (encode_all xs) (encode line))

  begin_line-IsWhole :
      (next : Option String) (p : Pump)
      → p.pending ≡ []
      → IsWhole p
      → IsWhole (begin_line encode next p)
  unfolding begin_line
  begin_line-IsWhole none p e h = h
  begin_line-IsWhole (some line) p e h =
      let whole : p.wire ≡ encode_all p.begun =
        sym (append-nil p.wire) ∙ ap (λ rest. p.wire ++ rest) (sym e) ∙ h in
      ap (λ w. w ++ encode line) whole ∙ sym (encode_all-append p.begun line)

  fill_pending-IsWhole : (now : ℕ) (p : Pump) → IsWhole p → IsWhole (fill_pending encode now p)
  unfolding fill_pending
  fill_pending-IsWhole now p h = elim (Bool-cases (is_empty p.pending)) [
    | inl done ↦
        let e : p.pending ≡ [] = ground (arith, done) in
        simp done (begin_line-IsWhole (next_line now p.tx p) p e h)
    | inr more ↦ simp more h
  ]

  write_pending-IsWhole :
      (accepted at : ℕ) (p : Pump) → IsWhole p → IsWhole (write_pending accepted at p)
  unfolding write_pending
  write_pending-IsWhole accepted at p h = elim (Bool-cases (is_empty p.pending)) [
    | inl done ↦ simp done h
    | inr more ↦ simp more (
        append_assoc p.wire (take accepted p.pending) (drop accepted p.pending)
        ∙ ap (λ rest. p.wire ++ rest) (take-drop accepted p.pending)
        ∙ h)
  ]

  module _ ⦃json : Json⦄ (decode : List ℕ → String) where
    receive-IsWhole :
        (chunk : List ℕ) (at : ℕ) (p : Pump) → IsWhole p → IsWhole (receive decode chunk at p)
    unfolding receive
    receive-IsWhole [] at p h = h
    receive-IsWhole (b ∷ bs) at p h = h

    read_or_stop-IsWhole :
        (chunk : List ℕ) (at : ℕ) (p : Pump)
        → IsWhole p
        → IsWhole (state_of (read_or_stop decode chunk at p))
    unfolding read_or_stop
    read_or_stop-IsWhole (b ∷ bs) at p h = receive-IsWhole (b ∷ bs) at p h
    read_or_stop-IsWhole [] at p h = ground (arith, h)

    pump_pass-IsWhole :
        (s : Pass) (p : Pump) → IsWhole p → IsWhole (state_of (pump_pass decode encode s p))
    unfolding pump_pass arrive
    pump_pass-IsWhole s p h = read_or_stop-IsWhole s.chunk s.read_at _ (
        write_pending-IsWhole s.accepted s.written_at _ (
          fill_pending-IsWhole s.now _
            (receive-IsWhole s.available s.available_at (arrive s.arrived p) h)))

    pump-IsWhole :
        (passes : List Pass) (stop : Stop)
        → IsWhole (state_of stop)
        → IsWhole (state_of (pump decode encode passes stop))
    unfolding pump
    pump-IsWhole [] stop h = h
    pump-IsWhole (s ∷ rest) (runs p) h =
        pump-IsWhole rest (pump_pass decode encode s p) (pump_pass-IsWhole s p h)
    pump-IsWhole (s ∷ rest) (write_only_stalled p) h = h
    pump-IsWhole (s ∷ rest) (silent p) h = h

    -- However the transport cuts its writes, at every point of a session the bytes that it took
    -- followed by those still pending are exactly the bytes of the lines that were begun, one after
    -- the other: no byte is repeated, skipped or mixed into another line.
    pub pump-wire :
        (passes : List Pass) (now : ℕ) (tx : List String) (rx : List ℕ)
        → IsWhole (state_of (pump decode encode passes (runs (opened now tx rx))))
    unfolding opened
    pump-wire passes now tx rx = pump-IsWhole passes (runs (opened now tx rx)) refl
