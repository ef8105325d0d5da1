-- ===== src/LoadShare/SerialLoop.antt =====
-- The loop of 5.7kw_load_share-SERIAL.ino next to that of 5.7kw_load_share.ino.
use scv2_sketches.Prelude.{
  ℕ, ltb, ◌&&◌, Option, none, some, Bool, Bool-cases, inl, inr, true, false, List, [], ◌∷◌, ◌≡◌,
  refl, ap, ◌∙◌, ◌>>=◌, sym, Frame, arith,
}
use scv2_sketches.LoadShare.State.{Row, uno, State}
use scv2_sketches.LoadShare.Cycle.{
  start, receive, average, product, measured, measure, regulate, stop_above, cut_row, cutback,
  stop_below, decide, set_charging_amps, grant, announce, cycle,
}
use scv2_sketches.LoadShare.Loop.{read_commands, loop, control}
use scv2_sketches.LoadShare.Sketches.{load_share_5kw}
use scv2_sketches.LoadShare.Serial.{
  cutback_rows, serial_charging_amps, serial_amps, clear, hear, mean, draw, steer, halt_above,
  lower, halt_below, serial_watts, serial_beat, serial_loop,
}
use scv2_sketches.LoadShare.Division.{cycle_defined}
use scv2_sketches.LoadShare.Reach.{flag-read_commands}

-- The state of the other sketch: its flag is down.
abbrev pub down : State → State
down s = record s { flag_recv = false }

down_already : (s : State) → s.flag_recv ≡ false → s ≡ down s
down_already s e = ap (λ b. record s { flag_recv = b }) e

heard_same :
    (f : Frame) (s : State) → average (receive (f ∷ []) (start s)) ≡ down (mean (hear f (clear s)))
unfolding average receive start mean hear clear
heard_same f s = refl

steered_same : (s : State) → regulate load_share_5kw (measure uno (down s)) ≡ down (steer (draw s))
unfolding regulate measure measured product steer draw
steered_same s = refl

above_same : (s : State) → stop_above load_share_5kw (down s) ≡ down (halt_above s)
unfolding stop_above halt_above
above_same s = ground arith

lowered_same :
    (rows : List Row) (s : State) → cutback load_share_5kw rows (down s) ≡ down (lower rows s)
unfolding cutback cut_row lower
lowered_same [] s = refl
lowered_same ((volts, limit) ∷ rows) s =
    elim (Bool-cases (ltb volts s.volts && ltb limit s.watts)) [
      | inl e ↦ simp e (lowered_same rows (record s { max_station_watts = limit; watts = limit }))
      | inr e ↦ simp e (lowered_same rows s)
    ]

below_same : (s : State) → stop_below load_share_5kw (down s) ≡ down (halt_below s)
unfolding stop_below halt_below
below_same s = ground arith

decided_same :
    (f : Frame) (s : State) → decide load_share_5kw uno (f ∷ []) s ≡ down (serial_watts f s)
unfolding decide serial_watts
decided_same f s =
    ap
      (λ x. stop_below load_share_5kw (
        cutback load_share_5kw cutback_rows
          (stop_above load_share_5kw (regulate load_share_5kw (measure uno x)))))
      (heard_same f s)
    ∙ ap
        (λ x.
          stop_below load_share_5kw
            (cutback load_share_5kw cutback_rows (stop_above load_share_5kw x)))
        (steered_same (mean (hear f (clear s))))
    ∙ ap (λ x. stop_below load_share_5kw (cutback load_share_5kw cutback_rows x))
        (above_same (steer (draw (mean (hear f (clear s))))))
    ∙ ap (stop_below load_share_5kw)
        (lowered_same cutback_rows (halt_above (steer (draw (mean (hear f (clear s)))))))
    ∙ below_same (lower cutback_rows (halt_above (steer (draw (mean (hear f (clear s)))))))

grant_same : (s : State) → grant (down s) ≡ (do u ← serial_amps s; some (down u))
unfolding grant set_charging_amps serial_amps serial_charging_amps
grant_same s = ground arith

-- A cycle of the other sketch, when it is defined.
bind_result :
    (r : Option State) (f : State → State) {t : State}
    → (r >>= λ u. some (f u)) ≡ some t
    → (u : State) × (r ≡ some u) × (f u ≡ t)
bind_result none f e = absurd (cc e)
bind_result (some u) f e = (u, refl, cc e)

cycle_same :
    (f : Frame) (s : State) {t : State}
    → cycle load_share_5kw uno (f ∷ []) s ≡ some t
    → (u : State) × (serial_amps (serial_watts f s) ≡ some u) × (down (serial_beat u) ≡ t)
unfolding cycle announce serial_beat
cycle_same f s e =
    let (v, g, b) = bind_result (grant (decide load_share_5kw uno (f ∷ []) s)) announce e in
    let (u, h, d) =
      bind_result (serial_amps (serial_watts f s)) down
        (sym (grant_same (serial_watts f s)) ∙ ap grant (sym (decided_same f s)) ∙ g) in
    (u, h, ap announce d ∙ b)

-- The frames that a pass has for its cycle.
abbrev pub taken : Option Frame → List Frame
taken none = []
taken (some f) = f ∷ []

abbrev pub received : Option Frame → Bool
received none = false
received (some f) = true

-- A pass of the serial sketch, with a closed port, leaves the globals that a pass of
-- 5.7kw_load_share.ino leaves, the heartbeat that this one sends included, if the interrupt flag of
-- that sketch says whether a frame came in, and that frame is the only one that waits; its flag is
-- then down. Both passes are always defined.
pub serial_loop_refines :
    (targets : List ℕ) (f : Option Frame) (s : State)
    → s.flag_recv ≡ received f
    → (t : State) × (dump : List ℕ) × (serial_loop targets f false s ≡ some (t, dump, []))
      × (loop load_share_5kw uno (record { commands = targets; frames = taken f; serial = false }) s
          ≡ some (down t, record { line = []; sent = t.heartbeat }))
unfolding serial_loop loop control
serial_loop_refines targets none s h =
    let u = read_commands targets s in
    let e = flag-read_commands targets s ∙ h in
    (
      u,
      [],
      refl,
      simp e (ap (λ x. some (x, record { line = []; sent = u.heartbeat })) (down_already u e)),
    )
serial_loop_refines targets (some f) s h =
    let c = cycle_defined load_share_5kw uno (f ∷ []) (read_commands targets s) (omega arith) in
    let (u, e, d) = cycle_same f (read_commands targets s) c in
    let g = flag-read_commands targets s ∙ h in
    (
      serial_beat u,
      f.b0 ∷ f.b1 ∷ f.b2 ∷ f.b3 ∷ f.b4 ∷ f.b5 ∷ f.b6 ∷ f.b7 ∷ [],
      rw e refl,
      simp (g, c) (ap (λ (x : State). some (x, record { line = []; sent = x.heartbeat })) (sym d)),
    )
