-- ===== src/Radio/Task/Drains.antt =====
-- firmware/src/core0/espnow.rs: the packets of the telemetry queue reach the radio, in any interleaving
-- with the tasks that push to the queue.
use sand_os.Base.{
  ℕ, zero, suc, ◌*◌, ◌≤◌, ◌<◌, ◌≡◌, refl, sym, ◌⊎◌, inl, inr, arith, List, [], ◌∷◌, ◌++◌, map,
  length, drop, length-drop, ltb, Bool-cases,
}
use mathlib.Core.List.{Memᴰ, append_assoc, append-nil}
use mathlib.Core.List.Memᴰ as Member
use sand_os.Abi.Telemetry.{TelemetryPacket}
use sand_os.Abi.Telemetry.RoundTrip.{packet_size}
use sand_os.Abi.Command.{magic_0, magic_1}
use sand_os.Channel.{BoundedQueue}
use sand_os.Telemetry.{push_telemetry}
use sand_os.Radio.Send.{kind, body, telemetry_frame-layout}
use sand_os.Radio.Task.{
  Output, broadcast, effect, Wait, received, timeout, send_telemetry_packet, send_beacon, RadioTask,
  drain, turn,
}
use sand_os.Radio.{handle_frame}

-- The bytes that a packet takes in the air.
abbrev pub frame_of : TelemetryPacket → List ℕ
frame_of p = magic_0 ∷ magic_1 ∷ kind p ∷ packet_size p ∷ body p

-- A task pushes a packet, or the radio task makes a pass.
pub data Event : Type 0 where
  pushing : TelemetryPacket → Event
  passing : Wait → Event

-- The passes among the events.
abbrev pub passes : List Event → ℕ
passes [] = 0
passes (pushing p ∷ es) = passes es
passes (passing w ∷ es) = suc (passes es)

send_telemetry_packet_lem :
    (p : TelemetryPacket) → send_telemetry_packet p ≡ broadcast (frame_of p) ∷ []
unfolding send_telemetry_packet
send_telemetry_packet_lem p = rw (telemetry_frame-layout p, send_telemetry_packet) refl

module _ (T : BoundedQueue TelemetryPacket 32) where
  -- A packet behind `before` is sent by a drain of `n`, or moves `n` places to the front.
  abbrev Moved :
      ℕ
      → List TelemetryPacket
      → TelemetryPacket
      → List TelemetryPacket
      → List Output × T.Queue
      → Type 0
  Moved n before p after (sent, queue) =
      ((length before < n) × Memᴰ (broadcast (frame_of p)) sent)
      ⊎ ((n ≤ length before) × (T.contents queue ≡ drop n before ++ (p ∷ after)))

  drain-Moved :
      (n : ℕ) (before : List TelemetryPacket) (p : TelemetryPacket) (after : List TelemetryPacket)
      (q : T.Queue)
      → T.contents q ≡ before ++ (p ∷ after)
      → Moved n before p after (drain T n q)
  unfolding drain
  drain-Moved zero before p after q e = inr (omega arith, e)
  drain-Moved (suc n) [] p after q e =
      let (first, rest) = T.try_receive_some p after q e in
      rw (first, drain, send_telemetry_packet_lem p) (inl (omega arith, Member.head refl))
  drain-Moved (suc n) (b ∷ before) p after q e =
      let (first, rest) = T.try_receive_some b (before ++ (p ∷ after)) q e in
      rw (first, drain, send_telemetry_packet_lem b)
        (elim (drain-Moved n before p after (T.try_receive q).1 rest) [
          | inl (lt, m) ↦ inl (omega arith, Member.tail m)
          | inr (le, same) ↦ inr (omega arith, same)
        ])

  module _ (from_millis as_millis : ℕ → ℕ) where
    -- One event: the task afterwards, and what it handed out.
    unfoldable pub happen : Event → RadioTask T → RadioTask T × List Output
    happen (pushing p) s = (record s { queue = (push_telemetry T p s.queue).1 }, [])
    happen (passing w) s = turn T from_millis as_millis w s

    unfoldable pub run : List Event → RadioTask T → RadioTask T × List Output
    run [] s = (s, [])
    run (e ∷ es) s =
        let (next, first) = happen e s in let (end, later) = run es next in (end, first ++ later)

    answer : Wait → RadioTask T → List Output
    answer (received bytes now) s = map effect (handle_frame bytes (as_millis now) s.link).1
    answer (timeout now) s = send_beacon

    turn_lem :
        (w : Wait) (s : RadioTask T)
        → ((turn T from_millis as_millis w s).0.queue ≡ (drain T 8 s.queue).1)
          × ((turn T from_millis as_millis w s).1 ≡ (drain T 8 s.queue).0 ++ answer w s)
    unfolding turn answer
    turn_lem (received bytes now) s = (refl, refl)
    turn_lem (timeout now) s = (refl, refl)

    happen-sends :
        (w : Wait) (s : RadioTask T) (before : List TelemetryPacket) (p : TelemetryPacket)
        (after : List TelemetryPacket)
        → T.contents s.queue ≡ before ++ (p ∷ after)
        → Moved 8 before p after
            ((turn T from_millis as_millis w s).1, (turn T from_millis as_millis w s).0.queue)
    happen-sends w s before p after e =
        let (queue, sent) = turn_lem w s in
        rw (queue, sent)
          (elim (drain-Moved 8 before p after s.queue e) [
            | inl (lt, m) ↦ inl (lt, Member.append_left (answer w s) m)
            | inr r ↦ inr r
          ])

    push_contents :
        (new : TelemetryPacket) (q : T.Queue)
        → (tail : List TelemetryPacket) × (T.contents (push_telemetry T new q).1
            ≡ T.contents q ++ tail)
    unfolding push_telemetry
    push_contents new q = elim (Bool-cases (ltb (length (T.contents q)) 32)) [
      | inl room ↦ (new ∷ [], (T.try_send_room new q (ground arith)).1)
      | inr full ↦ ([], rw (T.try_send_full new q (ground arith)) (sym (append-nil (T.contents q))))
    ]

    -- A packet that is in the queue has been broadcast once the radio task has made enough passes to
    -- drain the packets before it and the packet itself, at eight a pass, whatever the waits of these
    -- passes end with and whatever other tasks push in between.
    pub run-broadcasts :
        (es : List Event) (s : RadioTask T) (before : List TelemetryPacket) (p : TelemetryPacket)
        (after : List TelemetryPacket)
        → T.contents s.queue ≡ before ++ (p ∷ after)
        → length before < 8 * passes es
        → Memᴰ (broadcast (frame_of p)) (run es s).1
    unfolding run happen
    run-broadcasts [] s before p after e h = absurd (omega arith)
    run-broadcasts (pushing new ∷ es) s before p after e h =
        let (tail, grown) = push_contents new s.queue in
        run-broadcasts es (record s { queue = (push_telemetry T new s.queue).1 }) before p
          (after ++ tail) (rw (grown, e) (append_assoc before (p ∷ after) tail)) h
    run-broadcasts (passing w ∷ es) s before p after e h =
        elim (happen-sends w s before p after e) [
          | inl (lt, m) ↦ Member.append_left (run es (turn T from_millis as_millis w s).0).1 m
          | inr (le, rest) ↦ Member.append_right (turn T from_millis as_millis w s).1 (
              run-broadcasts es (turn T from_millis as_millis w s).0 (drop 8 before) p after rest
                (omega (arith, length-drop 8 before)))
        ]
