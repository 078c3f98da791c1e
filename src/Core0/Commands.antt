-- ===== src/Core0/Commands.antt =====
-- firmware/src/core0/mod.rs and espnow.rs: a command frame reaches the queue of the Wasm task.
use sand_os.Base.{
  ℕ, ◌≤◌, ◌<◌, ◌≡◌, ◌⊎◌, refl, ap, inl, inr, arith, List, [], ◌∷◌, ◌++◌, false, if◌then◌else◌,
  length, ltb, Bool-cases, take,
}
use sand_os.Channel.{BoundedQueue}
use sand_os.Radio.{WasmCommand, enqueue, Link, dispatch}
use sand_os.Radio.Receive.{is_ota_command, handle_command-is_ota}
use sand_os.Radio.Update.{framed, handle_frame-framed}
use sand_os.Engine.{Interpreter}
use sand_os.Core0.{frame, queued, dropped, Core0, apply, apply_all, step}

dispatch-command :
    (c : ℕ) (payload : List ℕ) (now : ℕ) (s : Link)
    → is_ota_command c ≡ false
    → dispatch c payload now s ≡ (
      record { last_rx_ms = now; ota = s.ota },
      enqueue (record { cmd_id = c; payload = take 64 payload }) ∷ [],
    )
unfolding dispatch
dispatch-command c payload now s other = elim (handle_command-is_ota c payload s.ota) [
  | inl (ota, handled) ↦ cc
  | inr (plain, same) ↦ rw same refl
]

module _ {H : Type 0} (C : BoundedQueue WasmCommand 8) (W : Interpreter H)
    (guest_wasm : List ℕ) where
  abbrev command_of : ℕ → List ℕ → WasmCommand
  command_of c payload = record { cmd_id = c; payload = take 64 payload }

  -- A command frame renews the link and changes nothing of the receiver and the engine. With fewer
  -- than eight commands waiting its command goes to the end of the queue, with the first 64 bytes of
  -- the payload; with eight waiting it is dropped and the queue is as it was.
  pub step-command :
      (c : ℕ) (payload : List ℕ) (now : ℕ) (s : Core0 C W)
      → is_ota_command c ≡ false
      → length payload ≤ 246
      → let (s', hs) = step C W guest_wasm (frame (framed c payload) now) s in
        (s'.link ≡ record { last_rx_ms = now; ota = s.link.ota })
        × (s'.swap ≡ s.swap)
        × (s'.engine ≡ s.engine)
        × (((length (C.contents s.commands) < 8)
              × (hs ≡ queued (command_of c payload) ∷ [])
              × (C.contents s'.commands ≡ C.contents s.commands ++ (command_of c payload ∷ [])))
            ⊎ ((8 ≤ length (C.contents s.commands))
                × (hs ≡ dropped (command_of c payload) ∷ [])
                × (s'.commands ≡ s.commands)))
  unfolding step apply_all apply
  step-command c payload now s other fits =
      rw
        (handle_frame-framed c payload now s.link fits, dispatch-command c payload now s.link other)
        (refl, refl, refl, placed)
    where
      new : WasmCommand
      new = command_of c payload

      placed :
          ((length (C.contents s.commands) < 8)
            × (((if (C.try_send new s.commands).0 then queued new else dropped new) ∷ [])
                ≡ queued new ∷ [])
            × (C.contents (C.try_send new s.commands).1 ≡ C.contents s.commands ++ (new ∷ [])))
          ⊎ ((8 ≤ length (C.contents s.commands))
              × (((if (C.try_send new s.commands).0 then queued new else dropped new) ∷ [])
                  ≡ dropped new ∷ [])
              × ((C.try_send new s.commands).1 ≡ s.commands))
      placed = elim (Bool-cases (ltb (length (C.contents s.commands)) 8)) [
        | inl room ↦
            let (taken, grown) = C.try_send_room new s.commands (ground arith) in
            inl (ground arith, rw taken refl, grown)
        | inr full ↦
            let same = C.try_send_full new s.commands (ground arith) in
            inr (ground arith, rw (ap (λ x. x.0) same) refl, ap (λ x. x.1) same)
      ]
