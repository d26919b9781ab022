-- ===== src/Dock/Pad/Stops.antt =====
-- The camera is told to stop when the mouse lets go.
use obs_zcamera.Prelude.{
  ℕ, ◌≡◌, refl, sym, ap, subst, ◌∙◌, Bool, true, false, not, Option, none, some, List, [], ◌∷◌, ltb,
  if◌then◌else◌, Bool-cases, inl, inr, true≢false,
}
use obs_zcamera.Prelude.Int.{ℤ}
use obs_zcamera.Dock.Pad.{
  JoystickMode, idle, sector, free_drag, Command, ptz_move, ptz_stop, Pad, Geometry, tell, move,
  move_in_direction, stop_moving, press_sector, mouse_press, is_active, move_sector, mouse_move,
  mouse_release, Event, presses, moves, releases, handle, run,
}

-- The camera was told nothing, or to stop last.
abbrev pub still : List Command → Bool
still [] = true
still (ptz_stop ∷ sent) = true
still (ptz_move pan tilt ∷ sent) = false

-- Without a client nothing moves; a pad that nobody holds, or whose pointer is off the sectors, stands still.
abbrev Rests : JoystickMode → Option ℕ → List Command → Type 0
Rests idle active sent = still sent ≡ true
Rests sector none sent = still sent ≡ true
Rests sector (some i) sent = still sent ≡ still sent
Rests free_drag active sent = still sent ≡ still sent

unfoldable IsResting : Pad → Type 0
IsResting pad =
    (pad.has_client ≡ false → still pad.sent ≡ true) × Rests pad.mode pad.active pad.sent

still-when : (m : JoystickMode) (sent : List Command) → still sent ≡ true → Rests m none sent
still-when idle sent e = e
still-when sector sent e = e
still-when free_drag sent e = refl

pick-IsResting :
    (b : Bool) (x y : Pad)
    → (b ≡ true → IsResting x)
    → (b ≡ false → IsResting y)
    → IsResting (if b then x else y)
pick-IsResting true x y h k = h refl
pick-IsResting false x y h k = k refl

told-IsResting :
    (c : Command) (pad : Pad)
    → pad.has_client ≡ true
    → Rests pad.mode pad.active (c ∷ pad.sent)
    → IsResting (record pad { sent = c ∷ pad.sent })
unfolding IsResting
told-IsResting c pad e h = (λ f. absurd (true≢false (sym e ∙ f)), h)

kept-IsResting :
    (pad : Pad)
    → (pad.has_client ≡ false → still pad.sent ≡ true)
    → Rests pad.mode pad.active pad.sent
    → IsResting pad
unfolding IsResting
kept-IsResting pad c h = (c, h)

move-IsResting :
    (speeds : ℤ × ℤ) (pad : Pad)
    → (pad.has_client ≡ false → still pad.sent ≡ true)
    → ((s : List Command) → Rests pad.mode pad.active s)
    → IsResting (move speeds pad)
unfolding move tell
move-IsResting (pan, tilt) pad c h =
    pick-IsResting pad.has_client (record pad { sent = ptz_move pan tilt ∷ pad.sent }) pad
      (λ e. told-IsResting (ptz_move pan tilt) pad e (h (ptz_move pan tilt ∷ pad.sent)))
      (λ e. kept-IsResting pad c (h pad.sent))

move_in_direction-IsResting :
    (i : ℕ) (pad : Pad)
    → (pad.has_client ≡ false → still pad.sent ≡ true)
    → ((s : List Command) → Rests pad.mode pad.active s)
    → IsResting (move_in_direction i pad)
unfolding move_in_direction
move_in_direction-IsResting i pad c h =
    pick-IsResting (ltb 7 i) pad _ (λ e. kept-IsResting pad c (h pad.sent))
      (λ e. move-IsResting _ pad c h)

sent-stop_moving :
    (pad : Pad)
    → (pad.has_client ≡ false → still pad.sent ≡ true)
    → still (stop_moving pad).sent ≡ true
unfolding stop_moving tell
sent-stop_moving pad c = elim (Bool-cases pad.has_client) [
  | inl e ↦ ap (λ b. still (if b then record pad { sent = ptz_stop ∷ pad.sent } else pad).sent) e
  | inr e ↦
      ap (λ b. still (if b then record pad { sent = ptz_stop ∷ pad.sent } else pad).sent) e ∙ c e
]

-- After a stop the pad may be in any state.
stopped-IsResting :
    (m : JoystickMode) (pad : Pad)
    → (pad.has_client ≡ false → still pad.sent ≡ true)
    → IsResting (record (stop_moving pad) { mode = m; active = none })
stopped-IsResting m pad c =
    kept-IsResting (record (stop_moving pad) { mode = m; active = none })
      (λ e. sent-stop_moving pad c) (still-when m (stop_moving pad).sent (sent-stop_moving pad c))

client-still : (pad : Pad) → IsResting pad → pad.has_client ≡ false → still pad.sent ≡ true
unfolding IsResting
client-still pad r = r.0

mode-stop_moving : (pad : Pad) → (stop_moving pad).mode ≡ pad.mode
unfolding stop_moving tell
mode-stop_moving pad = elim (Bool-cases pad.has_client) [ inl e ↦ rw e refl | inr e ↦ rw e refl ]

module _ {P : Type 0} (g : Geometry P) where
  press_sector-IsResting :
      (o : Option ℕ) (pad : Pad) → IsResting pad → IsResting (press_sector g o pad)
  unfolding press_sector
  press_sector-IsResting none pad r = r
  press_sector-IsResting (some i) pad r =
      move_in_direction-IsResting i (record pad { mode = sector; active = some i })
        (client-still pad r) (λ s. refl)

  mouse_press-IsResting :
      (left : Bool) (point : P) (m : JoystickMode) (pad : Pad)
      → IsResting pad
      → IsResting (elim m [
        | idle ↦
            if not left
            then pad
            else (if g.in_center point
                then record pad { mode = free_drag }
                else press_sector g (g.direction_at point) pad)
        | sector ↦ pad
        | free_drag ↦ pad
      ])
  mouse_press-IsResting left point idle pad r =
      pick-IsResting (not left) pad _ (λ e. r)
        (λ e.
          pick-IsResting (g.in_center point) (record pad { mode = free_drag })
            (press_sector g (g.direction_at point) pad)
            (λ f. kept-IsResting (record pad { mode = free_drag }) (client-still pad r) refl)
            (λ f. press_sector-IsResting (g.direction_at point) pad r))
  mouse_press-IsResting left point sector pad r = r
  mouse_press-IsResting left point free_drag pad r = r

  leave-IsResting :
      (o : Option ℕ) (pad : Pad)
      → pad.mode ≡ sector
      → IsResting pad
      → IsResting (elim o [ some i ↦ record (stop_moving pad) { active = none } | none ↦ pad ])
  leave-IsResting none pad e r = r
  leave-IsResting (some i) pad e r =
      stopped-IsResting (stop_moving pad).mode pad (client-still pad r)

  move_sector-IsResting :
      (o : Option ℕ) (pad : Pad)
      → pad.mode ≡ sector
      → IsResting pad
      → IsResting (move_sector g o pad)
  unfolding move_sector
  move_sector-IsResting none pad e r = leave-IsResting pad.active pad e r
  move_sector-IsResting (some i) pad e r =
      pick-IsResting (is_active g pad.active i) pad _ (λ f. r)
        (λ f.
          move_in_direction-IsResting i (record pad { active = some i }) (client-still pad r)
            (λ s. rw e refl))

  mouse_move-IsResting :
      (point : P) (m : JoystickMode) (pad : Pad)
      → pad.mode ≡ m
      → IsResting pad
      → IsResting (elim m [
        | idle ↦ pad
        | sector ↦ move_sector g (g.direction_at point) pad
        | free_drag ↦ move (g.analog pad.speed point) pad
      ])
  mouse_move-IsResting point idle pad e r = r
  mouse_move-IsResting point sector pad e r = move_sector-IsResting (g.direction_at point) pad e r
  mouse_move-IsResting point free_drag pad e r =
      move-IsResting (g.analog pad.speed point) pad (client-still pad r) (λ s. rw e refl)

  mouse_release-IsResting :
      (left : Bool) (m : JoystickMode) (pad : Pad)
      → IsResting pad
      → IsResting (elim m [
        | idle ↦ pad
        | sector ↦ if left then record (stop_moving pad) { mode = idle; active = none } else pad
        | free_drag ↦ if left then record (stop_moving pad) { mode = idle; active = none } else pad
      ])
  mouse_release-IsResting left idle pad r = r
  mouse_release-IsResting left sector pad r =
      pick-IsResting left (record (stop_moving pad) { mode = idle; active = none }) pad
        (λ e. stopped-IsResting idle pad (client-still pad r)) (λ e. r)
  mouse_release-IsResting left free_drag pad r =
      pick-IsResting left (record (stop_moving pad) { mode = idle; active = none }) pad
        (λ e. stopped-IsResting idle pad (client-still pad r)) (λ e. r)

  handle-IsResting : (e : Event P) (pad : Pad) → IsResting pad → IsResting (handle g e pad)
  unfolding handle mouse_press mouse_move mouse_release
  handle-IsResting (presses left point) pad r = mouse_press-IsResting left point pad.mode pad r
  handle-IsResting (moves point) pad r = mouse_move-IsResting point pad.mode pad refl r
  handle-IsResting (releases left) pad r = mouse_release-IsResting left pad.mode pad r

  run-IsResting : (es : List (Event P)) (pad : Pad) → IsResting pad → IsResting (run g es pad)
  unfolding run
  run-IsResting [] pad r = r
  run-IsResting (e ∷ es) pad r = run-IsResting es (handle g e pad) (handle-IsResting e pad r)

  still-idle :
      (m : JoystickMode) (a : Option ℕ) (sent : List Command)
      → m ≡ idle
      → Rests m a sent
      → still sent ≡ true
  still-idle m a sent e r = subst (λ n. Rests n a sent) e r

  -- A pad at rest that has told the camera nothing or to stop: whatever the mouse does, wherever the pointer
  -- goes, when nobody holds the joystick any more the last command was to stop, or there was none.
  pub run-stops :
      (es : List (Event P)) (pad : Pad)
      → pad.mode ≡ idle
      → still pad.sent ≡ true
      → (run g es pad).mode ≡ idle
      → still (run g es pad).sent ≡ true
  unfolding IsResting
  run-stops es pad e s f =
      let r = run-IsResting es pad (λ c. s, rw e s) in
      still-idle (run g es pad).mode (run g es pad).active (run g es pad).sent f r.1
