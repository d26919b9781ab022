-- ===== src/Dock/Pad.antt =====
-- src/ui/zc_control_dock.cpp: the joystick of the pan/tilt head. `direction_at` and `in_center` stand for the
-- geometry: the sector of a point, from 0 to 7, or none, and whether it lies in the middle; `analog` gives the
-- speeds of a drag to a point, from the speed's slider. A command is what the camera's client is told.
pub mod Stops
use obs_zcamera.Prelude.{
  ℕ, zero, suc, ◌*◌, ltb, get_or, Bool, true, false, not, ◌&&◌, ◌||◌, Option, none, some, List, [],
  ◌∷◌, ◌==◌, if◌then◌else◌,
}
use obs_zcamera.Prelude.Int.{ℤ, pos, negsuc}

pub data JoystickMode : Type 0 where
  idle sector free_drag : JoystickMode

pub data Command : Type 0 where
  ptz_move : ℤ → ℤ → Command
  ptz_stop : Command

-- `active` is `activeDir_`, and `sent` the commands, the last one first.
pub record Pad : Type 0 where
  pub mode : JoystickMode
  pub active : Option ℕ
  pub has_client : Bool
  pub speed : ℕ
  pub sent : List Command

-- What a point of the pad is, `P`, to the geometry.
pub record Geometry (P : Type 0) : Type 0 where
  pub direction_at : P → Option ℕ
  pub in_center : P → Bool
  pub analog : ℕ → P → ℤ × ℤ

abbrev pub minus : ℕ → ℤ
minus zero = pos 0
minus (suc n) = negsuc n

-- A product of two ints.
unfoldable pub scaled : ℤ → ℕ → ℤ
scaled (pos n) speed = pos (n * speed)
scaled (negsuc n) speed = minus (suc n * speed)

abbrev pub pan_delta : List ℤ
pan_delta = pos 1 ∷ pos 1 ∷ pos 0 ∷ negsuc 0 ∷ negsuc 0 ∷ negsuc 0 ∷ pos 0 ∷ pos 1 ∷ []

abbrev pub tilt_delta : List ℤ
tilt_delta = pos 0 ∷ pos 1 ∷ pos 1 ∷ pos 1 ∷ pos 0 ∷ negsuc 0 ∷ negsuc 0 ∷ negsuc 0 ∷ []

unfoldable pub tell : Command → Pad → Pad
tell c pad = if pad.has_client then record pad { sent = c ∷ pad.sent } else pad

unfoldable pub move : ℤ × ℤ → Pad → Pad
move (pan, tilt) pad = tell (ptz_move pan tilt) pad

unfoldable pub move_in_direction : ℕ → Pad → Pad
move_in_direction i pad =
    if ltb 7 i
    then pad
    else move
        (
          scaled (get_or pan_delta i (pos 0)) pad.speed,
          scaled (get_or tilt_delta i (pos 0)) pad.speed,
        )
        pad

unfoldable pub stop_moving : Pad → Pad
stop_moving pad = tell ptz_stop pad

module _ {P : Type 0} (g : Geometry P) where
  unfoldable pub press_sector : Option ℕ → Pad → Pad
  press_sector none pad = pad
  press_sector (some i) pad = move_in_direction i (record pad { mode = sector; active = some i })

  -- `left` says whether it is the left button.
  unfoldable pub mouse_press : Bool → P → Pad → Pad
  mouse_press left point pad = elim pad.mode [
    | idle ↦
        if not left
        then pad
        else (if g.in_center point
            then record pad { mode = free_drag }
            else press_sector (g.direction_at point) pad)
    | sector ↦ pad
    | free_drag ↦ pad
  ]

  abbrev pub is_active : Option ℕ → ℕ → Bool
  is_active none i = false
  is_active (some j) i = i == j

  -- A drag from sector to sector, and one that leaves the sectors.
  unfoldable pub move_sector : Option ℕ → Pad → Pad
  move_sector (some i) pad =
      if is_active pad.active i then pad else move_in_direction i (record pad { active = some i })
  move_sector none pad = elim pad.active [
    | some i ↦ record (stop_moving pad) { active = none }
    | none ↦ pad
  ]

  unfoldable pub mouse_move : P → Pad → Pad
  mouse_move point pad = elim pad.mode [
    | idle ↦ pad
    | sector ↦ move_sector (g.direction_at point) pad
    | free_drag ↦ move (g.analog pad.speed point) pad
  ]

  unfoldable pub mouse_release : Bool → Pad → Pad
  mouse_release left pad =
      let released = record (stop_moving pad) { mode = idle; active = none } in
      elim pad.mode [
        | idle ↦ pad
        | sector ↦ if left then released else pad
        | free_drag ↦ if left then released else pad
      ]

-- The mouse over the pad; the pad has a client or none all the while.
pub data Event (P : Type 0) : Type 0 where
  presses : Bool → P → Event P
  moves : P → Event P
  releases : Bool → Event P

module _ {P : Type 0} (g : Geometry P) where
  unfoldable pub handle : Event P → Pad → Pad
  handle (presses left point) pad = mouse_press g left point pad
  handle (moves point) pad = mouse_move g point pad
  handle (releases left) pad = mouse_release g left pad

  unfoldable pub run : List (Event P) → Pad → Pad
  run [] pad = pad
  run (e ∷ es) pad = run es (handle e pad)
