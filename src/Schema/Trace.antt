-- ===== src/Schema/Trace.antt =====
-- The PTZ trace states of zc_settings_schema.cpp and the controls that they leave.
use obs_zcamera.Prelude.{ℕ, ◌≡◌, ◌≢◌, ◌↔◌, refl, ◌⊎◌, Bool, true, false, arith, if◌then◌else◌}
use obs_zcamera.Prelude.Int.{ℤ, pos, eq_pos}

pub data TraceState : Type 0 where
  none recording preparing ready_for_play playing deleting ready_for_record : TraceState

-- The value of the enumerator.
abbrev pub trace_code : TraceState → ℕ
trace_code none = 0
trace_code recording = 1
trace_code preparing = 2
trace_code ready_for_play = 3
trace_code playing = 4
trace_code deleting = 5
trace_code ready_for_record = 6

-- `traceStateFromInt`.
unfoldable pub trace_state_from_int : ℤ → TraceState
trace_state_from_int value =
    if eq_pos value 1
    then recording
    else (if eq_pos value 2
        then preparing
        else (if eq_pos value 3
            then ready_for_play
            else (if eq_pos value 4
                then playing
                else (if eq_pos value 5
                    then deleting
                    else (if eq_pos value 6 then ready_for_record else none)))))

pub record TraceActions : Type 0 where
  pub record_button : Bool
  pub prepare : Bool
  pub remove : Bool
  pub navigate : Bool

-- `traceActions`.
unfoldable pub trace_actions : TraceState → TraceActions
trace_actions recording = record {
  record_button = true;
  prepare = false;
  remove = false;
  navigate = false;
}
trace_actions playing = record {
  record_button = false;
  prepare = true;
  remove = false;
  navigate = false;
}
trace_actions preparing = record {
  record_button = false;
  prepare = false;
  remove = false;
  navigate = true;
}
trace_actions deleting = record {
  record_button = true;
  prepare = true;
  remove = false;
  navigate = true;
}
trace_actions _ = record { record_button = true; prepare = true; remove = true; navigate = true }

-- A state reads back from its code, and whatever the camera reports is read as the state of that
-- code or, where no state has it, as `none`.
trace_state_from_int-code :
    ((s : TraceState) → trace_state_from_int (pos (trace_code s)) ≡ s)
    × ((z : ℤ) → (z ≡ pos (trace_code (trace_state_from_int z))) ⊎ (trace_state_from_int z ≡ none))
unfolding trace_state_from_int
trace_state_from_int-code = (code_read, any_read)
  where
    code_read : (s : TraceState) → trace_state_from_int (pos (trace_code s)) ≡ s
    code_read none = refl
    code_read recording = refl
    code_read _ = refl

    any_read :
        (z : ℤ) → (z ≡ pos (trace_code (trace_state_from_int z))) ⊎ (trace_state_from_int z ≡ none)
    any_read z = ground arith

-- What the controls of a state allow.
abbrev pub IsSafe : TraceState → Type 0
IsSafe s =
    let a = trace_actions s in
    ((a.remove ≡ true) ↔ ((s ≢ recording) × (s ≢ preparing) × (s ≢ playing) × (s ≢ deleting)))
    × ((a.navigate ≡ false) ↔ ((s ≡ recording) ⊎ (s ≡ playing)))
    × (s ≡ recording → (a.record_button ≡ true) × (a.prepare ≡ false))
    × (s ≡ playing → (a.prepare ≡ true) × (a.record_button ≡ false))

state-IsSafe : (s : TraceState) → IsSafe s
unfolding trace_actions
state-IsSafe none = ground arith
state-IsSafe recording = ground arith
state-IsSafe _ = ground arith

-- For every code that the camera may report: a slot can be deleted exactly while the transport is
-- neither recording, preparing, playing nor deleting; the slots cannot be switched exactly while it
-- records or plays; and then the one control that is left is the one that stops it.
trace_actions-IsSafe : (code : ℤ) → IsSafe (trace_state_from_int code)
trace_actions-IsSafe code = state-IsSafe (trace_state_from_int code)
