-- ===== src/Dock/Presets.antt =====
-- src/ui/zc_control_dock.cpp: the presets and the traces of the pan/tilt head. An index is none where the code
-- has -1. The requests to the camera and the timers of 400 ms are results of the functions; a reply or a timer
-- is an event, with what its function captured. The names and pictures that the slots show are left out.
pub mod Enabled
pub mod Reload
use obs_zcamera.Prelude.{
  ℕ, zero, suc, ◌+◌, ◌*◌, ◌/◌, Bool, true, false, not, ◌&&◌, ◌||◌, Option, none, some, List, [],
  ◌∷◌, ◌++◌, map, Text, is_empty, length, text_eq, ltb, ◌==◌, if◌then◌else◌, same_flag,
}
use obs_zcamera.Prelude.Int.{ℤ, pos, negsuc}
use obs_zcamera.Schema.Trace.{
  TraceState, recording, preparing, ready_for_play, playing, deleting, ready_for_record,
  trace_state_from_int, TraceActions, trace_actions,
}

-- The members of a slot's reply that the panel reads, with their defaults where they are missing.
pub record Info : Type 0 where
  pub name : Text
  pub unit : ℕ
  pub time : ℕ
  pub speed : ℕ

abbrev pub no_info : Info
no_info = record { name = []; unit = 0; time = 0; speed = 0 }

-- Which controls can be used; the two of the speed are not part of it.
pub record Buttons : Type 0 where
  pub primary : Bool
  pub secondary : Bool
  pub delete : Bool
  pub rename : Bool
  pub pages : Bool

-- `stale` says whether a name was cleared since the buttons were set, which the code does not keep.
pub record Panel : Type 0 where
  pub has_client : Bool
  pub connected : Bool
  pub trace_mode : Bool
  pub page : ℕ
  pub selected : Option ℕ
  pub trace_state : ℤ
  pub info : List (ℕ × Info)
  pub buttons : Buttons
  pub stale : Bool

pub data Request : Type 0 where
  preset_recall preset_set preset_delete record_start play_prepare trace_delete : ℕ → Request
  record_stop play_stop play_start trace_query : Request
  slot_info : Bool → Option ℕ → Request
  slot_name : Bool → ℕ → Text → Request

-- What a timer does: read the trace state and the selected slot, or these of one slot, or one of both.
pub data Timer : Type 0 where
  after_stop trace_only : Timer
  after_start slot_only : ℕ → Timer

-- What a function does to the outside: its requests, and the timers that it starts.
abbrev pub Effects : Type 0
Effects = List Request × List Timer

abbrev pub quiet : Effects
quiet = ([], [])

abbrev pub preset_per_page : ℕ
preset_per_page = 10

abbrev pub preset_pages : ℕ
preset_pages = 10

abbrev pub preset_name_max : ℕ
preset_name_max = 18

abbrev pub is_some {ℓ} : {A : Type ℓ} → Option A → Bool
is_some none = false
is_some (some a) = true

abbrev pub lookup : ℕ → List (ℕ × Info) → Info
lookup i [] = no_info
lookup i ((j, info) ∷ infos) = if i == j then info else lookup i infos

-- `info_[index].insert("name", name)`.
unfoldable pub named : ℕ → Text → List (ℕ × Info) → List (ℕ × Info)
named i name infos = (i, record (lookup i infos) { name = name }) ∷ infos

unfoldable pub selected_is_named : Panel → Bool
selected_is_named p = elim p.selected [
  | none ↦ false
  | some i ↦ not (is_empty (lookup i p.info).name)
]

abbrev pub is_recording : TraceState → Bool
is_recording recording = true
is_recording other = false

-- Ready to play, or playing.
abbrev pub holds_trace : TraceState → Bool
holds_trace playing = true
holds_trace ready_for_play = true
holds_trace other = false

unfoldable pub buttons_of : Bool → TraceState → Bool → Bool → Buttons
buttons_of false state has name = record {
  primary = has;
  secondary = has;
  delete = has;
  rename = has;
  pages = true;
}
buttons_of true state has name =
    let act = trace_actions state in
    record {
      primary = act.record_button && (has || is_recording state);
      secondary = act.prepare && (name || holds_trace state);
      delete = act.remove && name;
      rename = has && act.navigate;
      pages = act.navigate;
    }

abbrev pub state_of : Panel → TraceState
state_of p = trace_state_from_int p.trace_state

unfoldable pub update_actions : Panel → Panel
update_actions p = record p {
  buttons = buttons_of p.trace_mode (state_of p) (is_some p.selected) (selected_is_named p);
  stale = false;
}

unfoldable pub load_slot : Option ℕ → Panel → List Request
load_slot index p = if p.has_client && p.connected then slot_info p.trace_mode index ∷ [] else []

unfoldable pub refresh_trace_state : Panel → List Request
refresh_trace_state p =
    if p.trace_mode && (p.has_client && p.connected) then trace_query ∷ [] else []

-- The slots of a page from a slot on, in order.
abbrev pub load_slots : ℕ → ℕ → Panel → List Request
load_slots index zero p = []
load_slots index (suc n) p = load_slot (some index) p ++ load_slots (suc index) n p

unfoldable pub show_page : ℕ → Panel → Panel × List Request
show_page page p =
    let p' = update_actions (record p { page = page; selected = none }) in
    if ltb page preset_pages
    then (p', load_slots (page * preset_per_page) preset_per_page p')
    else (p, [])

unfoldable pub refresh : Panel → Panel × List Request
refresh p =
    let shown = show_page p.page (record p { info = []; trace_state = pos 0 }) in
    if p.has_client then (shown.0, shown.1 ++ refresh_trace_state shown.0) else shown

unfoldable pub set_client : Bool → Panel → Panel × List Request
set_client has p = refresh (record p { has_client = has; connected = false })

unfoldable pub set_trace_mode : Bool → Panel → Panel × List Request
set_trace_mode trace p =
    let shown = show_page 0 (record p { trace_mode = trace; info = []; trace_state = pos 0 }) in
    if same_flag p.trace_mode trace
    then (p, [])
    else (shown.0, shown.1 ++ refresh_trace_state shown.0)

-- The reply of the trace state; -1 is no answer.
unfoldable pub on_trace_state : ℤ → Panel → Panel
on_trace_state (pos n) p =
    if p.trace_mode then update_actions (record p { trace_state = pos n }) else p
on_trace_state (negsuc n) p = p

abbrev pub is_selected : Option ℕ → ℕ → Bool
is_selected none i = false
is_selected (some j) i = i == j

-- `applySlotInfo`: the slot of the index -1 is looked up on the first page, which is out of range, so that
-- there is no next state.
unfoldable pub apply_slot_info : Option ℕ → Info → Panel → Option Panel
apply_slot_info none info p = if p.page == 0 then none else some p
apply_slot_info (some i) info p =
    let p' = record p { info = (i, info) ∷ p.info } in
    if not (i / preset_per_page == p.page)
    then some p
    else some (if is_selected p.selected i then update_actions p' else p')

-- The reply to `loadSlot`, which captured the family and the index.
unfoldable pub on_slot_info : Bool → Option ℕ → Info → Panel → Option Panel
on_slot_info trace index info p =
    if same_flag trace p.trace_mode then apply_slot_info index info p else some p

unfoldable pub toggled : Option ℕ → ℕ → Option ℕ
toggled selected i = if is_selected selected i then none else some i

unfoldable pub on_slot_clicked : ℕ → Panel → Panel
on_slot_clicked i p =
    if p.trace_mode && not (trace_actions (state_of p)).navigate
    then p
    else update_actions (record p { selected = toggled p.selected i })

-- The cached name is cleared, and nothing is set anew.
unfoldable pub clear_name : ℕ → Panel → Panel
clear_name i p = record p { info = named i [] p.info; stale = true }

unfoldable pub record_clicked : Option ℕ → Panel → Panel × Effects
record_clicked none p = (p, quiet)
record_clicked (some i) p = (clear_name i p, (record_start i ∷ [], after_start i ∷ []))

unfoldable pub primary_clicked : Panel → Panel × Effects
primary_clicked p =
    let recall : Effects = elim p.selected [ none ↦ quiet | some i ↦ (preset_recall i ∷ [], []) ] in
    let start = record_clicked p.selected p in
    if not p.has_client
    then (p, quiet)
    else (if not p.trace_mode
        then (p, recall)
        else (if is_recording (state_of p)
            then (p, (record_stop ∷ [], after_stop ∷ []))
            else start))

-- In trace mode.
unfoldable pub play_clicked : TraceState → Option ℕ → Effects
play_clicked playing selected = (play_stop ∷ [], trace_only ∷ [])
play_clicked ready_for_play selected = (play_start ∷ [], trace_only ∷ [])
play_clicked other none = quiet
play_clicked other (some i) = (play_prepare i ∷ [], trace_only ∷ [])

unfoldable pub secondary_clicked : Panel → Effects
secondary_clicked p =
    let write : Effects = elim p.selected [
      | none ↦ quiet
      | some i ↦ (preset_set i ∷ [], slot_only i ∷ [])
    ] in
    let play = play_clicked (state_of p) p.selected in
    if not p.has_client then quiet else (if p.trace_mode then play else write)

unfoldable pub delete_selected : Option ℕ → Panel → Panel × Effects
delete_selected none p = (p, quiet)
delete_selected (some i) p = (
  clear_name i p,
  ((if p.trace_mode then trace_delete i else preset_delete i) ∷ [], slot_only i ∷ []),
)

unfoldable pub delete_clicked : Panel → Panel × Effects
delete_clicked p =
    let deleted = delete_selected p.selected p in if p.has_client then deleted else (p, quiet)

-- `name.remove('&')` and `name.remove('=')`.
unfoldable pub cleaned : Text → Text
cleaned [] = []
cleaned (c ∷ name) = let rest = cleaned name in if c == b'&' || c == b'=' then rest else c ∷ rest

unfoldable pub commit_rename : ℕ → Text → Panel → Panel × List Request
commit_rename i text p =
    let name = cleaned text in
    let p' = record p { info = named i name p.info } in
    let shown = if is_selected p.selected i then update_actions p' else p' in
    if is_empty name
      || (ltb preset_name_max (length name)
          || (text_eq name (lookup i p.info).name || not p.has_client))
    then (p, [])
    else (shown, slot_name p.trace_mode i name ∷ load_slot (some i) shown)

unfoldable pub on_timer : Timer → Panel → List Request
on_timer after_stop p = refresh_trace_state p ++ load_slot p.selected p
on_timer trace_only p = refresh_trace_state p
on_timer (after_start i) p = refresh_trace_state p ++ load_slot (some i) p
on_timer (slot_only i) p = load_slot (some i) p

-- What happens to the panel; a slot is clicked on or renamed by its place among the ten of the page.
pub data Event : Type 0 where
  clients modes : Bool → Event
  connects refreshes primaries secondaries deletes : Event
  pages slots : ℕ → Event
  traces : ℤ → Event
  replies : Bool → Option ℕ → Info → Event
  renames : ℕ → Text → Event
  fires : Timer → Event

-- The next state, unless a slot out of range is looked up, and the effects.
unfoldable pub handle : Event → Panel → Option Panel × Effects
handle (clients has) p = let r = set_client has p in (some r.0, (r.1, []))
handle (modes trace) p = let r = set_trace_mode trace p in (some r.0, (r.1, []))
handle connects p = (some (record p { connected = true }), quiet)
handle refreshes p = let r = refresh p in (some r.0, (r.1, []))
handle primaries p = let r = primary_clicked p in (some r.0, r.1)
handle secondaries p = (some p, secondary_clicked p)
handle deletes p = let r = delete_clicked p in (some r.0, r.1)
handle (pages page) p = let r = show_page page p in (some r.0, (r.1, []))
handle (slots s) p =
    let clicked = on_slot_clicked (p.page * preset_per_page + s) p in
    (some (if ltb s preset_per_page then clicked else p), quiet)
handle (traces state) p = (some (on_trace_state state p), quiet)
handle (replies trace index info) p = (on_slot_info trace index info p, quiet)
handle (renames s text) p =
    let r = commit_rename (p.page * preset_per_page + s) text p in
    if ltb s preset_per_page then (some r.0, (r.1, [])) else (some p, quiet)
handle (fires timer) p = (some p, (on_timer timer p, []))

unfoldable pub run : List Event → Panel → Option Panel
run [] p = some p
run (e ∷ es) p = elim (handle e p).0 [ none ↦ none | some p' ↦ run es p' ]
