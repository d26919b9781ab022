-- ===== src/Dock/Presets/Enabled.antt =====
-- Which controls can be used, and where the selection is.
use obs_zcamera.Prelude.{
  ℕ, ◌+◌, ◌*◌, ◌/◌, ◌≡◌, refl, sym, ap, subst, ◌∙◌, Bool, true, false, not, ◌&&◌, Option, none,
  some, List, [], ◌∷◌, Text, is_empty, ltb, ltb→lt, ◌==◌, if◌then◌else◌, same_flag, Bool-cases, inl,
  inr, true≢false, arith,
}
use obs_zcamera.Prelude.Int.{ℤ, pos, negsuc}
use obs_zcamera.Schema.Trace.{
  TraceState, recording, preparing, ready_for_play, playing, deleting, trace_actions,
}
use obs_zcamera.Dock.Presets.{
  Info, Buttons, Panel, quiet, is_some, lookup, named, selected_is_named, is_recording, buttons_of,
  state_of, update_actions, show_page, refresh, set_client, set_trace_mode, on_trace_state,
  is_selected, apply_slot_info, on_slot_info, toggled, on_slot_clicked, clear_name, record_clicked,
  primary_clicked, delete_selected, delete_clicked, cleaned, commit_rename, Event, clients, modes,
  connects, refreshes, primaries, secondaries, deletes, pages, slots, traces, replies, renames,
  fires, handle, run,
}

-- Buttons in the order of the panel: record or recall, play or write, delete, rename, and the pages.
abbrev controls : Bool → Bool → Bool → Bool → Bool → Buttons
controls primary secondary delete rename turning = record {
  primary = primary;
  secondary = secondary;
  delete = delete;
  rename = rename;
  pages = turning;
}

-- The rules of the controls, by the mode, the trace state, whether a slot is selected and whether that slot
-- has a name: a table of its own. A preset needs its slot, and the pages are always free. While a trace is
-- recorded it can only be stopped, and so while it is played; while one is prepared the slots can only be
-- renamed; otherwise a recording needs its slot, a play needs a name, unless the trace is ready to play, and
-- a named trace can be deleted, unless one is being deleted.
abbrev pub rules : Bool → TraceState → Bool → Bool → Buttons
rules false state has name = controls has has has has true
rules true recording has name = controls true false false false false
rules true playing has name = controls false true false false false
rules true preparing has name = controls false false false has true
rules true deleting has name = controls has name false has true
rules true ready_for_play has name = controls has true name has true
rules true other has name = controls has name name has true

buttons_of-rules :
    (trace : Bool) (state : TraceState) (has name : Bool)
    → buttons_of trace state has name ≡ rules trace state has name
unfolding buttons_of trace_actions
buttons_of-rules false state has name = refl
buttons_of-rules true recording true name = refl
buttons_of-rules true recording false name = refl
buttons_of-rules true playing true true = refl
buttons_of-rules true playing true false = refl
buttons_of-rules true playing false true = refl
buttons_of-rules true playing false false = refl
buttons_of-rules true preparing true name = refl
buttons_of-rules true preparing false name = refl
buttons_of-rules true deleting true true = refl
buttons_of-rules true deleting true false = refl
buttons_of-rules true deleting false true = refl
buttons_of-rules true deleting false false = refl
buttons_of-rules true ready_for_play true true = refl
buttons_of-rules true ready_for_play true false = refl
buttons_of-rules true ready_for_play false true = refl
buttons_of-rules true ready_for_play false false = refl
buttons_of-rules true other true true = refl
buttons_of-rules true other true false = refl
buttons_of-rules true other false true = refl
buttons_of-rules true other false false = refl

-- What the controls should be.
abbrev pub wanted : Panel → Buttons
wanted p = rules p.trace_mode (state_of p) (is_some p.selected) (selected_is_named p)

-- The selected slot, if there is one, is on the page.
abbrev OnPage : Option ℕ → ℕ → Type 0
OnPage none page = true ≡ true
OnPage (some i) page = i / 10 ≡ page

-- The page is one of the ten, the selection is on it, and unless a name was cleared since they were set, the
-- controls can be used exactly as the mode, the trace state, the selection and its name want it.
unfoldable pub IsAligned : Panel → Type 0
IsAligned p =
    (ltb p.page 10 ≡ true) × OnPage p.selected p.page × (p.stale ≡ false → p.buttons ≡ wanted p)

pick-IsAligned :
    (b : Bool) (x y : Panel)
    → (b ≡ true → IsAligned x)
    → (b ≡ false → IsAligned y)
    → IsAligned (if b then x else y)
pick-IsAligned true x y h k = h refl
pick-IsAligned false x y h k = k refl

pick-0-IsAligned :
    {E : Type 0} (b : Bool) (x y : Panel × E)
    → IsAligned x.0
    → IsAligned y.0
    → IsAligned (if b then x else y).0
pick-0-IsAligned true x y h k = h
pick-0-IsAligned false x y h k = k

page-IsAligned : (p : Panel) → IsAligned p → ltb p.page 10 ≡ true
unfolding IsAligned
page-IsAligned p s = s.0

place-IsAligned : (p : Panel) → IsAligned p → OnPage p.selected p.page
unfolding IsAligned
place-IsAligned p s = s.1

update_actions-IsAligned :
    (p : Panel) → ltb p.page 10 ≡ true → OnPage p.selected p.page → IsAligned (update_actions p)
unfolding update_actions IsAligned selected_is_named
update_actions-IsAligned p b o = (
  b,
  o,
  λ e. buttons_of-rules p.trace_mode (state_of p) (is_some p.selected) (selected_is_named p),
)

connected-IsAligned : (b : Bool) (p : Panel) → IsAligned p → IsAligned (record p { connected = b })
unfolding IsAligned selected_is_named
connected-IsAligned b p s = s

show_page-IsAligned :
    (page : ℕ) (p : Panel) → (ltb page 10 ≡ false → IsAligned p) → IsAligned (show_page page p).0
unfolding show_page
show_page-IsAligned page p h = elim (Bool-cases (ltb page 10)) [
  | inl e ↦ rw e (update_actions-IsAligned (record p { page = page; selected = none }) e refl)
  | inr e ↦ rw e (h e)
]

refresh-IsAligned : (p : Panel) → ltb p.page 10 ≡ true → IsAligned (refresh p).0
unfolding refresh
refresh-IsAligned p b =
    let shown =
      show_page-IsAligned p.page (record p { info = []; trace_state = pos 0 })
        (λ e. absurd (true≢false (sym b ∙ e))) in
    pick-0-IsAligned p.has_client _ _ shown shown

set_trace_mode-IsAligned :
    (trace : Bool) (p : Panel) → IsAligned p → IsAligned (set_trace_mode trace p).0
unfolding set_trace_mode
set_trace_mode-IsAligned trace p s = elim (Bool-cases (same_flag p.trace_mode trace)) [
  | inl e ↦ rw e s
  | inr e ↦ rw e (
      show_page-IsAligned 0 (record p { trace_mode = trace; info = []; trace_state = pos 0 })
        (λ f. absurd (true≢false f)))
]

on_trace_state-IsAligned : (z : ℤ) (p : Panel) → IsAligned p → IsAligned (on_trace_state z p)
unfolding on_trace_state
on_trace_state-IsAligned (pos n) p s =
    pick-IsAligned p.trace_mode (update_actions (record p { trace_state = pos n })) p
      (λ e.
        update_actions-IsAligned (record p { trace_state = pos n }) (page-IsAligned p s)
          (place-IsAligned p s))
      (λ e. s)
on_trace_state-IsAligned (negsuc n) p s = s

toggled-OnPage : (o : Option ℕ) (i page : ℕ) → i / 10 ≡ page → OnPage (toggled o i) page
unfolding toggled
toggled-OnPage o i page e = elim (Bool-cases (is_selected o i)) [
  | inl f ↦ rw f refl
  | inr f ↦ rw f e
]

==_sym : (a b : ℕ) → (a == b) ≡ (b == a)
==_sym a b = ground arith

on_slot_clicked-IsAligned :
    (i : ℕ) (p : Panel) → i / 10 ≡ p.page → IsAligned p → IsAligned (on_slot_clicked i p)
unfolding on_slot_clicked
on_slot_clicked-IsAligned i p e s =
    pick-IsAligned (p.trace_mode && not (trace_actions (state_of p)).navigate) p
      (update_actions (record p { selected = toggled p.selected i })) (λ f. s)
      (λ f.
        update_actions-IsAligned (record p { selected = toggled p.selected i }) (page-IsAligned p s)
          (toggled-OnPage p.selected i p.page e))

-- The name of a slot that is not selected does not count.
unselected :
    (o : Option ℕ) (i : ℕ) (info : Info) (infos : List (ℕ × Info))
    → is_selected o i ≡ false
    → (elim o [ none ↦ false | some j ↦ not (is_empty (lookup j ((i, info) ∷ infos)).name) ])
      ≡ (elim o [ none ↦ false | some j ↦ not (is_empty (lookup j infos).name) ])
unselected none i info infos e = refl
unselected (some j) i info infos e =
    ap (λ b. not (is_empty (if b then info else lookup j infos).name)) (==_sym j i ∙ e)

kept-IsAligned :
    (i : ℕ) (info : Info) (p : Panel)
    → is_selected p.selected i ≡ false
    → IsAligned p
    → IsAligned (record p { info = (i, info) ∷ p.info })
unfolding IsAligned selected_is_named
kept-IsAligned i info p e (b, o, w) = (
  b,
  o,
  λ f.
      w f
      ∙ ap (rules p.trace_mode (state_of p) (is_some p.selected))
          (sym (unselected p.selected i info p.info e)),
)

cleared-IsAligned : (i : ℕ) (p : Panel) → IsAligned p → IsAligned (clear_name i p)
unfolding clear_name IsAligned
cleared-IsAligned i p (b, o, w) = (b, o, λ e. absurd (true≢false e))

record_clicked-IsAligned :
    (o : Option ℕ) (p : Panel) → IsAligned p → IsAligned (record_clicked o p).0
unfolding record_clicked
record_clicked-IsAligned none p s = s
record_clicked-IsAligned (some i) p s = cleared-IsAligned i p s

primary_clicked-IsAligned : (p : Panel) → IsAligned p → IsAligned (primary_clicked p).0
unfolding primary_clicked
primary_clicked-IsAligned p s =
    pick-0-IsAligned (not p.has_client) (p, quiet) _ s
      (pick-0-IsAligned (not p.trace_mode) _ _ s (
        pick-0-IsAligned (is_recording (state_of p)) _ (record_clicked p.selected p) s
          (record_clicked-IsAligned p.selected p s)))

delete_selected-IsAligned :
    (o : Option ℕ) (p : Panel) → IsAligned p → IsAligned (delete_selected o p).0
unfolding delete_selected
delete_selected-IsAligned none p s = s
delete_selected-IsAligned (some i) p s = cleared-IsAligned i p s

delete_clicked-IsAligned : (p : Panel) → IsAligned p → IsAligned (delete_clicked p).0
unfolding delete_clicked
delete_clicked-IsAligned p s =
    pick-0-IsAligned p.has_client (delete_selected p.selected p) (p, quiet)
      (delete_selected-IsAligned p.selected p s) s

-- The new information of a slot, with the controls set anew where it is the selected one.
informed-IsAligned :
    (i : ℕ) (info : Info) (p : Panel)
    → IsAligned p
    → let p' = record p { info = (i, info) ∷ p.info } in
      IsAligned (if is_selected p.selected i then update_actions p' else p')
informed-IsAligned i info p s =
    pick-IsAligned (is_selected p.selected i)
      (update_actions (record p { info = (i, info) ∷ p.info }))
      (record p { info = (i, info) ∷ p.info })
      (λ e.
        update_actions-IsAligned (record p { info = (i, info) ∷ p.info }) (page-IsAligned p s)
          (place-IsAligned p s))
      (λ e. kept-IsAligned i info p e s)

commit_rename-IsAligned :
    (i : ℕ) (text : Text) (p : Panel) → IsAligned p → IsAligned (commit_rename i text p).0
unfolding commit_rename named
commit_rename-IsAligned i text p s =
    pick-0-IsAligned _ (p, []) _ s
      (informed-IsAligned i (record (lookup i p.info) { name = cleaned text }) p s)

-- A state there is, is sound.
abbrev Keeps : Option Panel → Type 0
Keeps none = true ≡ true
Keeps (some p) = IsAligned p

pick-Keeps : (b : Bool) (x y : Option Panel) → Keeps x → Keeps y → Keeps (if b then x else y)
pick-Keeps true x y h k = h
pick-Keeps false x y h k = k

apply_slot_info-Keeps :
    (index : Option ℕ) (info : Info) (p : Panel)
    → IsAligned p
    → Keeps (apply_slot_info index info p)
unfolding apply_slot_info
apply_slot_info-Keeps none info p s = pick-Keeps (p.page == 0) none (some p) refl s
apply_slot_info-Keeps (some i) info p s =
    pick-Keeps (not (i / 10 == p.page)) (some p) _ s (informed-IsAligned i info p s)

place : (s page : ℕ) → ltb s 10 ≡ true → (page * 10 + s) / 10 ≡ page
place s page e = omega (arith, ltb→lt s 10 e)

handle-Keeps : (e : Event) (p : Panel) → IsAligned p → Keeps (handle e p).0
unfolding handle set_client on_slot_info
handle-Keeps (clients has) p s =
    refresh-IsAligned (record p { has_client = has; connected = false }) (page-IsAligned p s)
handle-Keeps (modes trace) p s = set_trace_mode-IsAligned trace p s
handle-Keeps connects p s = connected-IsAligned true p s
handle-Keeps refreshes p s = refresh-IsAligned p (page-IsAligned p s)
handle-Keeps primaries p s = primary_clicked-IsAligned p s
handle-Keeps secondaries p s = s
handle-Keeps deletes p s = delete_clicked-IsAligned p s
handle-Keeps (pages page) p s = show_page-IsAligned page p (λ e. s)
handle-Keeps (slots i) p s =
    pick-IsAligned (ltb i 10) (on_slot_clicked (p.page * 10 + i) p) p
      (λ e. on_slot_clicked-IsAligned (p.page * 10 + i) p (place i p.page e) s) (λ e. s)
handle-Keeps (traces state) p s = on_trace_state-IsAligned state p s
handle-Keeps (replies trace index info) p s =
    pick-Keeps (same_flag trace p.trace_mode) (apply_slot_info index info p) (some p)
      (apply_slot_info-Keeps index info p s) s
handle-Keeps (renames i text) p s = elim (Bool-cases (ltb i 10)) [
  | inl e ↦ rw e (commit_rename-IsAligned (p.page * 10 + i) text p s)
  | inr e ↦ rw e s
]
handle-Keeps (fires timer) p s = s

next-Keeps :
    (o : Option Panel) (es : List Event)
    → Keeps o
    → ((p : Panel) → IsAligned p → Keeps (run es p))
    → Keeps (elim o [ none ↦ none | some p ↦ run es p ])
next-Keeps none es k h = refl
next-Keeps (some p) es k h = h p k

run-Keeps : (es : List Event) (p : Panel) → IsAligned p → Keeps (run es p)
unfolding run
run-Keeps [] p s = s
run-Keeps (e ∷ es) p s = next-Keeps (handle e p).0 es (handle-Keeps e p s) (run-Keeps es)

-- After any history that does not look up a slot out of range: the page is one of the ten, the selected slot is
-- on it, and each control can be used exactly as `rules` says of the mode, the trace state, the selection and
-- its name, unless a recording or a deletion has cleared a cached name since the controls were last set.
pub run-IsAligned : (es : List Event) (p q : Panel) → IsAligned p → run es p ≡ some q → IsAligned q
run-IsAligned es p q s e = subst Keeps e (run-Keeps es p s)
