-- ===== src/Dock/Presets/Reload.antt =====
-- The reload of a slot after a recording.
use obs_zcamera.Prelude.{◌≡◌, refl, ap, ◌∙◌, true, none, some, [], ◌∷◌}
use obs_zcamera.Dock.Presets.{
  Info, Panel, slot_info, trace_query, record_stop, after_stop, is_recording, state_of, load_slot,
  refresh_trace_state, primary_clicked, apply_slot_info, on_slot_info, on_timer, primaries, replies,
  fires, handle, run,
}

primary_clicked_recording :
    (p : Panel)
    → p.has_client ≡ true
    → p.trace_mode ≡ true
    → is_recording (state_of p) ≡ true
    → primary_clicked p ≡ (p, (record_stop ∷ [], after_stop ∷ []))
unfolding primary_clicked
primary_clicked_recording p c t r = rw (c, t, r) refl

none_replied :
    (p : Panel) (info : Info)
    → p.trace_mode ≡ true
    → p.page ≡ 0
    → on_slot_info true none info p ≡ none
unfolding on_slot_info apply_slot_info
none_replied p info t z = rw (t, z) refl

run_to_reply :
    (p : Panel) (info : Info)
    → (primary_clicked p).0 ≡ p
    → on_slot_info true none info p ≡ none
    → run (primaries ∷ fires after_stop ∷ replies true none info ∷ []) p ≡ none
unfolding run handle
run_to_reply p info c r =
    ap (run (fires after_stop ∷ replies true none info ∷ [])) c
    ∙ ap (λ o. elim o [ none ↦ none | some q ↦ run [] q ]) r

-- A recording that is stopped while no slot is selected, as one that the camera was in before: the timer then
-- asks for the slot of index -1, and when the camera answers on the first page, whatever it answers, a slot out
-- of range is looked up.
pub run-reload_none :
    (p : Panel) (info : Info)
    → p.has_client ≡ true
    → p.connected ≡ true
    → p.trace_mode ≡ true
    → is_recording (state_of p) ≡ true
    → p.selected ≡ none
    → p.page ≡ 0
    → (primary_clicked p ≡ (p, (record_stop ∷ [], after_stop ∷ [])))
      × (on_timer after_stop p ≡ trace_query ∷ slot_info true none ∷ [])
      × (run (primaries ∷ fires after_stop ∷ replies true none info ∷ []) p ≡ none)
unfolding on_timer refresh_trace_state load_slot
run-reload_none p info c k t r s z =
    let clicked = primary_clicked_recording p c t r in
    (
      clicked,
      rw (t, c, k, s) refl,
      run_to_reply p info (ap (λ x. x.0) clicked) (none_replied p info t z),
    )
