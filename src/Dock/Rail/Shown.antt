-- ===== src/Dock/Rail/Shown.antt =====
-- What the dock keeps of the rail: which cameras have answered, the rows of the last scan, and the marks of
-- the cameras that are sources.
use obs_zcamera.Prelude.{
  ◌≡◌, refl, sym, ap, ap₂, ◌∙◌, Bool, true, false, not, ◌&&◌, ◌||◌, List, [], ◌∷◌, map, Text,
  text_eq, text_eq_iff, contains, Bool-cases, inl, inr, true≢false,
}
use obs_zcamera.Dock.Rail.Painted.{cameras-applied}
use obs_zcamera.Dock.Rail.Sets.{same_set_refl}
use obs_zcamera.Dock.Rail.{
  Camera, Rail, row_key, with_host, same_set, cameras_of, set_cameras, set_added_hosts, Dock,
  refresh_rail_presence, rows_of, refresh_cameras, removed, on_camera_clicked, Event, scans, clicks,
  source_signals, handle, run,
}

contains-removed :
    (host : Text) (hosts : List Text) (h : Text)
    → contains (removed host hosts) h ≡ (not (text_eq host h) && contains hosts h)
unfolding contains
contains-removed host [] h = elim (Bool-cases (text_eq host h)) [
  | inl e ↦ rw e refl
  | inr e ↦ rw e refl
]
contains-removed host (x ∷ hosts) h =
    let rest = contains-removed host hosts h in
    elim (Bool-cases (text_eq x host)) [
      | inl same ↦
          let e = (text_eq_iff x host).0 same in
          elim (Bool-cases (text_eq host h)) [
            | inl s ↦ rw (same, rest, s) refl
            | inr s ↦ rw (same, rest, e, s) refl
          ]
      | inr other ↦ elim (Bool-cases (text_eq host h)) [
        | inl s ↦
            let e = (text_eq_iff host h).0 s in
            rw (other, rest, s, sym (ap (text_eq x) e) ∙ other) refl
        | inr s ↦ rw (other, rest, s) refl
      ]
    ]

-- No camera is noted as one that answered and as one that did not.
unfoldable pub IsApart : Dock → Type 0
IsApart dock =
    (h : Text) → contains dock.reachable_hosts h ≡ true → contains dock.unreachable_hosts h ≡ false

noted :
    (host : Text) (one other : List Text) (h : Text)
    → (contains one h ≡ true → contains other h ≡ false)
    → contains (host ∷ one) h ≡ true
    → contains (removed host other) h ≡ false
unfolding contains
noted host one other h apart c = elim (Bool-cases (text_eq host h)) [
  | inl e ↦ contains-removed host other h ∙ ap (λ b. not b && contains other h) e
  | inr e ↦
      contains-removed host other h
      ∙ ap₂ (λ b d. not b && d) e (apart (sym (ap (λ b. b || contains one h) e) ∙ c))
]

opposite : (a b : Bool) → (a ≡ true → b ≡ false) → b ≡ true → a ≡ false
opposite true b h e = absurd (true≢false (sym e ∙ h refl))
opposite false b h e = refl

run-IsApart-step :
    (tr : Text → Text) (e : Event) (dock : Dock) → IsApart dock → IsApart (handle tr e dock)
unfolding handle refresh_cameras refresh_rail_presence on_camera_clicked IsApart
run-IsApart-step tr (scans found sources) dock a h c = a h c
run-IsApart-step tr (source_signals sources) dock a h c = a h c
run-IsApart-step tr (clicks sources host true) dock a h c =
    noted host dock.reachable_hosts dock.unreachable_hosts h (a h) c
run-IsApart-step tr (clicks sources host false) dock a h c =
    opposite (contains (host ∷ dock.unreachable_hosts) h)
      (contains (removed host dock.reachable_hosts) h)
      (noted host dock.unreachable_hosts dock.reachable_hosts h
        (opposite (contains dock.reachable_hosts h) (contains dock.unreachable_hosts h) (a h)))
      c

-- Whatever the operator clicks on and the discovery finds: no camera counts as one that answered and as one
-- that did not.
run-IsApart :
    (tr : Text → Text) (es : List Event) (dock : Dock) → IsApart dock → IsApart (run tr es dock)
unfolding run
run-IsApart tr [] dock a = a
run-IsApart tr (e ∷ es) dock a = run-IsApart tr es (handle tr e dock) (run-IsApart-step tr e dock a)

cameras-set_cameras :
    (tr : Text → Text) (cs : List Camera) (rail : Rail)
    → same_set (map row_key (cameras_of (set_cameras tr cs rail))) (map row_key (with_host cs))
      ≡ true
unfolding set_cameras
cameras-set_cameras tr cs rail =
    elim (Bool-cases (same_set (map row_key (cameras_of rail)) (map row_key (with_host cs)))) [
      | inl e ↦ rw (e, e) refl
      | inr e ↦
          rw (e, cameras-applied tr rail.added (with_host cs))
            (same_set_refl (map row_key (with_host cs)))
    ]

cameras-set_added_hosts :
    (tr : Text → Text) (added : List Text) (rail : Rail)
    → cameras_of (set_added_hosts tr added rail) ≡ cameras_of rail
unfolding set_added_hosts
cameras-set_added_hosts tr added rail = elim (Bool-cases (same_set rail.added added)) [
  | inl e ↦ rw e refl
  | inr e ↦ rw e (cameras-applied tr added (cameras_of rail))
]

-- After a scan the list shows exactly the cameras of the scan with an address, by address, offline mark and
-- name, whether it was built again or kept.
refresh_cameras-shows :
    (tr : Text → Text) (found : List (Text × Text)) (sources : List Text) (dock : Dock)
    → same_set
        (map row_key (cameras_of (refresh_cameras tr found sources dock).rail))
        (map row_key (with_host (rows_of found sources dock)))
      ≡ true
unfolding refresh_cameras refresh_rail_presence
refresh_cameras-shows tr found sources dock =
    let rows = rows_of found sources dock in
    ap (λ cs. same_set (map row_key cs) (map row_key (with_host rows)))
      (cameras-set_added_hosts tr _ (set_cameras tr rows dock.rail))
    ∙ cameras-set_cameras tr rows dock.rail
