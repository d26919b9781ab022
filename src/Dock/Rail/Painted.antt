-- ===== src/Dock/Rail/Painted.antt =====
-- The rows as they are drawn.
use obs_zcamera.Prelude.{
  ◌≡◌, refl, sym, ap, ap₂, ◌∙◌, Bool, true, false, ◌&&◌, ◌||◌, List, [], ◌∷◌, map, Text, text_eq,
  text_eq_refl, contains, Bool-cases, inl, inr, same_flag,
}
use obs_zcamera.Dock.Rail.Sets.{
  or_left_true, and_true_right, same_set-contains, same_set_refl, contains-added_among,
}
use obs_zcamera.Dock.Rail.{
  Camera, Item, Rail, row_text, row_tip, apply_row, row_key, with_host, same_set, cameras_of,
  set_cameras, marked, set_host_offline, set_added_hosts, Dock, hosts_of, is_camera_added,
  added_among, refresh_rail_presence, rows_of, refresh_cameras, on_camera_clicked, Event, scans,
  clicks, source_signals, handle, run,
}

-- A row as it is drawn, with the mark of a source or without it.
abbrev drawn : (Text → Text) → Camera → Bool → Item
drawn tr c here = record { camera = c; added = here; text = row_text c; tip = row_tip tr c here }

apply_row-drawn :
    (tr : Text → Text) (added : List Text) (c : Camera)
    → apply_row tr added c ≡ drawn tr c (contains added c.host)
unfolding apply_row
apply_row-drawn tr added c = refl

-- What `applyRow` makes of the cameras of the rows.
unfoldable pub IsPainted : (Text → Text) → Rail → Type 0
IsPainted tr rail = rail.items ≡ map (apply_row tr rail.added) (cameras_of rail)

pub cameras-applied :
    (tr : Text → Text) (added : List Text) (cs : List Camera)
    → map (λ item. item.camera) (map (apply_row tr added) cs) ≡ cs
unfolding apply_row
cameras-applied tr added [] = refl
cameras-applied tr added (c ∷ cs) = ap (◌∷◌ c) (cameras-applied tr added cs)

painted-applied :
    (tr : Text → Text) (added : List Text) (cs : List Camera)
    → map (apply_row tr added) cs
      ≡ map (apply_row tr added) (map (λ item. item.camera) (map (apply_row tr added) cs))
painted-applied tr added cs = sym (ap (map (apply_row tr added)) (cameras-applied tr added cs))

set_cameras-IsPainted :
    (tr : Text → Text) (cs : List Camera) (rail : Rail)
    → IsPainted tr rail
    → IsPainted tr (set_cameras tr cs rail)
unfolding set_cameras IsPainted
set_cameras-IsPainted tr cs rail p =
    elim (Bool-cases (same_set (map row_key (cameras_of rail)) (map row_key (with_host cs)))) [
      | inl e ↦ rw e p
      | inr e ↦ rw e (painted-applied tr rail.added (with_host cs))
    ]

set_added_hosts-IsPainted :
    (tr : Text → Text) (added : List Text) (rail : Rail)
    → IsPainted tr rail
    → IsPainted tr (set_added_hosts tr added rail)
unfolding set_added_hosts IsPainted
set_added_hosts-IsPainted tr added rail p = elim (Bool-cases (same_set rail.added added)) [
  | inl e ↦ rw e p
  | inr e ↦ rw e (painted-applied tr added (cameras_of rail))
]

∷-injective : (x y : Item) (xs ys : List Item) → (x ∷ xs) ≡ (y ∷ ys) → (x ≡ y) × (xs ≡ ys)
∷-injective x y xs ys e =
    (ap (λ l. elim l [ [] ↦ x | z ∷ zs ↦ z ]) e, ap (λ l. elim l [ [] ↦ xs | z ∷ zs ↦ zs ]) e)

applied_again :
    (tr : Text → Text) (added : List Text) (c : Camera)
    → apply_row tr added c ≡ apply_row tr added (apply_row tr added c).camera
unfolding apply_row
applied_again tr added c = refl

marked-painted :
    (tr : Text → Text) (added : List Text) (host : Text) (offline : Bool) (items : List Item)
    → items ≡ map (apply_row tr added) (map (λ item. item.camera) items)
    → marked tr added host offline items
      ≡ map (apply_row tr added) (map (λ item. item.camera) (marked tr added host offline items))
unfolding marked
marked-painted tr added host offline [] p = refl
marked-painted tr added host offline (item ∷ items) p =
    let parts = ∷-injective item (apply_row tr added item.camera) items _ p in
    let rest = marked-painted tr added host offline items parts.1 in
    elim (Bool-cases (text_eq item.camera.host host)) [
      | inl here ↦ elim (Bool-cases (same_flag item.camera.offline offline)) [
        | inl same ↦ rw (here, same) p
        | inr other ↦ rw (here, other) (ap₂ ◌∷◌ (applied_again tr added _) parts.1)
      ]
      | inr away ↦ rw away (ap₂ ◌∷◌ parts.0 rest)
    ]

-- The row of a camera, which has a mark if OBS holds its source.
abbrev pub fresh_row : (Text → Text) → List Text → Camera → Item
fresh_row tr sources c = drawn tr c (is_camera_added sources c.host)

fresh_rows :
    (tr : Text → Text) (sources added : List Text) (cs : List Camera)
    → ((h : Text) → contains (hosts_of cs) h ≡ true → contains added h ≡ is_camera_added sources h)
    → map (apply_row tr added) cs ≡ map (fresh_row tr sources) cs
unfolding contains
fresh_rows tr sources added [] k = refl
fresh_rows tr sources added (c ∷ cs) k =
    let here = k c.host (ap (λ b. b || contains (hosts_of cs) c.host) (text_eq_refl c.host)) in
    ap₂ ◌∷◌ (apply_row-drawn tr added c ∙ ap (drawn tr c) here)
      (fresh_rows tr sources added cs (λ h e. k h (or_left_true (text_eq c.host h) _ e)))

refreshed :
    (tr : Text → Text) (sources : List Text) (cs : List Camera) (added : List Text)
    → same_set added (added_among sources (hosts_of cs)) ≡ true
    → map (apply_row tr added) cs ≡ map (fresh_row tr sources) cs
refreshed tr sources cs added e = fresh_rows tr sources added cs (λ h c.
    same_set-contains added (added_among sources (hosts_of cs)) h e
    ∙ contains-added_among sources (hosts_of cs) h
    ∙ ap (λ b. is_camera_added sources h && b) c
    ∙ and_true_right (is_camera_added sources h))

presence-rows :
    (tr : Text → Text) (sources : List Text) (rail : Rail)
    → IsPainted tr rail
    → (set_added_hosts tr (added_among sources (hosts_of (cameras_of rail))) rail).items
      ≡ map (fresh_row tr sources) (cameras_of rail)
unfolding set_added_hosts IsPainted
presence-rows tr sources rail p =
    let now = added_among sources (hosts_of (cameras_of rail)) in
    elim (Bool-cases (same_set rail.added now)) [
      | inl e ↦ rw e (p ∙ refreshed tr sources (cameras_of rail) rail.added e)
      | inr e ↦ rw e (refreshed tr sources (cameras_of rail) now (same_set_refl now))
    ]

cameras-fresh_rows :
    (tr : Text → Text) (sources : List Text) (cs : List Camera)
    → map (λ item. item.camera) (map (fresh_row tr sources) cs) ≡ cs
cameras-fresh_rows tr sources [] = refl
cameras-fresh_rows tr sources (c ∷ cs) = ap (◌∷◌ c) (cameras-fresh_rows tr sources cs)

-- The same of the rows that are there then.
refresh-rows :
    (tr : Text → Text) (sources : List Text) (dock : Dock)
    → IsPainted tr dock.rail
    → (refresh_rail_presence tr sources dock).rail.items
      ≡ map (fresh_row tr sources) (cameras_of (refresh_rail_presence tr sources dock).rail)
unfolding refresh_rail_presence
refresh-rows tr sources dock p =
    let e = presence-rows tr sources dock.rail p in
    e
    ∙ ap (map (fresh_row tr sources)) (
        sym
          (ap (map (λ item. item.camera)) e ∙ cameras-fresh_rows tr sources (cameras_of dock.rail)))

set_host_offline-IsPainted :
    (tr : Text → Text) (host : Text) (offline : Bool) (rail : Rail)
    → IsPainted tr rail
    → IsPainted tr (set_host_offline tr host offline rail)
unfolding set_host_offline IsPainted
set_host_offline-IsPainted tr host offline rail p =
    marked-painted tr rail.added host offline rail.items p

-- The sources that OBS holds at an event.
abbrev pub sources_at : Event → List Text
sources_at (scans found sources) = sources
sources_at (clicks sources host answers) = sources
sources_at (source_signals sources) = sources

handle-IsPainted :
    (tr : Text → Text) (e : Event) (dock : Dock)
    → IsPainted tr dock.rail
    → IsPainted tr (handle tr e dock).rail
unfolding handle refresh_cameras refresh_rail_presence on_camera_clicked
handle-IsPainted tr (scans found sources) dock p =
    set_added_hosts-IsPainted tr _ _
      (set_cameras-IsPainted tr (rows_of found sources dock) dock.rail p)
handle-IsPainted tr (source_signals sources) dock p = set_added_hosts-IsPainted tr _ _ p
handle-IsPainted tr (clicks sources host true) dock p =
    set_added_hosts-IsPainted tr _ _ (set_host_offline-IsPainted tr host false dock.rail p)
handle-IsPainted tr (clicks sources host false) dock p =
    set_added_hosts-IsPainted tr _ _ (set_host_offline-IsPainted tr host true dock.rail p)

run-IsPainted :
    (tr : Text → Text) (es : List Event) (dock : Dock)
    → IsPainted tr dock.rail
    → IsPainted tr (run tr es dock).rail
unfolding run
run-IsPainted tr [] dock p = p
run-IsPainted tr (e ∷ es) dock p =
    run-IsPainted tr es (handle tr e dock) (handle-IsPainted tr e dock p)

handle-rows :
    (tr : Text → Text) (e : Event) (dock : Dock)
    → IsPainted tr dock.rail
    → (handle tr e dock).rail.items
      ≡ map (fresh_row tr (sources_at e)) (cameras_of (handle tr e dock).rail)
unfolding handle refresh_cameras on_camera_clicked
handle-rows tr (scans found sources) dock p =
    refresh-rows tr sources _ (set_cameras-IsPainted tr (rows_of found sources dock) dock.rail p)
handle-rows tr (source_signals sources) dock p = refresh-rows tr sources dock p
handle-rows tr (clicks sources host true) dock p =
    refresh-rows tr sources _ (set_host_offline-IsPainted tr host false dock.rail p)
handle-rows tr (clicks sources host false) dock p =
    refresh-rows tr sources _ (set_host_offline-IsPainted tr host true dock.rail p)

-- A dock whose list was painted, as the empty one is: after any history and one more scan, click or signal of
-- OBS, each row has the text, the tip and the mark of its camera, and the mark says whether OBS holds the
-- source of that camera at that moment.
pub run-rows :
    (tr : Text → Text) (es : List Event) (e : Event) (dock : Dock)
    → IsPainted tr dock.rail
    → (handle tr e (run tr es dock)).rail.items
      ≡ map (fresh_row tr (sources_at e)) (cameras_of (handle tr e (run tr es dock)).rail)
run-rows tr es e dock p = handle-rows tr e (run tr es dock) (run-IsPainted tr es dock p)
