-- ===== src/Dock/Rail.antt =====
-- src/ui/zc_control_dock.cpp: the rail, which lists the cameras, and what the dock shows in it. A camera
-- that the discovery found is its name and its address; `sources` are the names of the sources that OBS
-- holds. `tr` stands for the translated texts. A QSet is a list, of which only the members count.
pub mod Lists
pub mod Sets
pub mod Hosts
pub mod Shown
pub mod Painted
use obs_zcamera.Prelude.{
  ◌≡◌, Bool, true, false, not, ◌&&◌, ◌||◌, List, [], ◌∷◌, ◌++◌, map, Text, codes, is_empty, text_eq,
  contains, if◌then◌else◌, same_flag,
}
use obs_zcamera.Discovery.{text_lt}
use obs_zcamera.Schema.Naming.{camera_source_name, host_from_source_name}

-- `ZcRailCamera`.
pub record Camera : Type 0 where
  pub name : Text
  pub host : Text
  pub offline : Bool

-- A row of the list, with what `applyRow` makes of it.
pub record Item : Type 0 where
  pub camera : Camera
  pub added : Bool
  pub text : Text
  pub tip : Text

pub record Rail : Type 0 where
  pub items : List Item
  pub added : List Text

unfoldable pub row_text : Camera → Text
row_text c = if is_empty c.name then c.host else c.name ++ b' ' ∷ c.host

unfoldable pub row_tip : (Text → Text) → Camera → Bool → Text
row_tip tr c added =
    codes "ZCamera "
    ++ c.host
    ++ (if c.offline then tr (codes "ZCameraPlugin.Dock.OfflineControl") else [])
    ++ (if added
        then tr (codes "ZCameraPlugin.Dock.ClickToRemove")
        else tr (codes "ZCameraPlugin.Dock.ClickToAdd"))

unfoldable pub apply_row : (Text → Text) → List Text → Camera → Item
apply_row tr added c =
    let here = contains added c.host in
    record { camera = c; added = here; text = row_text c; tip = row_tip tr c here }

unfoldable pub row_key : Camera → Text
row_key c = c.host ++ (if c.offline then codes "!" else []) ++ b'|' ∷ c.name

-- `c.host.isEmpty()`: such a camera gets no row.
abbrev pub with_host : List Camera → List Camera
with_host [] = []
with_host (c ∷ cs) = let rest = with_host cs in if is_empty c.host then rest else c ∷ rest

abbrev pub all_in : List Text → List Text → Bool
all_in [] ys = true
all_in (x ∷ xs) ys = contains ys x && all_in xs ys

-- Equality of two sets.
unfoldable pub same_set : List Text → List Text → Bool
same_set xs ys = all_in xs ys && all_in ys xs

abbrev pub cameras_of : Rail → List Camera
cameras_of rail = map (λ item. item.camera) rail.items

unfoldable pub set_cameras : (Text → Text) → List Camera → Rail → Rail
set_cameras tr cameras rail =
    if same_set (map row_key (cameras_of rail)) (map row_key (with_host cameras))
    then rail
    else record rail { items = map (apply_row tr rail.added) (with_host cameras) }

-- The first row of the host, if its mark is another one.
unfoldable pub marked : (Text → Text) → List Text → Text → Bool → List Item → List Item
marked tr added host offline [] = []
marked tr added host offline (item ∷ items) =
    let rest = marked tr added host offline items in
    if not (text_eq item.camera.host host)
    then item ∷ rest
    else (if same_flag item.camera.offline offline
        then item ∷ items
        else apply_row tr added (record item.camera { offline = offline }) ∷ items)

unfoldable pub set_host_offline : (Text → Text) → Text → Bool → Rail → Rail
set_host_offline tr host offline rail = record rail {
  items = marked tr rail.added host offline rail.items;
}

unfoldable pub set_added_hosts : (Text → Text) → List Text → Rail → Rail
set_added_hosts tr added rail =
    if same_set rail.added added
    then rail
    else record { items = map (apply_row tr added) (cameras_of rail); added = added }

-- The dock's side: the rail, and which cameras have answered and which have not.
pub record Dock : Type 0 where
  pub rail : Rail
  pub current_host : Text
  pub reachable_hosts : List Text
  pub unreachable_hosts : List Text

-- `discovered` are the addresses that have a row already.
unfoldable pub discovered_rows : List Text → List Text → List (Text × Text) → List Camera
discovered_rows unreachable discovered [] = []
discovered_rows unreachable discovered ((name, host) ∷ found) =
    let rest = discovered_rows unreachable discovered found in
    let more = discovered_rows unreachable (host ∷ discovered) found in
    if is_empty host || contains discovered host
    then rest
    else record { name = name; host = host; offline = contains unreachable host } ∷ more

unfoldable pub source_hosts : List Text → List Text
source_hosts [] = []
source_hosts (source ∷ sources) =
    let hosts = source_hosts sources in
    let host = host_from_source_name source in
    if is_empty host || contains hosts host then hosts else host ∷ hosts

abbrev pub without : List Text → List Text → List Text
without seen [] = []
without seen (host ∷ hosts) =
    let rest = without seen hosts in if contains seen host then rest else host ∷ rest

-- std::sort.
unfoldable pub insert_sorted : Text → List Text → List Text
insert_sorted host [] = host ∷ []
insert_sorted host (other ∷ hosts) =
    let rest = insert_sorted host hosts in
    if text_lt other host then other ∷ rest else host ∷ other ∷ hosts

unfoldable pub sorted : List Text → List Text
sorted [] = []
sorted (host ∷ hosts) = insert_sorted host (sorted hosts)

abbrev pub hosts_of : List Camera → List Text
hosts_of cameras = map (λ c. c.host) cameras

unfoldable pub source_row : Dock → Text → Camera
source_row dock host = record {
  name = [];
  host = host;
  offline = contains dock.unreachable_hosts host || not (contains dock.reachable_hosts host);
}

unfoldable pub rows_of : List (Text × Text) → List Text → Dock → List Camera
rows_of found sources dock =
    let rows = discovered_rows dock.unreachable_hosts [] found in
    rows ++ map (source_row dock) (sorted (without (hosts_of rows) (source_hosts sources)))

unfoldable pub is_camera_added : List Text → Text → Bool
is_camera_added sources host = not (is_empty host) && contains sources (camera_source_name host)

abbrev pub added_among : List Text → List Text → List Text
added_among sources [] = []
added_among sources (host ∷ hosts) =
    let rest = added_among sources hosts in
    if is_camera_added sources host then host ∷ rest else rest

unfoldable pub refresh_rail_presence : (Text → Text) → List Text → Dock → Dock
refresh_rail_presence tr sources dock = record dock {
  rail = set_added_hosts tr (added_among sources (hosts_of (cameras_of dock.rail))) dock.rail;
}

unfoldable pub refresh_cameras : (Text → Text) → List (Text × Text) → List Text → Dock → Dock
refresh_cameras tr found sources dock =
    refresh_rail_presence tr sources
      (record dock { rail = set_cameras tr (rows_of found sources dock) dock.rail })

-- `QSet::remove`.
abbrev pub removed : Text → List Text → List Text
removed host [] = []
removed host (other ∷ hosts) =
    let rest = removed host hosts in if text_eq other host then rest else other ∷ rest

-- `answers` is the result of `openCamera`.
unfoldable pub on_camera_clicked : (Text → Text) → List Text → Text → Bool → Dock → Dock
on_camera_clicked tr sources host answers dock =
    let noted =
      if answers
      then record dock {
        current_host = host;
        reachable_hosts = host ∷ dock.reachable_hosts;
        unreachable_hosts = removed host dock.unreachable_hosts;
      }
      else record dock {
        current_host = host;
        reachable_hosts = removed host dock.reachable_hosts;
        unreachable_hosts = host ∷ dock.unreachable_hosts;
      } in
    refresh_rail_presence tr sources
      (record noted { rail = set_host_offline tr host (not answers) noted.rail })

pub data Event : Type 0 where
  scans : List (Text × Text) → List Text → Event
  clicks : List Text → Text → Bool → Event
  source_signals : List Text → Event

unfoldable pub handle : (Text → Text) → Event → Dock → Dock
handle tr (scans found sources) dock = refresh_cameras tr found sources dock
handle tr (clicks sources host answers) dock = on_camera_clicked tr sources host answers dock
handle tr (source_signals sources) dock = refresh_rail_presence tr sources dock

unfoldable pub run : (Text → Text) → List Event → Dock → Dock
run tr [] dock = dock
run tr (e ∷ es) dock = run tr es (handle tr e dock)
