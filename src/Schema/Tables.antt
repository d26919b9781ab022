-- ===== src/Schema/Tables.antt =====
-- The tables of zc_settings_schema.cpp: the catalogs, the dependencies and the lists of keys.
use Prim.Native.String.{String}
use obs_zcamera.Prelude.{
  ◌≡◌, refl, Bool, true, ◌&&◌, ◌||◌, List, [], ◌∷◌, ◌++◌, Text, codes, texts, contains, text_eq,
  text_eq→eq, arith, if◌then◌else◌,
}

pub record CatalogDef : Type 0 where
  pub id : Text
  pub parent : Text
  pub keys : List Text

pub record DependencyRule : Type 0 where
  pub src_keys : List Text
  pub target_catalogs : List Text

abbrev catalog : String → String → List String → CatalogDef
catalog id parent keys = record { id = codes id; parent = codes parent; keys = texts keys }

-- `makeCatalogs`.
unfoldable pub catalogs : List CatalogDef
catalogs =
    catalog "exposure" "" (
      "ev_choice" ∷ "flicker" ∷ "meter_mode" ∷ "iris" ∷ "iso" ∷ "min_iso" ∷ "max_iso" ∷ "iso_ctrl"
      ∷ "shutter_angle_ctrl" ∷ "sht_operation" ∷ "eND" ∷ "lock_ae_in_rec" ∷ "ae_speed" ∷ "bl_comp"
      ∷ [])
    ∷ catalog "wb" "" (
        "wb" ∷ "wb_priority" ∷ "lock_awb_in_rec" ∷ "mwb" ∷ "tint" ∷ "mwb_r" ∷ "mwb_g" ∷ "mwb_b"
        ∷ [])
    ∷ catalog "lens" "" (
        "focus" ∷ "af_mode" ∷ "caf" ∷ "caf_sens" ∷ "af_area" ∷ "live_caf" ∷ "mf_mag"
        ∷ "mf_recording" ∷ "af_speed" ∷ "af_adjust_with_ptz" ∷ "zoom_mode" ∷ "lens_focus_pos"
        ∷ "lens_zoom_pos" ∷ "fz_speed" ∷ [])
    ∷ catalog "image" "" (
        "lut" ∷ "sharpness" ∷ "noise_reduction" ∷ "luma_level" ∷ "brightness" ∷ "contrast"
        ∷ "saturation" ∷ "hue" ∷ [])
    ∷ catalog "record" "" (
        "resolution" ∷ "project_fps" ∷ "vfr_ctrl" ∷ "movvfr" ∷ "record_file_format" ∷ "rotation"
        ∷ "split_duration" ∷ "rec_fps" ∷ "preroll" ∷ "video_tl_interval" ∷ "record_meta"
        ∷ "camera_id" ∷ "reelname" ∷ [])
    ∷ catalog "video" "" (
        "video_encoder" ∷ "bitrate_level" ∷ "record_mode" ∷ "compose_mode" ∷ "rec_proxy_file"
        ∷ "crop_sensor" ∷ "low_jello" ∷ "photo_q" ∷ "eis_on_off" ∷ "vid_rot" ∷ [])
    ∷ catalog "audio" "" (
        "primary_audio" ∷ "audio_channel" ∷ "audio_phantom_power" ∷ "audio_level_display"
        ∷ "ain_gain_type" ∷ "audio_input_level" ∷ "audio_input_gain" ∷ "audio_noise_reduction"
        ∷ "audio_in_l_gain" ∷ "audio_in_r_gain" ∷ "audio_output_gain" ∷ [])
    ∷ catalog "system" "" (
        "hdmi_fmt" ∷ "hdmi_osd" ∷ "use_edid" ∷ "osd_layout" ∷ "led" ∷ "desqueeze"
        ∷ "usb_device_role" ∷ "tally_on" ∷ "ir" ∷ "ir_id" ∷ "color_bar_enable" ∷ "genlock" ∷ "sdi"
        ∷ "3g_sdi_mode" ∷ "visca_enable" ∷ "visca_id" ∷ "visca_baud_rate" ∷ "lcd_backlight"
        ∷ "gl_shf_coarse" ∷ "gl_shf_fine" ∷ [])
    ∷ catalog "network" "system" ("wifi" ∷ "wifi_channel" ∷ [])
    ∷ catalog "security" "system" ("http_auth" ∷ "https_on" ∷ "https_cert_source" ∷ [])
    ∷ catalog "multicam" "system" ("union_ae" ∷ "union_awb" ∷ "ezlink_mode" ∷ "ezlink_trigger" ∷ [])
    ∷ catalog "ptz" "" (
        "pt_speedmode" ∷ "ptz_flip" ∷ "ptz_limit" ∷ "ptz_preset_mode" ∷ "ptz_speed_mode"
        ∷ "freeze_during_preset" ∷ "pt_pwr_pos" ∷ "pt_priv_mode" ∷ "preset_adjust_speed_with_zoom"
        ∷ "pt_speed_with_zoom_pos" ∷ "ptz_common_speed_unit" ∷ "ptz_common_speed"
        ∷ "ptz_common_time" ∷ [])
    ∷ []

abbrev rule : List String → List String → DependencyRule
rule src targets = record { src_keys = texts src; target_catalogs = texts targets }

-- `makeDeps`.
unfoldable pub dependency_rules : List DependencyRule
dependency_rules =
    rule ("focus" ∷ []) ("lens" ∷ [])
    ∷ rule
        ("caf" ∷ "caf_sens" ∷ "live_caf" ∷ "af_mode" ∷ "af_area" ∷ "af_speed" ∷ "af_adjust_with_ptz"
          ∷ "mf_mag" ∷ "mf_recording" ∷ [])
        ("lens" ∷ [])
    ∷ rule
        ("iso" ∷ "iso_ctrl" ∷ "min_iso" ∷ "max_iso" ∷ "sht_operation" ∷ "shutter_angle_ctrl" ∷ [])
        ("exposure" ∷ [])
    ∷ rule ("lut" ∷ []) ("exposure" ∷ [])
    ∷ rule ("compose_mode" ∷ "movvfr" ∷ "video_encoder" ∷ "record_mode" ∷ [])
        ("record" ∷ "video" ∷ [])
    ∷ rule ("bitrate_level" ∷ []) ("video" ∷ [])
    ∷ rule ("resolution" ∷ "project_fps" ∷ []) ("record" ∷ [])
    ∷ rule ("vfr_ctrl" ∷ []) ("record" ∷ [])
    ∷ rule ("audio_channel" ∷ []) ("audio" ∷ [])
    ∷ rule ("wb" ∷ "mwb" ∷ "tint" ∷ []) ("wb" ∷ [])
    ∷ rule ("wifi" ∷ []) ("network" ∷ [])
    ∷ rule ("https_on" ∷ []) ("security" ∷ [])
    ∷ []

unfoldable pub per_keys : List Text
per_keys = texts (
    "mwb" ∷ "tint" ∷ "mwb_r" ∷ "mwb_g" ∷ "mwb_b" ∷ "brightness" ∷ "contrast" ∷ "saturation" ∷ "hue"
    ∷ "lens_focus_pos" ∷ "lens_zoom_pos" ∷ "fz_speed" ∷ "audio_in_l_gain" ∷ "audio_in_r_gain"
    ∷ "audio_output_gain" ∷ "lcd_backlight" ∷ "gl_shf_coarse" ∷ "gl_shf_fine" ∷ "video_tl_interval"
    ∷ "record_meta" ∷ "camera_id" ∷ "reelname" ∷ "ptz_common_speed" ∷ "ptz_common_time"
    ∷ "assitool_zera_th1" ∷ "assitool_zera_th2" ∷ [])

unfoldable pub boolean_keys : List Text
boolean_keys = texts (
    "lock_ae_in_rec" ∷ "lock_awb_in_rec" ∷ "mf_mag" ∷ "mf_recording" ∷ "af_adjust_with_ptz"
    ∷ "low_jello" ∷ "eis_on_off" ∷ "rec_proxy_file" ∷ "hdmi_osd" ∷ "use_edid" ∷ "tally_on"
    ∷ "color_bar_enable" ∷ "genlock" ∷ "visca_enable" ∷ "auto_off" ∷ "auto_standby" ∷ "wifi"
    ∷ "https_on" ∷ "union_ae" ∷ "union_awb" ∷ "ezlink_mode" ∷ "ezlink_trigger" ∷ "tc_count_up"
    ∷ "tc_drop_frame" ∷ [])

-- `hudKeys`.
unfoldable pub hud_keys : List Text
hud_keys = texts (
    "sht_operation" ∷ "live_ae_shutter" ∷ "live_ae_shutter_angle" ∷ "live_ae_iso" ∷ "ev" ∷ "mwb"
    ∷ "live_ae_fno" ∷ "project_fps" ∷ "resolution" ∷ "temp" ∷ [])

-- `isPerKey` and `isBooleanSetting`: a search through the list.
unfoldable pub is_per_key : Text → Bool
is_per_key key = contains per_keys key

unfoldable pub is_boolean_setting : Text → Bool
is_boolean_setting key = contains boolean_keys key

-- `catalogRequiresPtz`.
unfoldable pub catalog_requires_ptz : Text → Bool
catalog_requires_ptz id = text_eq id (codes "ptz")

-- The keys of the first catalog of that name, as the settings engine looks them up.
unfoldable pub keys_of : Text → List CatalogDef → List Text
keys_of id [] = []
keys_of id (c ∷ cs) = if text_eq c.id id then c.keys else keys_of id cs

-- The catalogs that are read again after a write of a key, as the engine walks the rules.
unfoldable pub dependents : Text → List DependencyRule → List Text
dependents key [] = []
dependents key (r ∷ rs) =
    let rest = dependents key rs in
    if contains r.src_keys key then r.target_catalogs ++ rest else rest

abbrev pub ids : List CatalogDef → List Text
ids [] = []
ids (c ∷ cs) = c.id ∷ ids cs

-- Every text of the first list is in the second.
abbrev all_in : List Text → List Text → Bool
all_in [] ys = true
all_in (x ∷ xs) ys = contains ys x && all_in xs ys

abbrev targets : List DependencyRule → List Text
targets [] = []
targets (r ∷ rs) = r.target_catalogs ++ targets rs

contains-all_in :
    (xs ys : List Text) (s : Text)
    → all_in xs ys ≡ true
    → contains xs s ≡ true
    → contains ys s ≡ true
unfolding contains
contains-all_in (x ∷ xs) ys s h c = ground (arith, text_eq→eq x s, contains-all_in xs ys s)
contains-all_in [] ys s h c = cc c

contains-append :
    (xs ys : List Text) (s : Text) → contains (xs ++ ys) s ≡ (contains xs s || contains ys s)
unfolding contains
contains-append [] ys s = refl
contains-append (x ∷ xs) ys s = ground (arith, contains-append xs ys s)

dependents-targets :
    (key id : Text) (rs : List DependencyRule)
    → contains (dependents key rs) id ≡ true
    → contains (targets rs) id ≡ true
unfolding dependents
dependents-targets key id [] h = h
dependents-targets key id (r ∷ rs) h = ground (
  arith,
  contains-append r.target_catalogs (targets rs) id,
  contains-append r.target_catalogs (dependents key rs) id,
  dependents-targets key id rs,
)

targets_listed : all_in (targets dependency_rules) (ids catalogs) ≡ true
unfolding dependency_rules catalogs contains text_eq
targets_listed = refl

-- Whatever key is written, the catalogs that are read again are catalogs of the table.
dependents-listed :
    (key id : Text)
    → contains (dependents key dependency_rules) id ≡ true
    → contains (ids catalogs) id ≡ true
dependents-listed key id h =
    contains-all_in (targets dependency_rules) (ids catalogs) id targets_listed
      (dependents-targets key id dependency_rules h)
