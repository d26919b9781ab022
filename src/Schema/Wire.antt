-- ===== src/Schema/Wire.antt =====
-- The requests of zc_settings_schema.cpp. A QUrlQuery is its list of items, before encoding.
-- `to_int` is QString::toInt: `none` where it is not ok.
pub mod Resolution
use obs_zcamera.Prelude.{
  ℕ, zero, suc, ◌+◌, ◌-◌, ◌≤◌, ◌<◌, ◌≡◌, ◌≢◌, refl, sym, ap, ap₂, ◌∙◌, ◌⊎◌, inl, inr, Bool, true,
  false, not, ◌&&◌, ◌||◌, Option, none, some, List, [], ◌∷◌, ◌++◌, Text, codes, contains, index_of,
  index_of_text, length, take, drop, is_empty, right_justified, decimal, arith, if◌then◌else◌, leb,
  ltb, ◌==◌, lower, text_eq, ◌^◌,
}
use obs_zcamera.Prelude.Int.{ℤ, pos, negsuc, int_text, is_nonneg}
use obs_zcamera.Prelude.Json.{Json}

abbrev pub Query : Type 0
Query = List (Text × Text)

-- `presetQuery`.
unfoldable pub preset_query : Text → ℤ → Query → Query
unfolding int_text
preset_query action index extra = (codes "action", action) ∷ (codes "index", int_text index) ∷ extra

-- `ptraceQuery`: an index below 0 is left out.
unfoldable pub ptrace_query : Text → ℤ → Query → Query
unfolding int_text
ptrace_query action index extra =
    if is_nonneg index
    then (codes "action", action) ∷ (codes "index", int_text index) ∷ extra
    else (codes "action", action) ∷ extra

-- `streamSettingQuery`.
unfoldable pub stream_setting_query : Text → Query → Query
stream_setting_query index params =
    (codes "action", codes "query") ∷ (codes "index", index) ∷ params

-- `presetThumbnailPath` and `ptraceThumbnailPath`, for an index that is not negative.
unfoldable pub preset_thumbnail_path : ℕ → Text
unfolding right_justified decimal
preset_thumbnail_path index =
    codes "/app_data/preset/thm_"
    ++ (right_justified 3 b'0' (decimal index) ++ codes ".jpg?act=thm")

unfoldable pub ptrace_thumbnail_path : ℕ → Text
unfolding right_justified decimal
ptrace_thumbnail_path index =
    codes "/app_data/trace/thm_" ++ (right_justified 3 b'0' (decimal index) ++ codes ".jpg?act=thm")

-- A pair of positive numbers, as the query items that select it.
abbrev size_params : Option ℤ → Option ℤ → Query
size_params (some (pos (suc w))) (some (pos (suc h))) =
    (codes "width", decimal (suc w)) ∷ (codes "height", decimal (suc h)) ∷ []
size_params _ _ = []

module _ (to_int : Text → Option ℤ) where
  -- `resolutionParams`.
  unfoldable pub resolution_params : Text → Query
  resolution_params resolution = elim (index_of b'x' resolution) [
    | none ↦ []
    | some zero ↦ []
    | some (suc x) ↦
        if leb (length resolution) (suc x + 1)
        then []
        else size_params (to_int (take (suc x) resolution)) (to_int (drop (suc x + 1) resolution))
  ]

module _ {V D : Type 0} (json : Json V D) where
  -- `isStreamDocument`.
  unfoldable pub is_stream_document : V → Bool
  is_stream_document doc = not (is_empty (json.to_text (json.field doc (codes "streamIndex"))))

  -- `model`, or else `cameraName`.
  unfoldable pub model_name : V → Text
  model_name info =
      let model = json.to_text (json.field info (codes "model")) in
      if is_empty model then json.to_text (json.field info (codes "cameraName")) else model

  -- `cameraSupportsPtz`.
  unfoldable pub camera_supports_ptz : V → Bool
  unfolding model_name
  camera_supports_ptz info =
      json.to_bool (json.field (json.field info (codes "feature")) (codes "lens_ctrl_ptz"))
      || (elim (index_of_text (codes "ptz") (lower (model_name info))) [
        | none ↦ false
        | some at ↦ true
      ])
