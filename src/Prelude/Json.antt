-- ===== src/Prelude/Json.antt =====
-- What the source uses of Qt's QJson classes, as an interface: Qt is not part of the repository.
-- `V` stands for QJsonValue (a QJsonObject is such a value too) and `D` for double.
use obs_zcamera.Prelude.Strings.{Text}
use obs_zcamera.Prelude.Int.{ℤ}
use mathlib.Core.Bool.{Bool}
use mathlib.Core.Option.{Option}
use mathlib.Core.List.{List}

pub record Json (V D : Type 0) : Type 0 where
  -- `QJsonDocument::fromJson` with no error and a document that is an object.
  pub parse_object : Text → Option V
  -- The empty object `QJsonObject()`.
  pub empty : V
  -- `o.contains(key)`.
  pub has : V → Text → Bool
  -- `o.value(key)`; a value of the kind "undefined" where the key is missing.
  pub field : V → Text → V
  pub is_string : V → Bool
  pub is_double : V → Bool
  pub is_bool : V → Bool
  -- `v.toString()`, `v.toDouble()`, `v.toBool()`, `v.toArray()`.
  pub to_text : V → Text
  pub to_double : V → D
  pub to_bool : V → Bool
  pub to_array : V → List V
  -- `v.toInt(d)`: `d` where the value is no integer.
  pub to_int : V → ℤ → ℤ
  -- `QString::number(d)` of a double.
  pub double_text : D → Text
