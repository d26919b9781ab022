-- ===== src/Tests/Settings.antt =====
-- The settings engine and the schema at concrete replies.
use obs_zcamera.Prelude.{ℕ, ◌≡◌, ◌<◌, ap, true, some, [], ◌∷◌, Text, codes, decimal}
use obs_zcamera.Prelude.Int.{pos}
use obs_zcamera.Engine.{Engine, value, on_batch_reply}
use obs_zcamera.Engine.Coherent.{told, told-on_batch_reply}
use obs_zcamera.Tests.Sample.{json, number-decimal, read_int}

abbrev cache : Engine ℕ
cache = record {
  has_transport = true;
  values = (codes "iso", codes "100") ∷ [];
  defs = [];
  group_keys = [];
}

abbrev batch_body : Text
batch_body = codes "{\"cfgs\":[\"key\":iso,\"value\":200;\"key\":iris,\"value\":4]}"

told-on_batch_reply_example :
    told
      (codes "iso")
      (value (codes "iso") cache)
      (on_batch_reply json 0 (codes "exposure") batch_body cache).1
    ≡ value (codes "iso") (on_batch_reply json 0 (codes "exposure") batch_body cache).0
told-on_batch_reply_example =
    told-on_batch_reply json 0 (codes "iso") (codes "exposure") batch_body cache

read_int-decimal : (n : ℕ) → n < 2147483648 → read_int (decimal n) ≡ some (pos n)
read_int-decimal n h = ap (λ k. some (pos k)) (number-decimal n)
