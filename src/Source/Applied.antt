-- ===== src/Source/Applied.antt =====
-- The settings of the source.
use obs_zcamera.Prelude.{
  ℕ, ◌≡◌, refl, sym, ap, ◌∙◌, Bool, true, false, ◌||◌, Option, [], ◌∷◌, Text, is_empty, text_eq_iff,
  ◌==◌, ==_iff, Bool-cases, inl, inr,
}
use obs_zcamera.Source.{
  Settings, Source, Thread, no_thread, waiting, ended, ip_from_source_name, or_named, same_flag,
  same_settings, backend_code, without_cuda, start, teardown_connection, join_thread, stop, update,
}

or_named_again :
    (ip : Text) (name : Option Text) → or_named (or_named ip name) name ≡ or_named ip name
unfolding or_named
or_named_again [] name = elim (Bool-cases (is_empty (ip_from_source_name name))) [
  | inl e ↦ rw e refl
  | inr e ↦ rw e refl
]
or_named_again (c ∷ ip) name = refl

same_flag_refl : (b : Bool) → same_flag b b ≡ true
same_flag_refl true = refl
same_flag_refl false = refl

==_refl : (n : ℕ) → (n == n) ≡ true
==_refl n = (==_iff n n).1 refl

same_settings_refl : (s : Settings) → same_settings s s ≡ true
unfolding same_settings
same_settings_refl s =
    rw
      (
        (text_eq_iff s.ip s.ip).1 refl,
        ==_refl (backend_code s.backend),
        ==_refl s.bitrate,
        ==_refl s.sync_mode,
        same_flag_refl s.wait_i_frame,
        same_flag_refl s.low_noise,
      )
      refl

-- What `update` makes of the settings that it gets.
abbrev wanted : Settings → Option Text → Settings
wanted s name = record s { ip = or_named s.ip name; backend = without_cuda s.backend }

module _ {D F : Type 0} where
  pub name-start : (now : ℕ) (q : Source D F) → (start now q).name ≡ q.name
  unfolding start
  name-start now q = elim (Bool-cases (is_empty (or_named q.settings.ip q.name) || q.running)) [
    | inl e ↦ rw e refl
    | inr e ↦ rw e refl
  ]

  pub settings-start :
      (now : ℕ) (q : Source D F)
      → (start now q).settings ≡ record q.settings { ip = or_named q.settings.ip q.name }
  unfolding start
  settings-start now q = elim (Bool-cases (is_empty (or_named q.settings.ip q.name) || q.running)) [
    | inl e ↦ rw e refl
    | inr e ↦ rw e refl
  ]

  name-join_thread : (t : Thread) (q : Source D F) → (join_thread t q).name ≡ q.name
  unfolding join_thread
  name-join_thread no_thread q = refl
  name-join_thread waiting q = refl
  name-join_thread ended q = refl

  pub name-stop : (q : Source D F) → (stop q).name ≡ q.name
  unfolding stop teardown_connection
  name-stop q = name-join_thread q.thread _

  update_same :
      (now : ℕ) (s : Settings) (q : Source D F) → q.settings ≡ wanted s q.name → update now s q ≡ q
  unfolding update
  update_same now s q e =
      let same : same_settings (wanted s q.name) q.settings ≡ true =
        ap (same_settings (wanted s q.name)) e ∙ same_settings_refl (wanted s q.name) in
      rw same refl

  -- Settings that are applied again change nothing: the stream is not started again, also where the address
  -- came from the source's name or the backend was coerced.
  update-update :
      (now later : ℕ) (s : Settings) (q : Source D F)
      → update later s (update now s q) ≡ update now s q
  unfolding update
  update-update now later s q = elim (Bool-cases (same_settings (wanted s q.name) q.settings)) [
    | inl same ↦ rw (same, same) refl
    | inr changed ↦
        let q' = record (stop q) { settings = wanted s q.name } in
        let name = name-start now q' ∙ name-stop q in
        let settings : (start now q').settings ≡ wanted s (start now q').name =
          settings-start now q'
          ∙ ap (λ ip. record (wanted s q.name) { ip = ip })
              (ap (or_named (or_named s.ip q.name)) (name-stop q) ∙ or_named_again s.ip q.name)
          ∙ ap (wanted s) (sym name) in
        rw changed (update_same later s (start now q') settings)
  ]
