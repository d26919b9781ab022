-- ===== src/Source/Stall.antt =====
-- A stream that stalls.
use obs_zcamera.Prelude.{
  ℕ, ◌+◌, ◌-◌, ◌*◌, ◌/◌, ◌%◌, ◌^◌, ◌≤◌, ◌<◌, ◌≡◌, refl, ap, ◌∙◌, true, false, not, ◌||◌, Option,
  none, some, Text, is_empty, ltb, ◌==◌, if◌then◌else◌, arith, le→not_ltb,
}
use obs_zcamera.Video.{install_decoder}
use obs_zcamera.Video
use obs_zcamera.Source.{
  Source, waiting, or_named, start, teardown_connection, on_disconnected, watchdog, reconnect_now,
  wake_thread, wake,
}
use obs_zcamera.Source.Connection.{is_waiting, on_disconnected-waits}

or_named_given : (ip : Text) (name : Option Text) → is_empty ip ≡ false → or_named ip name ≡ ip
unfolding or_named
or_named_given ip name e = rw e refl

module _ {D F : Type 0} where
  abbrev pub Rebuilt : ℕ → Source D F → Source D F → Type 0
  Rebuilt later q q' =
      (q'.client ≡ some (q.settings.ip, q.settings.bitrate * 1024 % 2 ^ 32))
      × (q'.running ≡ true)
      × (q'.started_ns ≡ later)
      × (q'.video.decoder ≡ none)
      × (q'.video.bit_depth_known ≡ false)
      × (q'.video.force_software ≡ false)

  watchdog-fires :
      (now : ℕ) (q : Source D F)
      → q.running ≡ true
      → 0 < q.last_packet_ns
      → q.last_packet_ns + 10000000000 ≤ now
      → now < 2 ^ 64
      → watchdog now q ≡ on_disconnected (record q { last_packet_ns = now })
  unfolding watchdog
  watchdog-fires now q r some_packet late fits =
      let stamped : (q.last_packet_ns == 0) ≡ false = ground arith in
      let silent : ltb ((now + 2 ^ 64 - q.last_packet_ns) % 2 ^ 64 / 1000000) 10000 ≡ false =
        le→not_ltb _ _ (omega arith) in
      let since = if q.last_packet_ns == 0 then q.started_ns else q.last_packet_ns in
      let on : (not q.running
            || (since == 0 || ltb ((now + 2 ^ 64 - since) % 2 ^ 64 / 1000000) 10000))
          ≡ false =
        rw (r, stamped, stamped, silent) refl in
      ap (λ b. if b then q else on_disconnected (record q { last_packet_ns = now })) on

  wake-Rebuilt :
      (later : ℕ) (q : Source D F)
      → q.running ≡ true
      → q.stopping ≡ false
      → is_empty q.settings.ip ≡ false
      → Rebuilt later q (wake_thread later waiting q)
  unfolding wake_thread reconnect_now teardown_connection start Video.start install_decoder
  wake-Rebuilt later q r s ip =
      rw (r, s, or_named_given q.settings.ip q.name ip, ip) (refl, refl, refl, refl, refl, refl)

  -- A running source whose last packet is ten seconds old or older, and which neither stops nor waits to
  -- reconnect: at the next check of the watchdog the reconnect thread starts to wait, and when its wait is
  -- over the source has a new client at its address and a new clock, and neither the decoder nor the bit
  -- depth of the old connection.
  pub watchdog-Rebuilt :
      (now later : ℕ) (q : Source D F)
      → q.running ≡ true
      → q.stopping ≡ false
      → is_empty q.settings.ip ≡ false
      → q.reconnect_joined ≡ true
      → is_waiting q.thread ≡ false
      → 0 < q.last_packet_ns
      → q.last_packet_ns + 10000000000 ≤ now
      → now < 2 ^ 64
      → Rebuilt later q (wake later (watchdog now q))
  unfolding wake
  watchdog-Rebuilt now later q r s ip j w p late fits =
      let stamped = record q { last_packet_ns = now } in
      let waits = watchdog-fires now q r p late fits ∙ on_disconnected-waits stamped r j w in
      rw waits
        (wake-Rebuilt later (record stamped { reconnect_joined = false; thread = waiting }) r s ip)
