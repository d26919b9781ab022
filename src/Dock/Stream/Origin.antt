-- ===== src/Dock/Stream/Origin.antt =====
-- Which camera and which index the stream bar shows.
use obs_zcamera.Prelude.{
  ℕ, ◌≡◌, refl, sym, ap, ◌∙◌, Bool, true, false, not, Option, none, some, List, [], ◌∷◌, Text,
  ==_iff, if◌then◌else◌, true_of_not, or-left, Bool-cases, inl, inr, true≢false,
}
use obs_zcamera.Dock.Stream.{
  Index, app_stream1, stream1, Panel, Request, write, is_client, set_client, paint, on_discovered,
  on_document, write_stream_params, Event, selects, connects, loads, writes, discovered, answered,
  handle, run,
}

-- No document is shown, or one that was read from this client.
abbrev CameFrom : {J : Type 0} → Option J → Option (ℕ × Index) → Option ℕ → Type 0
CameFrom none none client = Unit
CameFrom none (some from) client = true ≡ false
CameFrom (some doc) none client = true ≡ false
CameFrom (some doc) (some (c, index)) client = client ≡ some c

is_client-some : (o : Option ℕ) (c : ℕ) → is_client o c ≡ true → o ≡ some c
is_client-some none c e = absurd (true≢false (sym e))
is_client-some (some d) c e = ap some (sym ((==_iff c d).0 e))

module _ {J : Type 0} where
  -- The bar shows no document, or one that the client of the panel sent.
  unfoldable pub IsOwn : Panel J → Type 0
  IsOwn panel = CameFrom panel.stream_doc panel.origin panel.client

  pick-IsOwn :
      (b : Bool) (x y : Panel J)
      → (b ≡ true → IsOwn x)
      → (b ≡ false → IsOwn y)
      → IsOwn (if b then x else y)
  pick-IsOwn true x y h k = h refl
  pick-IsOwn false x y h k = k refl

  paint-IsOwn :
      (c : ℕ) (index : Index) (doc : J) (panel : Panel J)
      → not (is_client panel.client c) ≡ false
      → IsOwn (paint c index doc panel)
  unfolding paint IsOwn
  paint-IsOwn c index doc panel e =
      is_client-some panel.client c (true_of_not (is_client panel.client c) e)

  indexed-IsOwn :
      (o : Option Index) (panel : Panel J) → IsOwn panel → IsOwn (record panel { stream_index = o })
  unfolding IsOwn
  indexed-IsOwn o panel h = h

  pick-0 :
      (b : Bool) (x y : Panel J × List Request) → (if b then x else y).0 ≡ (if b then x.0 else y.0)
  pick-0 true x y = refl
  pick-0 false x y = refl

  on_discovered-IsOwn :
      (is_document : J → Bool) (c : ℕ) (doc : J) (panel : Panel J)
      → IsOwn panel
      → IsOwn (on_discovered is_document c doc panel).0
  unfolding on_discovered
  on_discovered-IsOwn is_document c doc panel h =
      elim (Bool-cases (not (is_client panel.client c))) [
        | inl e ↦ rw e h
        | inr e ↦ elim (Bool-cases (is_document doc)) [
          | inl d ↦
              rw (e, d)
                (paint-IsOwn c app_stream1 doc (record panel { stream_index = some app_stream1 }) e)
          | inr d ↦ rw (e, d) (indexed-IsOwn (some stream1) panel h)
        ]
      ]

  on_document-IsOwn :
      (is_document : J → Bool) (c : ℕ) (index : Index) (doc : J) (panel : Panel J)
      → IsOwn panel
      → IsOwn (on_document is_document c index doc panel)
  unfolding on_document
  on_document-IsOwn is_document c index doc panel h =
      pick-IsOwn _ panel (paint c index doc panel) (λ e. h)
        (λ e. paint-IsOwn c index doc panel (or-left (not (is_client panel.client c)) _ e))

  handle-IsOwn :
      (is_document : J → Bool) (e : Event J) (panel : Panel J)
      → IsOwn panel
      → IsOwn (handle is_document e panel).0
  unfolding handle set_client IsOwn
  handle-IsOwn is_document (selects client) panel h = tt
  handle-IsOwn is_document connects panel h = h
  handle-IsOwn is_document loads panel h = h
  handle-IsOwn is_document (writes params) panel h = h
  handle-IsOwn is_document (discovered c doc) panel h =
      on_discovered-IsOwn is_document c doc panel h
  handle-IsOwn is_document (answered c index doc) panel h =
      on_document-IsOwn is_document c index doc panel h

  -- Whatever cameras are selected and in whatever order their replies come: the bar shows no document, or one
  -- that was read from the camera that is selected.
  pub run-IsOwn :
      (is_document : J → Bool) (es : List (Event J)) (panel : Panel J)
      → IsOwn panel
      → IsOwn (run is_document es panel)
  unfolding run
  run-IsOwn is_document [] panel h = h
  run-IsOwn is_document (e ∷ es) panel h =
      run-IsOwn is_document es (handle is_document e panel).0 (handle-IsOwn is_document e panel h)

  discovered_found :
      (is_document : J → Bool) (c : ℕ) (doc : J) (panel : Panel J)
      → is_client panel.client c ≡ true
      → is_document doc ≡ true
      → (on_discovered is_document c doc panel).0
        ≡ paint c app_stream1 doc (record panel { stream_index = some app_stream1 })
  unfolding on_discovered
  discovered_found is_document c doc panel e d = rw (e, d) refl

  discovered_failed :
      (is_document : J → Bool) (c : ℕ) (doc : J) (panel : Panel J)
      → is_client panel.client c ≡ true
      → is_document doc ≡ false
      → (on_discovered is_document c doc panel).0 ≡ record panel { stream_index = some stream1 }
  unfolding on_discovered
  discovered_failed is_document c doc panel e d = rw (e, d) refl

  written :
      (c : ℕ) (params : List (Text × Text)) (panel : Panel J)
      → panel.client ≡ some c
      → write_stream_params params (record panel { stream_index = some stream1 })
        ≡ write c stream1 params ∷ []
  unfolding write_stream_params
  written c params panel e = rw e refl

  run-discoveries :
      (is_document : J → Bool) (c : ℕ) (doc failed : J) (panel : Panel J)
      → panel.client ≡ some c
      → is_document doc ≡ true
      → is_document failed ≡ false
      → run is_document (discovered c doc ∷ discovered c failed ∷ []) panel
        ≡ record (paint c app_stream1 doc (record panel { stream_index = some app_stream1 })) {
          stream_index = some stream1;
        }
  unfolding run handle paint
  run-discoveries is_document c doc failed panel e d f =
      let mine = ap (λ o. is_client o c) e ∙ (==_iff c c).1 refl in
      let found = paint c app_stream1 doc (record panel { stream_index = some app_stream1 }) in
      ap (λ p. (on_discovered is_document c failed p).0)
        (discovered_found is_document c doc panel mine d)
      ∙ discovered_failed is_document c failed found mine f

  -- Two discoveries under way, of which the first finds the document of app_stream1 and the second fails: the
  -- index changes to stream1 while the bar still shows the document of app_stream1, and the parameters that
  -- the operator changes in it are written to stream1.
  pub run-second_discovery :
      (is_document : J → Bool) (c : ℕ) (doc failed : J) (params : List (Text × Text))
      (panel : Panel J)
      → panel.client ≡ some c
      → is_document doc ≡ true
      → is_document failed ≡ false
      → let after = run is_document (discovered c doc ∷ discovered c failed ∷ []) panel in
        (after.stream_doc ≡ some doc)
        × (after.origin ≡ some (c, app_stream1))
        × (write_stream_params params after ≡ write c stream1 params ∷ [])
  unfolding paint
  run-second_discovery is_document c doc failed params panel e d f =
      let found = paint c app_stream1 doc (record panel { stream_index = some app_stream1 }) in
      rw (run-discoveries is_document c doc failed panel e d f)
        (refl, refl, written c params found e)
