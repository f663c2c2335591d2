-- ===== src/Xdg/Decoration/Modes.antt =====
-- The mode of a decoration, and what its client knows of it.
use aurora_compositor.Base.{
  ◌≡◌, refl, sym, ap, ◌∙◌, arith, ℕ, Bool, true, false, ◌&&◌, List, [], ◌∷◌, ◌++◌, ◌==◌,
  if◌then◌else◌,
}
use aurora_compositor.Xdg.Decoration.{
  Decoration, DecorationEffect, configure, is_mode, send_mode, new_decoration, handle_preference,
  set_decoration_mode, unset_decoration_mode,
}

-- The requests of the client, each with the preferred mode of the manager at that time.
pub data ModeRequest : Type 0 where
  mode_wanted : ℕ → ℕ → ModeRequest
  mode_unwanted : ℕ → ModeRequest

unfoldable pub step : ModeRequest → Decoration → Decoration × List DecorationEffect
unfolding set_decoration_mode unset_decoration_mode
step (mode_wanted preferred mode) d = set_decoration_mode preferred mode d
step (mode_unwanted preferred) d = unset_decoration_mode preferred d

unfoldable pub run : List ModeRequest → Decoration → Decoration × List DecorationEffect
unfolding step
run [] d = (d, [])
run (r ∷ rs) d = let (d1, now) = step r d in let (d2, later) = run rs d1 in (d2, now ++ later)

-- The mode of the last configure event, `n` without one.
unfoldable pub told : ℕ → List DecorationEffect → ℕ
told n [] = n
told n (configure m ∷ es) = told m es
told n (e ∷ es) = told n es

-- What a request asks for; the mode 0 stands for the preferred one.
abbrev pub wish : ModeRequest → ℕ
wish (mode_wanted preferred mode) = if mode == 0 then preferred else mode
wish (mode_unwanted preferred) = preferred

unfoldable pub last_wish : ℕ → List ModeRequest → ℕ
last_wish n [] = n
last_wish n (r ∷ rs) = last_wish (wish r) rs

-- The last wish that is a mode of the protocol.
unfoldable pub last_mode : ℕ → List ModeRequest → ℕ
last_mode n [] = n
last_mode n (r ∷ rs) = last_mode (if is_mode (wish r) then wish r else n) rs

abbrev prefers : ModeRequest → ℕ
prefers (mode_wanted preferred mode) = preferred
prefers (mode_unwanted preferred) = preferred

-- The manager prefers a mode of the protocol all along.
abbrev pub prefer_modes : List ModeRequest → Bool
prefer_modes [] = true
prefer_modes (r ∷ rs) = is_mode (prefers r) && prefer_modes rs

told-append :
    (n : ℕ) (es later : List DecorationEffect) → told n (es ++ later) ≡ told (told n es) later
unfolding told
told-append n [] later = refl
told-append n (configure m ∷ es) later = told-append m es later
told-append n (e ∷ es) later = told-append n es later

step-configured :
    (r : ModeRequest) (d : Decoration)
    → is_mode (prefers r) ≡ true
    → (d.configured_mode == 0) ≡ false
    → ((step r d).0.configured_mode ≡ wish r) × ((wish r == 0) ≡ false)
unfolding step set_decoration_mode unset_decoration_mode handle_preference send_mode
step-configured (mode_wanted p m) d h k = ground arith
step-configured (mode_unwanted p) d h k = ground arith

step-told :
    (r : ModeRequest) (d : Decoration) (n : ℕ)
    → is_mode (prefers r) ≡ true
    → (d.configured_mode == 0) ≡ false
    → (is_mode d.configured_mode ≡ true → n ≡ d.configured_mode)
    → told n (step r d).1 ≡ (if is_mode (wish r) then wish r else n)
unfolding step set_decoration_mode unset_decoration_mode handle_preference send_mode told
step-told (mode_wanted p m) d n h k known = ground arith
step-told (mode_unwanted p) d n h k known = ground arith

and_parts : (a b : Bool) → (a && b) ≡ true → (a ≡ true) × (b ≡ true)
and_parts a b h = ground arith

run-follows :
    (rs : List ModeRequest) (d : Decoration) (n : ℕ)
    → prefer_modes rs ≡ true
    → (d.configured_mode == 0) ≡ false
    → (is_mode d.configured_mode ≡ true → n ≡ d.configured_mode)
    → ((run rs d).0.configured_mode ≡ last_wish d.configured_mode rs)
      × (told n (run rs d).1 ≡ last_mode n rs)
unfolding run told last_wish last_mode
run-follows [] d n h k known = (refl, refl)
run-follows (r ∷ rs) d n h k known =
    let (now, later) = and_parts (is_mode (prefers r)) (prefer_modes rs) h in
    let (mode, some_mode) = step-configured r d now k in
    let heard = step-told r d n now k known in
    let (final, last) =
      run-follows rs (step r d).0 (told n (step r d).1) later (ap (λ m. m == 0) mode ∙ some_mode)
        (λ e.
          heard
          ∙ (ap (λ b. if b then wish r else n) (sym (ap (λ m. is_mode m) mode) ∙ e) ∙ sym mode)) in
    (
      final ∙ ap (λ m. last_wish m rs) mode,
      told-append n (step r d).1 (run rs (step r d).0).1 ∙ (last ∙ ap (λ m. last_mode m rs) heard),
    )

new_decoration_lem :
    (p : ℕ)
    → is_mode p ≡ true
    → ((new_decoration p).0.configured_mode ≡ p)
      × (told 0 (new_decoration p).1 ≡ p)
      × ((p == 0) ≡ false)
unfolding new_decoration send_mode told
new_decoration_lem p h = ground arith

-- If the manager prefers a mode of the protocol, first `p`, the mode that a new decoration has after any
-- requests is what the last of them asks for, `p` without one, whether or not it is a mode; and the last
-- configure event has the last mode of the protocol among these.
pub run-follows_wishes :
    (p : ℕ) (rs : List ModeRequest)
    → is_mode p ≡ true
    → prefer_modes rs ≡ true
    → ((run rs (new_decoration p).0).0.configured_mode ≡ last_wish p rs)
      × (told 0 ((new_decoration p).1 ++ (run rs (new_decoration p).0).1) ≡ last_mode p rs)
run-follows_wishes p rs valid h =
    let (mode, heard, some_mode) = new_decoration_lem p valid in
    let d = (new_decoration p).0 in
    let (final, last) = run-follows rs d p h (ap (λ m. m == 0) mode ∙ some_mode) (λ e. sym mode) in
    (
      final ∙ ap (λ m. last_wish m rs) mode,
      told-append 0 (new_decoration p).1 (run rs d).1
          ∙ (ap (λ m. told m (run rs d).1) heard ∙ last),
    )
