-- ===== src/Xdg/Tests/Decorations.antt =====
-- The theorems on decorations at concrete requests.
use aurora_compositor.Base.{◌≡◌, refl, List, [], ◌∷◌, ◌++◌}
use aurora_compositor.Xdg.Decoration.{
  new_decoration, decoration_mode_changed, set_decoration_mode, handle_preference, send_mode,
  decoration_warning,
}
use aurora_compositor.Xdg.Decoration.Modes.{
  ModeRequest, mode_wanted, mode_unwanted, run, told, last_wish, last_mode, run-follows_wishes,
}

abbrev wishes : List ModeRequest
wishes = mode_wanted 1 2 ∷ mode_unwanted 1 ∷ mode_wanted 2 7 ∷ []

run-follows_wishes_example :
    ((run wishes (new_decoration 1).0).0.configured_mode ≡ last_wish 1 wishes)
    × (told 0 ((new_decoration 1).1 ++ (run wishes (new_decoration 1).0).1) ≡ last_mode 1 wishes)
run-follows_wishes_example = run-follows_wishes 1 wishes refl refl

-- A mode that the protocol does not have becomes the mode of the toplevel.
unknown_mode :
    (set_decoration_mode 1 7 (new_decoration 1).0).1
    ≡ decoration_warning ∷ decoration_mode_changed ∷ []
unfolding set_decoration_mode handle_preference send_mode new_decoration
unknown_mode = refl
