-- ===== src/LayerShell/Shell.antt =====
-- The layer shell itself: the register of its surfaces, and the popups of a layer surface.
use aurora_compositor.Base.{
  ℕ, Bool, not, ◌&&◌, ◌||◌, List, [], ◌∷◌, ◌++◌, Option, none, some, ◌==◌, ltb, if◌then◌else◌,
  contains, ==_iff, ◌≡◌, refl, arith,
}
use aurora_compositor.Xdg.Popup.{Popup, set_parent_surface}
use aurora_compositor.Xdg.Effect.{Effect}
use aurora_compositor.LayerShell.{
  LayerSurface, LayerEffect, post_error, warning, emit, invalid_layer, layer_surface_created,
  xdg_popup_parent_changed, overlay_layer, new_layer_surface, close,
}

-- The layer surfaces by name, and the list of those registered.
pub record LayerShell : Type 0 where
  pub surface : ℕ → LayerSurface
  pub layer_surfaces : List ℕ

abbrev pub remove_one : ℕ → List ℕ → List ℕ
remove_one n [] = []
remove_one n (x ∷ xs) = let rest = remove_one n xs in if x == n then xs else x ∷ rest

unfoldable pub unregister_layer_surface : ℕ → LayerShell → LayerShell × List LayerEffect
unregister_layer_surface n s =
    if contains n s.layer_surfaces
    then (record s { layer_surfaces = remove_one n s.layer_surfaces }, [])
    else (s, warning ∷ [])

-- The request for a layer surface of the name `n`. `exists` is about the wl_surface, and `role_set` is
-- the result of `setRole`, which posts its own error.
unfoldable pub get_layer_surface : ℕ → Bool → Bool → ℕ → LayerShell → LayerShell × List LayerEffect
get_layer_surface n exists role_set layer s =
    if ltb overlay_layer layer
    then (s, warning ∷ post_error invalid_layer ∷ [])
    else if not exists
    then (s, warning ∷ [])
    else if not role_set
    then (s, [])
    else (
      record {
        surface = λ k. if k == n then new_layer_surface layer else s.surface k;
        layer_surfaces = s.layer_surfaces ++ n ∷ [];
      },
      emit (layer_surface_created n) ∷ [],
    )

unfoldable pub close_all_layer_surfaces : List ℕ → LayerShell → LayerShell × List LayerEffect
close_all_layer_surfaces [] s = (s, [])
close_all_layer_surfaces (n ∷ ns) s =
    let (closed, effects) = close (s.surface n) in
    let (s2, more) =
      close_all_layer_surfaces ns
        (record s { surface = λ k. if k == n then closed else s.surface k }) in
    (s2, effects ++ more)

-- The request `get_popup` of a layer surface on the wl_surface `surface`.
unfoldable pub get_popup : ℕ → ℕ → Option Popup → Option Popup × List Effect × List LayerEffect
get_popup surface n none = (none, [], [])
get_popup surface n (some p) =
    let (q, effects) = set_parent_surface (some surface) p in
    (some q, effects, emit (xdg_popup_parent_changed n) ∷ [])

close_all-at :
    (ns : List ℕ) (s : LayerShell) (n : ℕ)
    → let x = (close_all_layer_surfaces ns s).0.surface n in
      (x.closed ≡ (contains n ns || (s.surface n).closed))
      × (x.mapped ≡ (not (contains n ns) && (s.surface n).mapped))
unfolding close_all_layer_surfaces close
close_all-at [] s n = (refl, refl)
close_all-at (m ∷ ns) s n = ground (
  arith,
  close_all-at ns
      (record s { surface = λ k. if k == m then (close (s.surface m)).0 else s.surface k }) n,
  ==_iff m n,
)

-- After closeAllLayerSurfaces every registered layer surface is closed and not mapped, and the others
-- are as they were in that.
pub close_all_closes :
    (s : LayerShell) (n : ℕ)
    → let x = (close_all_layer_surfaces s.layer_surfaces s).0.surface n in
      (x.closed ≡ (contains n s.layer_surfaces || (s.surface n).closed))
      × (x.mapped ≡ (not (contains n s.layer_surfaces) && (s.surface n).mapped))
close_all_closes s n = close_all-at s.layer_surfaces s n
