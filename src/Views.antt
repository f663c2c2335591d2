-- ===== src/Views.antt =====
-- The views of surfaces: WaylandView in src/compositor/compositor_api/aurorawaylandview.cpp, with the
-- list of views that WaylandSurface keeps in aurorawaylandsurface.cpp beside it. Views, surfaces and
-- buffers are named by numbers; damage, outputs, locks of a mutex and Qt signals are left out.
pub mod Listing
pub mod Discarding
mod Tests
use aurora_compositor.Base.{
  ℕ, zero, suc, Bool, true, false, not, ◌&&◌, ◌||◌, List, [], ◌∷◌, ◌++◌, Option, none, some, ◌==◌,
  if◌then◌else◌,
}

pub record View : Type 0 where
  pub surface : Option ℕ
  pub current_buffer : Option ℕ
  pub next_buffer : Option ℕ
  pub next_buffer_committed : Bool
  pub buffer_locked : Bool
  pub force_advance_succeed : Bool
  pub allow_discard_front_buffer : Bool

abbrev pub new_view : View
new_view = record {
  surface = none;
  current_buffer = none;
  next_buffer = none;
  next_buffer_committed = false;
  buffer_locked = false;
  force_advance_succeed = false;
  allow_discard_front_buffer = false;
}

-- All views, the list of views of each surface, and the buffer of each surface.
pub record Scene : Type 0 where
  pub view : ℕ → View
  pub views : ℕ → List ℕ
  pub buffer_ref : ℕ → Option ℕ

abbrev pub empty_scene : (ℕ → Option ℕ) → Scene
empty_scene buffers = record { view = λ v. new_view; views = λ s. []; buffer_ref = buffers }

abbrev pub same : Option ℕ → Option ℕ → Bool
same none none = true
same none (some b) = false
same (some a) none = false
same (some a) (some b) = a == b

abbrev pub set_view : ℕ → View → Scene → Scene
set_view v x w = record w { view = λ u. if u == v then x else w.view u }

abbrev pub set_views : ℕ → List ℕ → Scene → Scene
set_views s xs w = record w { views = λ t. if t == s then xs else w.views t }

abbrev pub has : ℕ → List ℕ → Bool
has v [] = false
has v (x ∷ xs) = v == x || has v xs

-- `removeAll`.
abbrev pub remove_all : ℕ → List ℕ → List ℕ
remove_all v [] = []
remove_all v (x ∷ xs) = let rest = remove_all v xs in if v == x then rest else x ∷ rest

unfoldable pub buffer_committed : ℕ → Option ℕ → Scene → Scene
buffer_committed v b w =
    set_view v (record (w.view v) { next_buffer = b; next_buffer_committed = true }) w

unfoldable pub ref_view : ℕ → ℕ → Scene → Scene
ref_view s v w =
    if has v (w.views s)
    then w
    else buffer_committed v (w.buffer_ref s) (set_views s (w.views s ++ v ∷ []) w)

unfoldable pub deref_view : ℕ → ℕ → Scene → Scene
deref_view s v w = set_views s (remove_all v (w.views s)) w

unfoldable pub clear_front_buffer : ℕ → Scene → Scene
clear_front_buffer v w =
    if (w.view v).buffer_locked
    then w
    else set_view v (record (w.view v) { current_buffer = none }) w

abbrev pub leave : Option ℕ → ℕ → Scene → Scene
leave none v w = w
leave (some s) v w = deref_view s v w

abbrev pub enter : Option ℕ → ℕ → Scene → Scene
enter none v w = w
enter (some s) v w = ref_view s v w

-- `WaylandViewPrivate::setSurface`.
unfoldable pub change_surface : ℕ → Option ℕ → Scene → Scene
change_surface v new w =
    let left = leave (w.view v).surface v w in
    let fresh = record (left.view v) {
      surface = new;
      next_buffer = none;
      next_buffer_committed = false;
    } in
    enter new v (set_view v fresh left)

unfoldable pub set_surface : ℕ → Option ℕ → Scene → Scene
set_surface v new w =
    if same (w.view v).surface new then w else clear_front_buffer v (change_surface v new w)

unfoldable pub discard_current_buffer : ℕ → Scene → Scene
discard_current_buffer v w =
    set_view v (record (w.view v) { current_buffer = none; force_advance_succeed = true }) w

-- One round of the loop of `advance` over the other views, `this` being the primary one.
unfoldable pub discard_other : ℕ → ℕ → Scene → Scene
discard_other this v w =
    if not (v == this)
      && (w.view v).allow_discard_front_buffer
      && same (w.view v).current_buffer (w.view this).current_buffer
    then discard_current_buffer v w
    else w

unfoldable pub discard_others : ℕ → List ℕ → Scene → Scene
discard_others this [] w = w
discard_others this (v ∷ vs) w = discard_others this vs (discard_other this v w)

abbrev pub is_first : ℕ → List ℕ → Bool
is_first v [] = false
is_first v (x ∷ xs) = x == v

-- `isPrimary`, the test of `advance`.
abbrev pub primary_views : ℕ → Option ℕ → Scene → List ℕ
primary_views v none w = []
primary_views v (some s) w = if is_first v (w.views s) then w.views s else []

unfoldable pub advance : ℕ → Scene → Scene × Bool
advance v w =
    if not (w.view v).next_buffer_committed && not (w.view v).force_advance_succeed
    then (w, false)
    else if (w.view v).buffer_locked
    then (w, false)
    else let w1 = discard_others v (primary_views v (w.view v).surface w) w in
      (
        set_view v
            (record (w1.view v) {
              force_advance_succeed = false;
              next_buffer_committed = false;
              current_buffer = (w1.view v).next_buffer;
            })
            w1,
        true,
      )

-- `WaylandSurface::setPrimaryView`, for a view that is not null.
unfoldable pub set_primary_view : ℕ → ℕ → Scene → Scene
set_primary_view s v w =
    let w1 = if has v (w.views s) then w else set_surface v (some s) w in
    set_views s (v ∷ remove_all v (w1.views s)) w1

pub data ViewOp : Type 0 where
  show_surface : ℕ → Option ℕ → ViewOp
  make_primary : ℕ → ℕ → ViewOp
  go_on : ℕ → ViewOp
  discard : ℕ → ViewOp
  deliver : ℕ → Option ℕ → ViewOp
  lock_buffer : ℕ → Bool → ViewOp
  allow_discard : ℕ → Bool → ViewOp

unfoldable pub step : ViewOp → Scene → Scene
step (show_surface v new) w = set_surface v new w
step (make_primary s v) w = set_primary_view s v w
step (go_on v) w = (advance v w).0
step (discard v) w = discard_current_buffer v w
step (deliver v b) w = buffer_committed v b w
step (lock_buffer v locked) w = set_view v (record (w.view v) { buffer_locked = locked }) w
step (allow_discard v allowed) w =
    set_view v (record (w.view v) { allow_discard_front_buffer = allowed }) w

unfoldable pub run : List ViewOp → Scene → Scene
run [] w = w
run (op ∷ ops) w = run ops (step op w)
