-- ===== src/Xdg/Toplevel/Showing.antt =====
-- How a list of window states shows a mode and an activation, and the edits of the list by
-- sendMaximized and its siblings, handleFocusReceived and handleFocusLost.
use aurora_compositor.Base.{
  ap, ◌∙◌, count, count-append, ℕ, ◌-◌, ◌≡◌, refl, Bool, true, false, List, [], ◌∷◌, ◌++◌, arith,
  ◌==◌, if◌then◌else◌, contains, last_or-append,
}
use aurora_compositor.Geometry.{Size, is_valid}
use aurora_compositor.Xdg.Effect.{Effect, send_toplevel_configure}
use aurora_compositor.Xdg.Toplevel.{
  Toplevel, ConfigureEvent, last_sent_configure, remove_one, append_missing, send_configure,
  send_maximized, send_unmaximized, send_fullscreen, send_resizing, handle_focus_lost,
  handle_focus_received,
}

-- How often a state stands in a list.
count-remove_one :
    (s r : ℕ) (xs : List ℕ)
    → count s (remove_one r xs) ≡ (if r == s then count s xs - 1 else count s xs)
unfolding remove_one
count-remove_one s r [] = ground arith
count-remove_one s r (x ∷ xs) = ground (arith, count-remove_one s r xs)

pub contains_iff : (s : ℕ) (xs : List ℕ) → contains s xs ≡ (if count s xs == 0 then false else true)
contains_iff s [] = refl
contains_iff s (x ∷ xs) = ground (arith, contains_iff s xs)

count-append_missing :
    (s r : ℕ) (xs : List ℕ)
    → count s (append_missing r xs)
      ≡ (if r == s then (if count s xs == 0 then 1 else count s xs) else count s xs)
unfolding append_missing
count-append_missing s r xs = ground (arith, contains_iff r xs, count-append s xs (r ∷ []))

-- The mode of a window; at most one holds.
pub data Mode : Type 0 where
  normal maximized fullscreen resizing : Mode

abbrev pub flag : Bool → ℕ
flag true = 1
flag false = 0

abbrev is_maximized : Mode → Bool
is_maximized maximized = true
is_maximized _ = false

abbrev is_fullscreen : Mode → Bool
is_fullscreen fullscreen = true
is_fullscreen _ = false

abbrev is_resizing : Mode → Bool
is_resizing resizing = true
is_resizing _ = false

-- The states show the mode and whether the window is activated, and each state at most once.
pub record Shows (mode : Mode) (activated : Bool) (states : List ℕ) : Type 0 where
  pub maximized_once : count 1 states ≡ flag (is_maximized mode)
  pub fullscreen_once : count 2 states ≡ flag (is_fullscreen mode)
  pub resizing_once : count 3 states ≡ flag (is_resizing mode)
  pub activated_once : count 4 states ≡ flag activated

-- The states of the last xdg_toplevel.configure among the events, `states` without one.
unfoldable pub told : List ℕ → List Effect → List ℕ
told states [] = states
told states (send_toplevel_configure size sent ∷ es) = told sent es
told states (e ∷ es) = told states es

-- What the client was told last shows the mode and the activation, and the window remembers it, with a
-- valid size.
pub record IsTold (mode : Mode) (activated : Bool) (client : List ℕ) (t : Toplevel) : Type 0 where
  pub shows : Shows mode activated client
  pub remembered : (last_sent_configure t).states ≡ client
  pub size : is_valid (last_sent_configure t).size ≡ true

abbrev pub Sends : Mode → Bool → List ℕ → Toplevel × ℕ × List Effect → Type 0
Sends mode activated client r = IsTold mode activated (told client r.2) r.0

pub send_configure-Sends :
    (serial : ℕ) (size : Size) (states client : List ℕ) (t : Toplevel) {mode : Mode}
    {activated : Bool}
    → is_valid size ≡ true
    → Shows mode activated states
    → Sends mode activated client (send_configure serial size states t)
unfolding send_configure last_sent_configure told
send_configure-Sends serial size states client t {mode} {activated} v h =
    let c : ConfigureEvent = record { states = states; size = size; serial = serial } in
    let last = last_or-append t.last_acked_configure c t.pending_configures in
    simp v (record {
      shows = h;
      remembered = ap (λ e. e.states) last;
      size = ap (λ e. is_valid e.size) last ∙ v;
    })

-- What the compositor may want of a window.
pub data Intent : Type 0 where
  maximize unmaximize make_fullscreen resize activate deactivate : Intent

abbrev pub target : Intent → Mode → Mode
target maximize m = maximized
target unmaximize m = normal
target make_fullscreen m = fullscreen
target resize m = resizing
target activate m = m
target deactivate m = m

abbrev pub activation : Intent → Bool → Bool
activation activate a = true
activation deactivate a = false
activation _ a = a

abbrev pub perform : Intent → ℕ → Size → Toplevel → Toplevel × ℕ × List Effect
perform maximize serial size t = send_maximized serial size t
perform unmaximize serial size t = send_unmaximized serial size t
perform make_fullscreen serial size t = send_fullscreen serial size t
perform resize serial size t = send_resizing serial size t
perform activate serial size t = handle_focus_received serial t
perform deactivate serial size t = handle_focus_lost serial t

-- The states after `append_missing s`, `remove_one r` and `remove_one q`, counted.
count-edit :
    (k q r s : ℕ) (xs : List ℕ)
    → count k (remove_one q (remove_one r (append_missing s xs))) ≡ (
        let n = (if s == k then (if count k xs == 0 then 1 else count k xs) else count k xs) in
        let m = (if r == k then n - 1 else n) in if q == k then m - 1 else m)
count-edit k q r s xs =
    rw (count-remove_one k q (remove_one r (append_missing s xs)))
      (rw (count-remove_one k r (append_missing s xs)) (rw (count-append_missing k s xs)))

count-clear :
    (k q r s : ℕ) (xs : List ℕ)
    → count k (remove_one q (remove_one r (remove_one s xs))) ≡ (
        let n = (if s == k then count k xs - 1 else count k xs) in
        let m = (if r == k then n - 1 else n) in if q == k then m - 1 else m)
count-clear k q r s xs =
    rw (count-remove_one k q (remove_one r (remove_one s xs)))
      (rw (count-remove_one k r (remove_one s xs)) (rw (count-remove_one k s xs)))

module _ {mode : Mode} {activated : Bool} (states : List ℕ) (h : Shows mode activated states) where
  pub maximize-Shows :
      Shows maximized activated (remove_one 3 (remove_one 2 (append_missing 1 states)))
  maximize-Shows = ground (
    arith,
    h,
    count-edit 1 3 2 1 states,
    count-edit 2 3 2 1 states,
    count-edit 3 3 2 1 states,
    count-edit 4 3 2 1 states,
  )

  pub unmaximize-Shows : Shows normal activated (remove_one 3 (remove_one 2 (remove_one 1 states)))
  unmaximize-Shows = ground (
    arith,
    h,
    count-clear 1 3 2 1 states,
    count-clear 2 3 2 1 states,
    count-clear 3 3 2 1 states,
    count-clear 4 3 2 1 states,
  )

  pub fullscreen-Shows :
      Shows fullscreen activated (remove_one 3 (remove_one 1 (append_missing 2 states)))
  fullscreen-Shows = ground (
    arith,
    h,
    count-edit 1 3 1 2 states,
    count-edit 2 3 1 2 states,
    count-edit 3 3 1 2 states,
    count-edit 4 3 1 2 states,
  )

  pub resizing-Shows :
      Shows resizing activated (remove_one 2 (remove_one 1 (append_missing 3 states)))
  resizing-Shows = ground (
    arith,
    h,
    count-edit 1 2 1 3 states,
    count-edit 2 2 1 3 states,
    count-edit 3 2 1 3 states,
    count-edit 4 2 1 3 states,
  )

  pub deactivate-Shows : Shows mode false (remove_one 4 states)
  deactivate-Shows = ground (
    arith,
    h,
    count-remove_one 1 4 states,
    count-remove_one 2 4 states,
    count-remove_one 3 4 states,
    count-remove_one 4 4 states,
  )

  pub activate-Shows : contains 4 states ≡ false → Shows mode true (states ++ 4 ∷ [])
  activate-Shows e = ground (
    arith,
    h,
    contains_iff 4 states,
    count-append 1 states (4 ∷ []),
    count-append 2 states (4 ∷ []),
    count-append 3 states (4 ∷ []),
    count-append 4 states (4 ∷ []),
  )

  pub active-Shows : contains 4 states ≡ true → Shows mode true states
  active-Shows e = ground (arith, h, contains_iff 4 states)
