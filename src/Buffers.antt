-- ===== src/Buffers.antt =====
-- Client buffers and the references to them: Internal::ClientBuffer in
-- compositor/wayland_wrapper/aurorawlclientbuffer.cpp, WaylandBufferRef in
-- compositor/compositor_api/aurorawaylandbufferref.cpp and the register of
-- compositor/wayland_wrapper/aurorawlbuffermanager.cpp, all under src/. A buffer object has a number
-- that is never used again, a wl_buffer of the client has one that may be. A variable of type
-- WaylandBufferRef is a position in a list; it holds null after its destructor.
pub mod Counting
pub mod Steps
pub mod Sharing
mod Tests
use aurora_compositor.Base.{
  ℕ, zero, suc, ◌+◌, ◌-◌, Bool, true, false, not, ◌&&◌, ◌||◌, List, [], ◌∷◌, ◌++◌, Option, none,
  some, ◌==◌, if◌then◌else◌, get_or,
}

-- `resource` is m_buffer; `deleted`: the object was freed.
pub record ClientBuffer : Type 0 where
  pub resource : Option ℕ
  pub committed : Bool
  pub destroyed : Bool
  pub ref_count : ℕ
  pub deleted : Bool

-- What stands at a number that no buffer has yet.
abbrev pub no_buffer : ClientBuffer
no_buffer = record {
  resource = none;
  committed = false;
  destroyed = false;
  ref_count = 0;
  deleted = false;
}

abbrev pub new_buffer : ℕ → ClientBuffer
new_buffer resource = record no_buffer { resource = some resource }

abbrev pub is_some : Option ℕ → Bool
is_some none = false
is_some (some n) = true

pub data BufferEvent : Type 0 where
  released : ℕ → BufferEvent
  committed_at : ℕ → BufferEvent

unfoldable pub ref : ClientBuffer → ClientBuffer
ref b = record b { ref_count = b.ref_count + 1 }

-- `wl_buffer.release` is sent on the last deref of a committed buffer.
unfoldable pub deref_releases : ClientBuffer → Bool
deref_releases b = b.ref_count == 1 && b.committed && is_some b.resource && not b.destroyed

-- At a count of 0 the code would go to -1; here it stays at 0.
unfoldable pub deref : ClientBuffer → ClientBuffer
unfolding deref_releases
deref b = record b {
  ref_count = b.ref_count - 1;
  committed = b.committed && not (deref_releases b);
  deleted = b.deleted || (b.ref_count == 1 && b.destroyed);
}

unfoldable pub set_destroyed : ClientBuffer → ClientBuffer
set_destroyed b = record b {
  destroyed = true;
  committed = false;
  resource = none;
  deleted = b.deleted || b.ref_count == 0;
}

unfoldable pub set_committed : ClientBuffer → ClientBuffer
set_committed b = record b { committed = true }

abbrev pub set_at {ℓ} : {A : Type ℓ} → (ℕ → A) → ℕ → A → ℕ → A
set_at f name a n = if n == name then a else f n

-- All buffers, the number of the next one, `m_buffers` of the manager, and what each variable of
-- type WaylandBufferRef refers to.
pub record Store : Type 0 where
  pub buffers : ℕ → ClientBuffer
  pub next : ℕ
  pub registry : ℕ → Option ℕ
  pub refs : List (Option ℕ)

abbrev pub empty_store : Store
empty_store = record { buffers = λ b. no_buffer; next = 0; registry = λ r. none; refs = [] }

abbrev pub set_ref : List (Option ℕ) → ℕ → Option ℕ → List (Option ℕ)
set_ref [] i r = []
set_ref (x ∷ xs) zero r = r ∷ xs
set_ref (x ∷ xs) (suc i) r = x ∷ set_ref xs i r

-- `if (d->buffer) d->buffer->ref();`
abbrev pub ref_at : Option ℕ → (ℕ → ClientBuffer) → ℕ → ClientBuffer
ref_at none buffers = buffers
ref_at (some name) buffers = set_at buffers name (ref (buffers name))

-- `if (d->buffer) d->buffer->deref();` and the events that it sends.
abbrev pub deref_at : Option ℕ → (ℕ → ClientBuffer) → ℕ → ClientBuffer
deref_at none buffers = buffers
deref_at (some name) buffers = set_at buffers name (deref (buffers name))

abbrev pub deref_events : Option ℕ → (ℕ → ClientBuffer) → List BufferEvent
deref_events none buffers = []
deref_events (some name) buffers = if deref_releases (buffers name) then released name ∷ [] else []

-- `operator=` of the variable `i`, with what the right side refers to: the new buffer is counted
-- before the old one is let go. With null, it is also the destructor.
unfoldable pub assign : ℕ → Option ℕ → Store → Store × List BufferEvent
assign i r s =
    let old = get_or s.refs i none in
    let counted = ref_at r s.buffers in
    (
      record s { buffers = deref_at old counted; refs = set_ref s.refs i r },
      deref_events old counted,
    )

-- `getBuffer`: the buffer for a resource, made and registered the first time; `supported` says
-- whether some integration can make one.
unfoldable pub get_buffer : Bool → ℕ → Store → Store × Option ℕ
get_buffer supported resource s = elim (s.registry resource) [
  | some b ↦ (s, some b)
  | none ↦
      if supported
      then (
        record s {
          buffers = set_at s.buffers s.next (new_buffer resource);
          next = suc s.next;
          registry = set_at s.registry resource (some s.next);
        },
        some s.next,
      )
      else (s, none)
]

-- The constructor of a reference to a buffer.
unfoldable pub construct : Option ℕ → Store → Store
construct r s = record s { buffers = ref_at r s.buffers; refs = s.refs ++ r ∷ [] }

-- The client destroys its wl_buffer (destroy_listener_callback).
unfoldable pub destroy_buffer : ℕ → Store → Store
destroy_buffer resource s = elim (s.registry resource) [
  | none ↦ s
  | some b ↦ record s {
    buffers = set_at s.buffers b (set_destroyed (s.buffers b));
    registry = set_at s.registry resource none;
  }
]

-- A surface whose buffer is the variable `i` notifies it at a commit.
unfoldable pub commit_ref : ℕ → Store → Store × List BufferEvent
commit_ref i s = elim (get_or s.refs i none) [
  | none ↦ (s, [])
  | some b ↦
      (record s { buffers = set_at s.buffers b (set_committed (s.buffers b)) }, committed_at b ∷ [])
]

-- What the compositor and a client do to buffers.
pub data Op : Type 0 where
  attach : Bool → ℕ → Op
  copy : ℕ → ℕ → Op
  destruct : ℕ → Op
  destroy : ℕ → Op
  commit : ℕ → Op

unfoldable pub step : Op → Store → Store × List BufferEvent
step (attach supported resource) s =
    let (s1, b) = get_buffer supported resource s in (construct b s1, [])
step (copy i j) s = assign i (get_or s.refs j none) s
step (destruct i) s = assign i none s
step (destroy resource) s = (destroy_buffer resource s, [])
step (commit i) s = commit_ref i s

unfoldable pub run : List Op → Store → Store × List BufferEvent
run [] s = (s, [])
run (op ∷ ops) s = let (s1, e1) = step op s in let (s2, e2) = run ops s1 in (s2, e1 ++ e2)
