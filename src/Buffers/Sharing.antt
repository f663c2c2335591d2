-- ===== src/Buffers/Sharing.antt =====
-- When a buffer is given back to the client.
use aurora_compositor.Base.{
  ℕ, zero, suc, ◌+◌, ◌≤◌, ◌<◌, ◌≡◌, refl, ap, Bool, true, false, ◌&&◌, List, [], ◌∷◌, ◌++◌, Option,
  none, some, arith, ◌==◌, if◌then◌else◌, get_or,
}
use aurora_compositor.Buffers.{
  ClientBuffer, BufferEvent, released, committed_at, is_some, ref, deref, deref_releases,
  set_destroyed, set_committed, Store, empty_store, set_ref, ref_at, deref_at, deref_events, assign,
  get_buffer, construct, destroy_buffer, commit_ref, Op, attach, copy, destruct, destroy, commit,
  step, run,
}
use aurora_compositor.Buffers.Counting.{
  IsCounted, refers, count_refs, refers-le_count, ref_at-fields,
}

abbrev pub releases : List BufferEvent → ℕ → ℕ
releases [] b = 0
releases (released a ∷ es) b = refers (some a) b + releases es b
releases (committed_at a ∷ es) b = releases es b

abbrev pub commits : List BufferEvent → ℕ → ℕ
commits [] b = 0
commits (released a ∷ es) b = commits es b
commits (committed_at a ∷ es) b = refers (some a) b + commits es b

abbrev pub weight : Bool → ℕ
weight true = 1
weight false = 0

set_ref-same : (rs : List (Option ℕ)) (i : ℕ) → set_ref rs i (get_or rs i none) ≡ rs
set_ref-same [] i = refl
set_ref-same (x ∷ xs) zero = refl
set_ref-same (x ∷ xs) (suc i) = ap (◌∷◌ x) (set_ref-same xs i)

deref-ref :
    (x : ClientBuffer) → 0 < x.ref_count → (deref (ref x) ≡ x) × (deref_releases (ref x) ≡ false)
unfolding deref ref deref_releases
deref-ref x h = ground arith

deref_events-ref_at :
    (old r : Option ℕ) (f : ℕ → ClientBuffer) (b : ℕ)
    → refers old b ≤ (f b).ref_count
    → ((f b).destroyed ≡ true → (f b).resource ≡ none)
    → releases (deref_events old (ref_at r f)) b ≡ (
        if refers old b == 1
          && refers r b == 0
          && (f b).ref_count == 1
          && (f b).committed
          && is_some (f b).resource
        then 1
        else 0)
unfolding deref_releases ref
deref_events-ref_at none r f b h cleared = ground arith
deref_events-ref_at (some a) none f b h cleared = ground arith
deref_events-ref_at (some a) (some a2) f b h cleared = ground arith

ref_deref_at :
    (r : Option ℕ) (f : ℕ → ClientBuffer) (b : ℕ)
    → ((a : ℕ) → r ≡ some a → 0 < (f a).ref_count)
    → (deref_events r (ref_at r f) ≡ []) × (deref_at r (ref_at r f) b ≡ f b)
ref_deref_at none f b h = (refl, refl)
ref_deref_at (some a) f b h = ground (arith, deref-ref (f a) (h a refl))

deref_at-balance :
    (r : Option ℕ) (f : ℕ → ClientBuffer) (b : ℕ)
    → releases (deref_events r f) b + weight (deref_at r f b).committed ≤ weight (f b).committed
unfolding deref deref_releases
deref_at-balance none f b = ground arith
deref_at-balance (some a) f b = ground arith

-- A reference that is assigned what it already refers to, itself for example, gives no buffer back
-- and changes no buffer and no reference, if the counts are right.
self_assign :
    (i : ℕ) (s : Store) (b : ℕ)
    → IsCounted s
    → let r = get_or s.refs i none in
      ((assign i r s).1 ≡ [])
      × ((assign i r s).0.refs ≡ s.refs)
      × ((assign i r s).0.buffers b ≡ s.buffers b)
unfolding assign
self_assign i s b c =
    let (quiet, same) =
      ref_deref_at (get_or s.refs i none) s.buffers b
        (λ a e. ground (arith, c.counts a, refers-le_count s.refs i a)) in
    (quiet, set_ref-same s.refs i, same)

-- An assignment gives a buffer back to the client, once, exactly if the variable was the only one
-- that referred to it and takes another value, and the buffer is committed and has a resource.
assign-releases :
    (i : ℕ) (r : Option ℕ) (s : Store) (b : ℕ)
    → IsCounted s
    → releases (assign i r s).1 b ≡ (
        if refers (get_or s.refs i none) b == 1
          && refers r b == 0
          && count_refs s.refs b == 1
          && (s.buffers b).committed
          && is_some (s.buffers b).resource
        then 1
        else 0)
unfolding assign deref_releases
assign-releases i r s b c = ground (
  arith,
  deref_events-ref_at (get_or s.refs i none) r s.buffers b
      (ground (arith, refers-le_count s.refs i b, c.counts b)) (c.cleared b),
  c.counts b,
)

assign-balance :
    (i : ℕ) (r : Option ℕ) (s : Store) (b : ℕ)
    → releases (assign i r s).1 b + weight ((assign i r s).0.buffers b).committed
      ≤ weight (s.buffers b).committed
unfolding assign
assign-balance i r s b = ground (
  arith,
  deref_at-balance (get_or s.refs i none) (ref_at r s.buffers) b,
  ref_at-fields r s.buffers b,
)

get_buffer-balance :
    (supported : Bool) (q : ℕ) (s : Store) (b : ℕ)
    → weight ((get_buffer supported q s).0.buffers b).committed ≤ weight (s.buffers b).committed
unfolding get_buffer
get_buffer-balance supported q s b = ground arith

destroy_buffer-balance :
    (q : ℕ) (s : Store) (b : ℕ)
    → weight ((destroy_buffer q s).buffers b).committed ≤ weight (s.buffers b).committed
unfolding destroy_buffer set_destroyed
destroy_buffer-balance q s b = ground arith

commit_ref-balance :
    (i : ℕ) (s : Store) (b : ℕ)
    → releases (commit_ref i s).1 b + weight ((commit_ref i s).0.buffers b).committed
      ≤ commits (commit_ref i s).1 b + weight (s.buffers b).committed
unfolding commit_ref set_committed
commit_ref-balance i s b = ground arith

step-balance :
    (op : Op) (s : Store) (b : ℕ)
    → releases (step op s).1 b + weight ((step op s).0.buffers b).committed
      ≤ commits (step op s).1 b + weight (s.buffers b).committed
unfolding step construct
step-balance (attach supported q) s b = ground (
  arith,
  ref_at-fields (get_buffer supported q s).1 (get_buffer supported q s).0.buffers b,
  get_buffer-balance supported q s b,
)
step-balance (copy i j) s b = ground (arith, assign-balance i (get_or s.refs j none) s b)
step-balance (destruct i) s b = ground (arith, assign-balance i none s b)
step-balance (destroy q) s b = ground (arith, destroy_buffer-balance q s b)
step-balance (commit i) s b = commit_ref-balance i s b

releases-append :
    (xs ys : List BufferEvent) (b : ℕ)
    → (releases (xs ++ ys) b ≡ releases xs b + releases ys b)
      × (commits (xs ++ ys) b ≡ commits xs b + commits ys b)
releases-append [] ys b = ground arith
releases-append (released a ∷ xs) ys b = ground (arith, releases-append xs ys b)
releases-append (committed_at a ∷ xs) ys b = ground (arith, releases-append xs ys b)

run-balance :
    (ops : List Op) (s : Store) (b : ℕ)
    → releases (run ops s).1 b + weight ((run ops s).0.buffers b).committed
      ≤ commits (run ops s).1 b + weight (s.buffers b).committed
unfolding run
run-balance [] s b = ground arith
run-balance (op ∷ ops) s b = omega (
  arith,
  step-balance op s b,
  run-balance ops (step op s).0 b,
  releases-append (step op s).1 (run ops (step op s).0).1 b,
)

-- In any history from an empty store, a buffer is given back at most as often as it was committed.
run-releases_committed :
    (ops : List Op) (b : ℕ) → releases (run ops empty_store).1 b ≤ commits (run ops empty_store).1 b
run-releases_committed ops b = omega (arith, run-balance ops empty_store b)
