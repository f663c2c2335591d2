-- ===== src/Buffers/Steps.antt =====
-- Every operation on buffers keeps the counts right.
use aurora_compositor.Base.{
  ℕ, ◌<◌, ◌≡◌, ◌⊎◌, inl, inr, refl, Bool, true, false, ◌&&◌, List, [], ◌∷◌, Option, none, some,
  arith, ◌==◌, length, get_or, Option-cases,
}
use aurora_compositor.Buffers.{
  set_destroyed, set_committed, Store, empty_store, get_buffer, construct, destroy_buffer,
  commit_ref, Op, attach, copy, destruct, destroy, commit, step, run,
}
use aurora_compositor.Buffers.Counting.{
  IsCounted, IsAlive, count_refs, count_refs-append, refers-IsAlive, refers-le_count, ref_at-fields,
  assign-IsCounted,
}

construct-IsCounted :
    (r : Option ℕ) (s : Store) → IsAlive s r → IsCounted s → IsCounted (construct r s)
unfolding construct
construct-IsCounted r s alive c = record {
  counts =
      λ b. ground (arith, ref_at-fields r s.buffers b, c.counts b, count_refs-append s.refs r b);
  freed = λ b. ground (arith, ref_at-fields r s.buffers b, refers-IsAlive s r b alive, c.freed b);
  cleared = λ b. ground (arith, ref_at-fields r s.buffers b, c.cleared b);
  registered = λ q b. ground (arith, ref_at-fields r s.buffers b, c.registered q b);
  unused =
      λ b k. ground (arith, ref_at-fields r s.buffers b, refers-IsAlive s r b alive, c.unused b k);
}

-- A registered buffer is in use.
registered-IsAlive :
    (s : Store) (q b : ℕ) → IsCounted s → s.registry q ≡ some b → IsAlive s (some b)
registered-IsAlive s q b c e =
    λ b2 same. ground (arith, c.registered q b e, c.freed b, c.cleared b, c.unused b)

-- What a variable refers to is in use.
pub get_or-IsAlive : (s : Store) (j : ℕ) → IsCounted s → IsAlive s (get_or s.refs j none)
get_or-IsAlive s j c =
    λ b e. ground (arith, c.counts b, c.freed b, c.unused b, refers-le_count s.refs j b)

get_buffer-IsCounted :
    (supported : Bool) (q : ℕ) (s : Store)
    → IsCounted s
    → IsCounted (get_buffer supported q s).0
      × IsAlive (get_buffer supported q s).0 (get_buffer supported q s).1
unfolding get_buffer
get_buffer-IsCounted true q s c = elim (Option-cases (s.registry q)) [
  | inr (b, e) ↦ rw (e, get_buffer) (c, registered-IsAlive s q b c e)
  | inl e ↦
      rw (e, get_buffer)
        (
          record {
            counts = λ b. ground (arith, c.counts b, c.unused s.next);
            freed = λ b. ground (arith, c.freed b);
            cleared = λ b. ground (arith, c.cleared b);
            registered = λ q2 b. ground (arith, c.registered q2 b, c.unused b);
            unused = λ b k. ground (arith, c.unused b);
          },
          λ b same. ground arith,
        )
]
get_buffer-IsCounted false q s c = elim (Option-cases (s.registry q)) [
  | inr (b, e) ↦ rw (e, get_buffer) (c, registered-IsAlive s q b c e)
  | inl e ↦ rw (e, get_buffer) (c, λ b same. ground arith)
]

destroy_buffer-IsCounted : (q : ℕ) (s : Store) → IsCounted s → IsCounted (destroy_buffer q s)
unfolding destroy_buffer set_destroyed
destroy_buffer-IsCounted q s c = elim (Option-cases (s.registry q)) [
  | inl e ↦ rw (e, destroy_buffer) c
  | inr (a, e) ↦
      rw (e, destroy_buffer)
        (record {
          counts = λ b. ground (arith, c.counts b);
          freed = λ b. ground (arith, c.freed b, registered-IsAlive s q a c e a refl);
          cleared = λ b. ground (arith, c.cleared b);
          registered = λ q2 b. ground (arith, c.registered q2 b, c.registered q a);
          unused = λ b k. ground (arith, c.unused b, registered-IsAlive s q a c e a refl);
        })
]

commit_ref-IsCounted : (i : ℕ) (s : Store) → IsCounted s → IsCounted (commit_ref i s).0
unfolding commit_ref set_committed
commit_ref-IsCounted i s c = elim (Option-cases (get_or s.refs i none)) [
  | inl e ↦ rw (e, commit_ref) c
  | inr (a, e) ↦
      rw (e, commit_ref)
        (record {
          counts = λ b. ground (arith, c.counts b);
          freed = λ b. ground (arith, c.freed b);
          cleared = λ b. ground (arith, c.cleared b);
          registered = λ q2 b. ground (arith, c.registered q2 b);
          unused = λ b k. ground (arith, c.unused b, get_or-IsAlive s i c a e);
        })
]

pub empty_store-IsCounted : IsCounted empty_store
empty_store-IsCounted = record {
  counts = λ b. refl;
  freed = λ b. refl;
  cleared = λ b. ground arith;
  registered = λ r b. ground arith;
  unused = λ b h. refl;
}

-- The variables that an operation names exist; `operator=` and the destructor are called on one.
abbrev pub IsInScope : Op → ℕ → Type 0
IsInScope (attach supported q) n = Unit
IsInScope (copy i j) n = i < n
IsInScope (destruct i) n = i < n
IsInScope (destroy q) n = Unit
IsInScope (commit i) n = Unit

pub step-IsCounted :
    (op : Op) (s : Store) → IsInScope op (length s.refs) → IsCounted s → IsCounted (step op s).0
unfolding step
step-IsCounted (attach supported q) s h c =
    let (c1, alive) = get_buffer-IsCounted supported q s c in construct-IsCounted _ _ alive c1
step-IsCounted (copy i j) s h c = assign-IsCounted i _ s h (get_or-IsAlive s j c) c
step-IsCounted (destruct i) s h c = assign-IsCounted i none s h (λ b e. ground arith) c
step-IsCounted (destroy q) s h c = destroy_buffer-IsCounted q s c
step-IsCounted (commit i) s h c = commit_ref-IsCounted i s c

-- A history of operations, each on variables that exist.
pub data History : List Op → Store → Type 0 where
  done : {s : Store} → History [] s
  then_ :
      {op : Op} {ops : List Op} {s : Store}
      → IsInScope op (length s.refs)
      → History ops (step op s).0
      → History (op ∷ ops) s

pub run-IsCounted :
    (ops : List Op) (s : Store) → History ops s → IsCounted s → IsCounted (run ops s).0
unfolding run
run-IsCounted [] s done c = c
run-IsCounted (op ∷ ops) s (then_ h hs) c =
    run-IsCounted ops (step op s).0 hs (step-IsCounted op s h c)

-- After any history from an empty store, a reference count is the number of the variables that refer
-- to the buffer, and a buffer is freed exactly if it is destroyed and no variable refers to it.
pub run_counted :
    (ops : List Op) (b : ℕ)
    → History ops empty_store
    → let s = (run ops empty_store).0 in
      ((s.buffers b).ref_count ≡ count_refs s.refs b)
      × ((s.buffers b).deleted ≡ (s.buffers b).destroyed && (count_refs s.refs b == 0))
run_counted ops b h =
    let c = run-IsCounted ops empty_store h empty_store-IsCounted in
    (c.counts b, ground (arith, c.freed b, c.counts b))

-- After any history from an empty store, a buffer that a variable refers to, or that is registered for
-- a resource, was made and is not freed.
pub run_never_dangles :
    (ops : List Op) (j q b : ℕ)
    → History ops empty_store
    → let s = (run ops empty_store).0 in
      (get_or s.refs j none ≡ some b) ⊎ (s.registry q ≡ some b)
      → ((s.buffers b).deleted ≡ false) × (b < s.next)
run_never_dangles ops j q b h found =
    let s = (run ops empty_store).0 in
    let c = run-IsCounted ops empty_store h empty_store-IsCounted in
    elim found [ inl e ↦ get_or-IsAlive s j c b e | inr e ↦ registered-IsAlive s q b c e b refl ]
