-- ===== src/Buffers/Counting.antt =====
-- The reference counts agree with the references, so that no reference dangles.
use aurora_compositor.Base.{
  ℕ, zero, suc, ◌+◌, ◌-◌, ◌≤◌, ◌<◌, ◌≡◌, ◌⊎◌, inl, refl, true, false, ◌&&◌, ◌||◌, List, [], ◌∷◌,
  ◌++◌, Option, none, some, arith, ◌==◌, if◌then◌else◌, length, get_or,
}
use aurora_compositor.Buffers.{
  ClientBuffer, no_buffer, ref, deref, Store, set_ref, ref_at, deref_at, assign,
}

abbrev pub refers : Option ℕ → ℕ → ℕ
refers none b = 0
refers (some a) b = if b == a then 1 else 0

-- How many references refer to a buffer.
abbrev pub count_refs : List (Option ℕ) → ℕ → ℕ
count_refs [] b = 0
count_refs (r ∷ rs) b = refers r b + count_refs rs b

-- Each count is the number of references, a buffer is freed exactly if its resource is destroyed
-- and nothing refers to it, a destroyed buffer has no resource, a registered one belongs to its
-- resource, and the numbers from `next` on are unused.
pub record IsCounted (s : Store) : Type 0 where
  pub counts : (b : ℕ) → (s.buffers b).ref_count ≡ count_refs s.refs b
  pub freed :
      (b : ℕ) → (s.buffers b).deleted ≡ (s.buffers b).destroyed && (s.buffers b).ref_count == 0
  pub cleared : (b : ℕ) → (s.buffers b).destroyed ≡ true → (s.buffers b).resource ≡ none
  pub registered : (r b : ℕ) → s.registry r ≡ some b → (s.buffers b).resource ≡ some r
  pub unused : (b : ℕ) → s.next ≤ b → s.buffers b ≡ no_buffer

pub count_refs-set_ref :
    (rs : List (Option ℕ)) (i : ℕ) (r : Option ℕ) (b : ℕ)
    → i < length rs
    → count_refs (set_ref rs i r) b + refers (get_or rs i none) b ≡ count_refs rs b + refers r b
count_refs-set_ref [] i r b h = elim h [ ]
count_refs-set_ref (x ∷ xs) zero r b h = omega arith
count_refs-set_ref (x ∷ xs) (suc i) r b h = omega (arith, count_refs-set_ref xs i r b (omega arith))

pub refers-le_count :
    (rs : List (Option ℕ)) (i b : ℕ) → refers (get_or rs i none) b ≤ count_refs rs b
refers-le_count [] i b = omega arith
refers-le_count (x ∷ xs) zero b = omega arith
refers-le_count (x ∷ xs) (suc i) b = omega (arith, refers-le_count xs i b)

pub count_refs-append :
    (rs : List (Option ℕ)) (r : Option ℕ) (b : ℕ)
    → count_refs (rs ++ r ∷ []) b ≡ count_refs rs b + refers r b
count_refs-append [] r b = omega arith
count_refs-append (x ∷ xs) r b = omega (arith, count_refs-append xs r b)

-- A reference or a lookup may name a buffer only if the object was made and is not freed.
abbrev pub IsAlive : Store → Option ℕ → Type 0
IsAlive s r = (b : ℕ) → r ≡ some b → ((s.buffers b).deleted ≡ false) × (b < s.next)

-- A buffer changes by a ref only in its count.
pub ref_at-fields :
    (r : Option ℕ) (f : ℕ → ClientBuffer) (b : ℕ)
    → ref_at r f b ≡ record (f b) { ref_count = (f b).ref_count + refers r b }
unfolding ref
ref_at-fields none f b = ground arith
ref_at-fields (some a) f b = ground arith

pub deref_at-fields :
    (r : Option ℕ) (f : ℕ → ClientBuffer) (b : ℕ)
    → ((deref_at r f b).ref_count ≡ (f b).ref_count - refers r b)
      × ((deref_at r f b).resource ≡ (f b).resource)
      × ((deref_at r f b).destroyed ≡ (f b).destroyed)
      × ((deref_at r f b).deleted
          ≡ (f b).deleted || ((f b).ref_count == refers r b && refers r b == 1 && (f b).destroyed))
unfolding deref
deref_at-fields none f b = ground arith
deref_at-fields (some a) f b = ground arith

assign-fields :
    (i : ℕ) (r : Option ℕ) (s : Store) (b : ℕ)
    → (((assign i r s).0.buffers b).ref_count
        ≡ (s.buffers b).ref_count + refers r b - refers (get_or s.refs i none) b)
      × (((assign i r s).0.buffers b).resource ≡ (s.buffers b).resource)
      × (((assign i r s).0.buffers b).destroyed ≡ (s.buffers b).destroyed)
      × (((assign i r s).0.buffers b).deleted
          ≡ (s.buffers b).deleted
            || ((s.buffers b).ref_count + refers r b == refers (get_or s.refs i none) b
                && refers (get_or s.refs i none) b == 1
                && (s.buffers b).destroyed))
unfolding assign
assign-fields i r s b = ground (
  arith,
  ref_at-fields r s.buffers b,
  deref_at-fields (get_or s.refs i none) (ref_at r s.buffers) b,
)

deref_at-other :
    (r : Option ℕ) (f : ℕ → ClientBuffer) (b : ℕ) → refers r b ≡ 0 → deref_at r f b ≡ f b
deref_at-other none f b h = refl
deref_at-other (some a) f b h = ground arith

pub refers-IsAlive :
    (s : Store) (r : Option ℕ) (b : ℕ)
    → IsAlive s r
    → (refers r b ≡ 0) ⊎ ((refers r b ≡ 1) × ((s.buffers b).deleted ≡ false) × (b < s.next))
refers-IsAlive s none b alive = inl refl
refers-IsAlive s (some a) b alive = ground (arith, alive a refl)

-- One buffer before and after an assignment, where `new` and `old` say whether it is assigned and
-- let go.
freed_step :
    (x : ClientBuffer) (new old : ℕ)
    → old ≤ x.ref_count
    → old ≤ 1
    → (new ≡ 0) ⊎ ((new ≡ 1) × (x.deleted ≡ false))
    → x.deleted ≡ x.destroyed && x.ref_count == 0
    → (x.deleted || (x.ref_count + new == old && old == 1 && x.destroyed))
      ≡ x.destroyed && (x.ref_count + new - old == 0)
freed_step x new old h k alive e = ground arith

pub assign-IsCounted :
    (i : ℕ) (r : Option ℕ) (s : Store)
    → i < length s.refs
    → IsAlive s r
    → IsCounted s
    → IsCounted (assign i r s).0
unfolding assign
assign-IsCounted i r s h alive c =
    let old = get_or s.refs i none in
    record {
      counts =
          λ b. ground (arith, assign-fields i r s b, c.counts b, count_refs-set_ref s.refs i r b h);
      freed = λ b. ground (
        arith,
        assign-fields i r s b,
        freed_step (s.buffers b) (refers r b) (refers old b)
            (ground (arith, refers-le_count s.refs i b, c.counts b)) (ground arith)
            (ground (refers-IsAlive s r b alive, arith)) (c.freed b),
      );
      cleared = λ b. ground (arith, assign-fields i r s b, c.cleared b);
      registered = λ q b. ground (arith, assign-fields i r s b, c.registered q b);
      unused = λ b k. ground (
        arith,
        deref_at-other old (ref_at r s.buffers) b,
        refers-IsAlive s r b alive,
        ref_at-fields r s.buffers b,
        c.unused b k,
        c.counts b,
        refers-le_count s.refs i b,
      );
    }
