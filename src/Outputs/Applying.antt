-- ===== src/Outputs/Applying.antt =====
-- Which configurations are ready to apply.
use aurora_compositor.Base.{
  if_map, ◌≡◌, ==_iff, refl, sym, ap, ◌∙◌, arith, ℕ, Bool, true, false, ◌&&◌, ◌||◌, List, [], ◌∷◌,
  ◌++◌, Option, none, some, ◌==◌, if◌then◌else◌, contains, Bool-cases, inl, inr,
}
use aurora_compositor.Outputs.{
  Configuration, ConfigEffect, new_configuration, enable_head, disable_head, apply, test,
  check_heads, ready_to_apply,
}

pub data ConfigRequest : Type 0 where
  enabled disabled : Option ℕ → ConfigRequest
  applied tested : List ℕ → ConfigRequest

unfoldable pub step : ConfigRequest → Configuration → Configuration × List ConfigEffect
unfolding enable_head disable_head apply test
step (enabled head) c = enable_head head c
step (disabled head) c = disable_head head c
step (applied heads) c = apply heads c
step (tested heads) c = test heads c

unfoldable pub run : List ConfigRequest → Configuration → Configuration
unfolding step
run [] c = c
run (r ∷ rs) c = run rs (step r c).0

-- Whether a history names a head, to enable or to disable it.
abbrev pub is_head : ℕ → Option ℕ → Bool
is_head h none = false
is_head h (some k) = k == h

unfoldable pub names : ℕ → List ConfigRequest → Bool
names h [] = false
names h (enabled o ∷ rs) = is_head h o || names h rs
names h (disabled o ∷ rs) = is_head h o || names h rs
names h (r ∷ rs) = names h rs

abbrev pub all_named : List ℕ → List ConfigRequest → Bool
all_named [] rs = true
all_named (h ∷ heads) rs = names h rs && all_named heads rs

abbrev all_in : List ℕ → List ℕ → Bool
all_in [] cs = true
all_in (h ∷ heads) cs = contains h cs && all_in heads cs

-- The effects of apply are those of a configuration that is complete.
abbrev pub is_ready : List ConfigEffect → Bool
is_ready (ready_to_apply ∷ []) = true
is_ready es = false

pub contains-append :
    (h : ℕ) (xs ys : List ℕ) → contains h (xs ++ ys) ≡ (contains h xs || contains h ys)
contains-append h [] ys = refl
contains-append h (x ∷ xs) ys = ap (λ b. (x == h) || b) (contains-append h xs ys) ∙ ground arith

named_by : ℕ → ConfigRequest → Bool
named_by h (enabled o) = is_head h o
named_by h (disabled o) = is_head h o
named_by h r = false

or_eq : (a b : Bool) → (b ≡ true → a ≡ true) → a ≡ (a || b)
or_eq true b f = refl
or_eq false true f = f refl
or_eq false false f = refl

-- Taking `k` into the configured heads, unless it is there.
configured-take :
    (h k : ℕ) (cs : List ℕ)
    → (if contains k cs then contains h cs else contains h (cs ++ k ∷ []))
      ≡ (contains h cs || (k == h))
configured-take h k cs = elim (Bool-cases (contains k cs)) [
  | inl e ↦ simp e (
      or_eq (contains h cs) (k == h)
        (λ same. ap (λ n. contains n cs) (sym ((==_iff k h).0 same)) ∙ e))
  | inr e ↦ simp e (contains-append h cs (k ∷ []) ∙ ground arith)
]

check_heads-is_ready :
    (heads : List ℕ) (c : Configuration)
    → is_ready (check_heads heads ready_to_apply c) ≡ all_in heads c.configured_heads
unfolding check_heads
check_heads-is_ready [] c = refl
check_heads-is_ready (h ∷ heads) c = elim (Bool-cases (contains h c.configured_heads)) [
  | inl e ↦ simp e (check_heads-is_ready heads c)
  | inr e ↦ simp e refl
]

step-configured :
    (h : ℕ) (r : ConfigRequest) (c : Configuration)
    → contains h (step r c).0.configured_heads ≡ (contains h c.configured_heads || named_by h r)
unfolding step enable_head disable_head apply test named_by
step-configured h (enabled none) c = or_eq (contains h c.configured_heads) false (λ e. absurd cc)
step-configured h (enabled (some k)) c =
    if_map (λ (p : Configuration × List ConfigEffect). contains h p.0.configured_heads)
      (contains k c.configured_heads) _ _
    ∙ configured-take h k c.configured_heads
step-configured h (disabled none) c = or_eq (contains h c.configured_heads) false (λ e. absurd cc)
step-configured h (disabled (some k)) c =
    if_map (λ (p : Configuration × List ConfigEffect). contains h p.0.configured_heads)
      (contains k c.configured_heads) _ _
    ∙ configured-take h k c.configured_heads
step-configured h (applied heads) c = or_eq (contains h c.configured_heads) false (λ e. absurd cc)
step-configured h (tested heads) c = or_eq (contains h c.configured_heads) false (λ e. absurd cc)

or_assoc : (a b c : Bool) → ((a || b) || c) ≡ (a || (b || c))
or_assoc true b c = refl
or_assoc false b c = refl

names-cons :
    (h : ℕ) (r : ConfigRequest) (rs : List ConfigRequest)
    → names h (r ∷ rs) ≡ (named_by h r || names h rs)
unfolding names named_by
names-cons h (enabled o) rs = refl
names-cons h (disabled o) rs = refl
names-cons h (applied heads) rs = refl
names-cons h (tested heads) rs = refl

pub run-configured :
    (h : ℕ) (rs : List ConfigRequest) (c : Configuration)
    → contains h (run rs c).configured_heads ≡ (contains h c.configured_heads || names h rs)
unfolding run names
run-configured h [] c = or_eq (contains h c.configured_heads) false (λ e. absurd cc)
run-configured h (r ∷ rs) c =
    run-configured h rs (step r c).0
    ∙ (ap (λ b. b || names h rs) (step-configured h r c)
        ∙ (or_assoc (contains h c.configured_heads) (named_by h r) (names h rs)
            ∙ ap (λ b. contains h c.configured_heads || b) (sym (names-cons h r rs))))

all_in-run :
    (heads : List ℕ) (rs : List ConfigRequest)
    → all_in heads (run rs new_configuration).configured_heads ≡ all_named heads rs
all_in-run [] rs = refl
all_in-run (h ∷ heads) rs =
    ap (λ b. b && all_in heads (run rs new_configuration).configured_heads)
      (run-configured h rs new_configuration)
    ∙ ap (λ b. names h rs && b) (all_in-run heads rs)

-- After any requests on a new configuration, apply announces that it is ready to be applied exactly if
-- each head of the manager is named by a request that enables or disables it.
pub apply-is_ready :
    (heads : List ℕ) (rs : List ConfigRequest)
    → is_ready (apply heads (run rs new_configuration)).1 ≡ all_named heads rs
unfolding apply
apply-is_ready heads rs =
    check_heads-is_ready heads (run rs new_configuration) ∙ all_in-run heads rs
