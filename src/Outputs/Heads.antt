-- ===== src/Outputs/Heads.antt =====
-- The lists of enabled and of disabled heads.
use aurora_compositor.Base.{
  if_lem, ◌≡◌, refl, sym, ap, ◌∙◌, arith, ℕ, ◌+◌, Bool, true, false, ◌||◌, List, [], ◌∷◌, ◌++◌,
  none, some, ◌==◌, ==_iff, if◌then◌else◌, contains, count, count-append,
}
use aurora_compositor.Outputs.{
  Configuration, ConfigEffect, new_configuration, enable_head, disable_head, apply, test,
}
use aurora_compositor.Outputs.Applying.{
  ConfigRequest, enabled, disabled, applied, tested, step, run, names, contains-append,
  run-configured,
}

-- A configured head stands once in one of the lists.
IsBalanced : ℕ → Configuration → Type 0
IsBalanced h c =
    count h c.enabled_heads + count h c.disabled_heads
    ≡ (if contains h c.configured_heads then 1 else 0)

taken_once :
    (h k n : ℕ) (cs : List ℕ)
    → contains k cs ≡ false
    → n ≡ (if contains h cs then 1 else 0)
    → (n + count h (k ∷ [])) ≡ (if contains h (cs ++ k ∷ []) then 1 else 0)
taken_once h k n cs fresh e =
    sum (k == h) (contains h cs)
      (λ same. ap (λ m. contains m cs) (sym ((==_iff k h).0 same)) ∙ fresh) e
    ∙ ap (λ b. if b then 1 else 0) (sym (contains-append h cs (k ∷ [])))
  where
    sum :
        (same there : Bool)
        → (same ≡ true → there ≡ false)
        → n ≡ (if there then 1 else 0)
        → (n + (if same then 1 else 0)) ≡ (if there || (same || false) then 1 else 0)
    sum true true f e = let no : true ≡ false = f refl in absurd cc
    sum true false f e = omega arith
    sum false true f e = omega arith
    sum false false f e = omega arith

step-IsBalanced :
    (h : ℕ) (r : ConfigRequest) (c : Configuration) → IsBalanced h c → IsBalanced h (step r c).0
unfolding step enable_head disable_head apply test IsBalanced
step-IsBalanced h (enabled none) c b = b
step-IsBalanced h (enabled (some k)) c b =
    if_lem (λ (p : Configuration × List ConfigEffect). IsBalanced h p.0)
      (contains k c.configured_heads) _ _ (λ there. b)
      (λ fresh.
        omega (arith, count-append h c.enabled_heads (k ∷ []))
        ∙ taken_once h k (count h c.enabled_heads + count h c.disabled_heads) c.configured_heads
            fresh b)
step-IsBalanced h (disabled none) c b = b
step-IsBalanced h (disabled (some k)) c b =
    if_lem (λ (p : Configuration × List ConfigEffect). IsBalanced h p.0)
      (contains k c.configured_heads) _ _ (λ there. b)
      (λ fresh.
        omega (arith, count-append h c.disabled_heads (k ∷ []))
        ∙ taken_once h k (count h c.enabled_heads + count h c.disabled_heads) c.configured_heads
            fresh b)
step-IsBalanced h (applied heads) c b = b
step-IsBalanced h (tested heads) c b = b

run-IsBalanced :
    (h : ℕ) (rs : List ConfigRequest) (c : Configuration) → IsBalanced h c → IsBalanced h (run rs c)
unfolding run
run-IsBalanced h [] c b = b
run-IsBalanced h (r ∷ rs) c b = run-IsBalanced h rs (step r c).0 (step-IsBalanced h r c b)

-- After any requests on a new configuration, a head stands once in one of the lists of enabled and of
-- disabled heads if a request has named it, and in none of them otherwise.
pub run-lists_once :
    (h : ℕ) (rs : List ConfigRequest)
    → count h (run rs new_configuration).enabled_heads
        + count h (run rs new_configuration).disabled_heads
      ≡ (if names h rs then 1 else 0)
unfolding IsBalanced
run-lists_once h rs =
    run-IsBalanced h rs new_configuration refl
    ∙ ap (λ b. if b then 1 else 0) (run-configured h rs new_configuration)
