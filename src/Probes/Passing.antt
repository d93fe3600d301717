-- ===== src/Probes/Passing.antt =====
-- Loops, stages and pings that give no error, in terms of their steps.
use kube_combo.Prelude.{ℕ, String, ◌≡◌, refl, sym, ◌∙◌, ◌≢◌, ◌↔◌, Bool, true, false, not, Option}
use kube_combo.Prelude.{none, some, List, [], ◌∷◌, arith, if◌then◌else◌, Go, ret, Io, ◌>>=◌, pure}
use kube_combo.Prelude.{>>=-ret, subst, >>=-of_ret, ret-world, ret-value, bool_eq, nat_eq}
use kube_combo.Prelude.{string_eq, option_eq, list_eq}
use kube_combo.Probes.{Statistics, Pinged, finished, Metric, Network, Configuration}
use kube_combo.Probes.Ping.{latest, each, set_if}
use kube_combo.Probes.Check.{probe_if}
use kube_combo.Probes.Answers.{Chain, nothing, link, Asked, unasked, asked, Whole, whole}

latest-none : (old e : Option String) → latest old e ≡ none → (old ≡ none) × (e ≡ none)
latest-none old none h = (h, refl)
latest-none old (some e) h = cc

pub some-ne-none :
    {W : Type 0} (e : String) (w v : W)
    → ◌≢◌ {A = Go (Option String × W)} (ret (some e, w)) (ret (none, v))
some-ne-none e w v h = cc

module _ {W A : Type 0} (f : A → Io W (Option String)) (R : A → W → W → Type 0)
    (step : (x : A) (w v : W) → (f x w ≡ ret (none, v)) ↔ R x w v) where
  -- A loop that started with an error, or met one, gives one.
  pub each-Chain :
      (old : Option String) (xs : List A) (w v : W)
      → each f old xs w ≡ ret (none, v)
      → (old ≡ none) × Chain R xs w v
  unfolding each
  each-Chain old [] w v h = (ground arith, subst (Chain R [] w) (ground arith) nothing)
  each-Chain old (x ∷ xs) w v h =
      let (e, u, got, rest) =
        >>=-ret (f x) (λ (e : Option String). each f (latest old e) xs) w v none h in
      let (p, q) = each-Chain (latest old e) xs u v rest in
      let (a, b) = latest-none old e p in (a, link ((step x w u).0 (rw b at got)) q)

  Chain-each : (xs : List A) (w v : W) → Chain R xs w v → each f none xs w ≡ ret (none, v)
  unfolding each
  Chain-each [] w v nothing = refl
  Chain-each (x ∷ xs) w v (link {u = u} r rest) =
      >>=-of_ret (f x) (λ (e : Option String). each f (latest none e) xs) w u none
        ((step x w u).1 r)
      ∙ Chain-each xs u v rest

  pub each_iff : (xs : List A) (w v : W) → (each f none xs w ≡ ret (none, v)) ↔ Chain R xs w v
  each_iff xs w v = (λ h. (each-Chain none xs w v h).1, Chain-each xs w v)

module _ {W : Type 0} (probe : Io W (Option String)) (R : W → W → Type 0)
    (meaning : (w v : W) → (probe w ≡ ret (none, v)) ↔ R w v) where
  -- A guarded call without error.
  pub guarded_iff :
      (b : Bool) (w v : W) → ((if b then probe else pure none) w ≡ ret (none, v)) ↔ Asked b R w v
  guarded_iff true w v = (
    λ h. asked refl ((meaning w v).0 h),
    λ a. elim a [ asked e r ↦ (meaning w v).1 r | unasked e p ↦ cc ],
  )
  guarded_iff false w v = (
    λ h. unasked refl (sym (ret-world none none w v h)),
    λ a. elim a [ asked e r ↦ cc | unasked e p ↦ rw p ],
  )

  -- The same, with the branches swapped.
  pub unless_iff :
      (b : Bool) (w v : W)
      → ((if b then pure none else probe) w ≡ ret (none, v)) ↔ Asked (not b) R w v
  unless_iff true w v = guarded_iff false w v
  unless_iff false w v = guarded_iff true w v

  pub probe_if_iff :
      (b : Bool) (old : Option String) (w v : W)
      → (probe_if b probe old w ≡ ret (none, v)) ↔ ((old ≡ none) × Asked b R w v)
  probe_if_iff true old w v = (
    λ h.
        let (e, u, got, rest) =
          >>=-ret probe (λ (e : Option String). pure (latest old e)) w v none h in
        let (p, q) = latest-none old e (ret-value (latest old e) none u v rest) in
        (
          p,
          asked refl ((meaning w v).0 (rw q at rw (ret-world (latest old e) none u v rest) at got)),
        ),
    λ (p, a). elim a [
      | asked e r ↦ rw p (
          >>=-of_ret probe (λ (e : Option String). pure (latest none e)) w v none
            ((meaning w v).1 r))
      | unasked e q ↦ cc
    ],
  )
  probe_if_iff false old w v = (
    λ h. (ret-value old none w v h, unasked refl (sym (ret-world old none w v h))),
    λ (p, a). elim a [ asked e r ↦ cc | unasked e q ↦ rw (p, q) ],
  )

  -- A stage after others: there is no error exactly if neither they nor the probe give one.
  pub stage_iff :
      (b : Bool) (before : Io W (Option String)) (w v : W)
      → ((before >>= probe_if b probe) w ≡ ret (none, v))
        ↔ ((u : W) × (before w ≡ ret (none, u)) × Asked b R u v)
  stage_iff b before w v = (
    λ h.
        let (e, u, got, rest) = >>=-ret before (probe_if b probe) w v none h in
        let (p, a) = (probe_if_iff b e u v).0 rest in (u, rw p at got, a),
    λ (u, got, a).
        >>=-of_ret before (probe_if b probe) w u none got ∙ (probe_if_iff b none u v).1 (refl, a),
  )

-- What is asked for twice is asked for.
pub Asked-idem :
    {W : Type 0} (b : Bool) (R : W → W → Type 0) (w v : W) → Asked b (Asked b R) w v ↔ Asked b R w v
Asked-idem b R w v = (
  λ a. elim a [ asked e r ↦ r | unasked e p ↦ unasked e p ],
  λ a. elim a [ asked e r ↦ asked e (asked e r) | unasked e p ↦ unasked e p ],
)

pub Asked-true : {W : Type 0} (R : W → W → Type 0) (w v : W) → Asked true R w v ↔ R w v
Asked-true R w v = (λ a. elim a [ asked e r ↦ r | unasked e p ↦ cc ], λ r. asked refl r)

-- What a handler of ping results has to do for `Whole`: it reports every result but that of a ping
-- without loss, and then sets the metrics.
module _ (net : Network) (config : Configuration) (with_metrics : Bool)
    (metric : Statistics → Metric) (after : Pinged → Io net.World (Option String)) where
  abbrev pub Accepts : Type 0
  Accepts =
      (r : Pinged) (w v : net.World)
      → (after r w ≡ ret (none, v)) ↔ (
          (s : Statistics) × (r ≡ finished s)
          × (s.packets_recv ≡ s.packets_sent)
          × (v ≡ set_if net config with_metrics (metric s) w))

  pub pinged_iff :
      Accepts
      → (address : String) (timeout : ℕ) (w v : net.World)
      → ((net.ping address timeout >>= after) w ≡ ret (none, v))
        ↔ Whole net config with_metrics address timeout metric w v
  pinged_iff accepts address timeout w v = (
    λ h.
        let (r, u, got, rest) = >>=-ret (net.ping address timeout) after w v none h in
        let (s, p, q, moved) = (accepts r u v).0 rest in whole s u (rw p at got) q moved,
    λ a. elim a [
      | whole s u got q moved ↦
          >>=-of_ret (net.ping address timeout) after w u (finished s) got
          ∙ (accepts (finished s) u v).1 (s, refl, q, moved)
    ],
  )
