-- ===== src/Util/Closed.antt =====
-- Every connection that util.go opens is closed.
use kube_combo.Prelude.{ℕ, suc, ◌-◌, String, ◌<>◌, ◌≡◌, refl, sym, ap, ◌∙◌, Option, none, some}
use kube_combo.Prelude.{arith, ret, Io, ◌>>=◌, pure, Result, ok, err, >>=-ret, Keeps, IsPreorder}
use kube_combo.Prelude.{pure-Keeps, >>=-Keeps, ret-world, bool_eq, nat_eq, string_eq, option_eq}
use kube_combo.Prelude.{list_eq}
use kube_combo.Util.Sockets.{Sockets, unless_error, after_dial, tcp_connectivity_check, exchange}
use kube_combo.Util.Sockets.{after_resolve, udp_connectivity_check}

-- The number of what is open does not change.
abbrev pub SameOpen : {W : Type 0} → (W → ℕ) → W → W → Type 0
SameOpen open_count w v = open_count v ≡ open_count w

-- One more is open if a call gives a number; none if it gives an error.
abbrev pub opened : Result ℕ → ℕ → ℕ
opened (ok c) n = suc n
opened (err e) n = n

abbrev pub Opens : {W : Type 0} → (W → ℕ) → Io W (Result ℕ) → Type 0
Opens {W} open_count m =
    (w v : W) (r : Result ℕ) → m w ≡ ret (r, v) → open_count v ≡ opened r (open_count w)

-- A dial opens a connection, `close` closes one, and the other calls do neither.
pub record IsCounted {W : Type 0} (sockets : Sockets W) (open_count : W → ℕ) : Type 0 where
  pub dial_timeout_opens : (e : String) (t : ℕ) → Opens open_count (sockets.dial_timeout e t)
  pub dial_udp_opens : (address : String) → Opens open_count (sockets.dial_udp address)
  pub close_closes : (c : ℕ) (w : W) → open_count (sockets.close c w) ≡ open_count w - 1
  pub resolve_keeps : (e : String) → Keeps (SameOpen open_count) (sockets.resolve_udp_addr e)
  pub deadline_keeps : (c t : ℕ) → Keeps (SameOpen open_count) (sockets.set_read_deadline c t)
  pub write_keeps : (c : ℕ) (s : String) → Keeps (SameOpen open_count) (sockets.write c s)
  pub read_keeps : (c n : ℕ) → Keeps (SameOpen open_count) (sockets.read c n)

pub SameOpen-IsPreorder : {W : Type 0} (open_count : W → ℕ) → IsPreorder (SameOpen open_count)
SameOpen-IsPreorder open_count = record { rests = λ w. refl; follows = λ u v w f g. g ∙ f }

-- What is opened and then closed once leaves the number as it was.
opened_closed :
    {W : Type 0} {A : Type 0} (open_count : W → ℕ) (close : W → W) (before : W)
    → ((w : W) → open_count (close w) ≡ open_count w - 1)
    → (m : Io W A) → Keeps (SameOpen open_count) m
    → (w v : W) (a : A) → open_count w ≡ suc (open_count before)
    → (m >>= λ a w. ret (a, close w)) w ≡ ret (a, v)
    → open_count v ≡ open_count before
opened_closed open_count close before closes m keeps w v a more h =
    let (b, u, first, rest) = >>=-ret m (λ a w. ret (a, close w)) w v a h in
    let same = keeps w u b first in
    let closed = closes u in
    let here = ap open_count (ret-world b a (close u) v rest) in omega arith

module _ {W : Type 0} (sockets : Sockets W) (open_count : W → ℕ)
    (counted : IsCounted sockets open_count) where
  abbrev Same : W → W → Type 0
  Same = SameOpen open_count

  abbrev order : IsPreorder Same
  order = SameOpen-IsPreorder open_count

  unless_error-Keeps :
      (prefix : String) (next : Io W (Option String)) (e : Option String)
      → Keeps Same next
      → Keeps Same (unless_error prefix next e)
  unless_error-Keeps prefix next none keeps = keeps
  unless_error-Keeps prefix next (some e) keeps = pure-Keeps Same order (some (prefix <> e))

  exchange-Keeps : (c : ℕ) → Keeps Same (exchange sockets c)
  exchange-Keeps c =
      >>=-Keeps Same order (sockets.set_read_deadline c 3) _ (counted.deadline_keeps c 3) (λ e.
        unless_error-Keeps "" _ e (
          >>=-Keeps Same order (sockets.write c "health check") _
            (counted.write_keeps c "health check")
            (λ e. unless_error-Keeps "failed to send udp packet, " _ e (
              >>=-Keeps Same order (sockets.read c 1024) _ (counted.read_keeps c 1024) (λ e.
                unless_error-Keeps "failed to read udp packet from remote, " _ e
                  (pure-Keeps Same order none))))))

  after_dial-Keeps :
      (dial : Io W (Result ℕ)) (next : ℕ → Io W (Option String))
      → Opens open_count dial
      → ((c : ℕ) → Keeps Same (next c))
      → Keeps Same (dial >>= after_dial sockets next)
  after_dial-Keeps dial next opens keeps w v e h =
      let (r, u, first, rest) = >>=-ret dial (after_dial sockets next) w v e h in
      of_dial r u first rest
    where
      of_dial :
          (r : Result ℕ) (u : W)
          → dial w ≡ ret (r, u)
          → after_dial sockets next r u ≡ ret (e, v)
          → open_count v ≡ open_count w
      of_dial (err d) u first rest =
          ap open_count (sym (ret-world (some d) e u v rest)) ∙ opens w u (err d) first
      of_dial (ok c) u first rest =
          opened_closed open_count (sockets.close c) w (counted.close_closes c) (next c) (keeps c) u
            v e (opens w u (ok c) first) rest

  pub tcp_connectivity_check-SameOpen :
      (endpoint : String) → Keeps Same (tcp_connectivity_check sockets endpoint)
  unfolding tcp_connectivity_check
  tcp_connectivity_check-SameOpen endpoint =
      after_dial-Keeps (sockets.dial_timeout endpoint 3) (λ c. pure none)
        (counted.dial_timeout_opens endpoint 3) (λ c. pure-Keeps Same order none)

  after_resolve-Keeps :
      (endpoint : String) (r : Result String) → Keeps Same (after_resolve sockets endpoint r)
  after_resolve-Keeps endpoint (err e) =
      pure-Keeps Same order (some ("failed to resolve " <> endpoint <> ", " <> e))
  after_resolve-Keeps endpoint (ok address) =
      after_dial-Keeps (sockets.dial_udp address) (exchange sockets)
        (counted.dial_udp_opens address) exchange-Keeps

  pub udp_connectivity_check-SameOpen :
      (endpoint : String) → Keeps Same (udp_connectivity_check sockets endpoint)
  unfolding udp_connectivity_check
  udp_connectivity_check-SameOpen endpoint =
      >>=-Keeps Same order (sockets.resolve_udp_addr endpoint) (after_resolve sockets endpoint)
        (counted.resolve_keeps endpoint) (after_resolve-Keeps endpoint)
