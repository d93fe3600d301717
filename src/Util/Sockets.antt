-- ===== src/Util/Sockets.antt =====
-- `TCPConnectivityCheck` and `UDPConnectivityCheck` of internal/util/util.go.
use kube_combo.Prelude.{ℕ, String, ◌<>◌, Option, none, some, ret, Io, ◌>>=◌, pure, Result, ok, err}

-- The calls on connections, which are numbers; times are in seconds.
pub record Sockets (W : Type 0) : Type 0 where
  pub dial_timeout : String → ℕ → Io W (Result ℕ)
  pub resolve_udp_addr : String → Io W (Result String)
  pub dial_udp : String → Io W (Result ℕ)
  pub close : ℕ → W → W
  pub set_read_deadline : ℕ → ℕ → Io W (Option String)
  pub write : ℕ → String → Io W (Option String)
  pub read : ℕ → ℕ → Io W (Option String)

-- The next step, if there was no error so far; an error gets a prefix.
abbrev pub unless_error :
    {W : Type 0} → String → Io W (Option String) → Option String → Io W (Option String)
unless_error prefix next none = next
unless_error prefix next (some e) = pure (some (prefix <> e))

module _ {W : Type 0} (sockets : Sockets W) where
  open sockets use {dial_timeout, resolve_udp_addr, dial_udp, close, set_read_deadline, write, read}

  -- `defer conn.Close()` around what is left.
  abbrev pub closing : ℕ → Io W (Option String) → Io W (Option String)
  closing conn m = m >>= λ e w. ret (e, close conn w)

  -- An error of the dial is the answer; a connection is used and closed.
  abbrev pub after_dial : (ℕ → Io W (Option String)) → Result ℕ → Io W (Option String)
  after_dial next (err e) = pure (some e)
  after_dial next (ok conn) = closing conn (next conn)

  -- `TCPConnectivityCheck`
  unfoldable pub tcp_connectivity_check : String → Io W (Option String)
  tcp_connectivity_check endpoint = do
    dialled ← dial_timeout endpoint 3
    after_dial (λ conn. pure none) dialled

  abbrev pub exchange : ℕ → Io W (Option String)
  exchange conn =
      set_read_deadline conn 3
      >>= unless_error "" (
          write conn "health check"
          >>= unless_error "failed to send udp packet, " (
              read conn 1024
              >>= unless_error "failed to read udp packet from remote, " (pure none)))

  abbrev pub after_resolve : String → Result String → Io W (Option String)
  after_resolve endpoint (err e) = pure (some ("failed to resolve " <> endpoint <> ", " <> e))
  after_resolve endpoint (ok address) = dial_udp address >>= after_dial exchange

  -- `UDPConnectivityCheck`
  unfoldable pub udp_connectivity_check : String → Io W (Option String)
  udp_connectivity_check endpoint = resolve_udp_addr endpoint >>= after_resolve endpoint
