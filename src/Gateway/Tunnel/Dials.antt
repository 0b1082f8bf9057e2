-- ===== src/Gateway/Tunnel/Dials.antt =====
-- main.rs: how often a request makes `handle_iroh_connection` dial, and that it is answered.
use mjolnir.Base.{
  ℕ, ◌+◌, ◌≤◌, Bool, true, false, ◌&&◌, Option, none, some, List, Str, if◌then◌else◌, Result, ok,
  err, arith, ◌≡◌, ◌≢◌,
}
use mjolnir.Gateway.Classify.{ProxyError, pool_stale}
use mjolnir.Gateway.Subdomain.{SubdomainInfo, parse_z32_subdomain}
use mjolnir.Gateway.Tunnel.{
  Net, IrohConfig, Links, Step, Opened, Ending, answered, unanswered, resolve_ticket, dial_node,
  take_connection, open_stream, send, setup_iroh_proxy, forward_headers_and_probe, is_pool_stale,
  after_probe, after_setup, attempt, attempts, handle_iroh_connection,
}

-- The reading of a subdomain fails with no stale pool.
abbrev NotStale : Result ProxyError SubdomainInfo → Type 0
NotStale (err e) = is_pool_stale e ≡ false
NotStale (ok info) = Unit {0}

parse_z32_subdomain-NotStale : (s : Str) → NotStale (parse_z32_subdomain s)
unfolding parse_z32_subdomain is_pool_stale
parse_z32_subdomain-NotStale s = ground arith

module _ {Conn Stream : Type 0} (net : Net Conn Stream) where
  -- The setup dials twice at most, and once at most where the pool had the connection, which it
  -- has not where a fresh one is forced.
  abbrev SetupDials : ℕ → Bool → Step Conn Stream (Opened Stream) → Type 0
  SetupDials dials force_fresh (err e, t) = (t.dials ≤ dials + 2) × (is_pool_stale e ≡ false)
  SetupDials dials force_fresh (ok o, t) =
      (t.dials + (if o.pool_hit then 1 else 0) ≤ dials + 2) × ((force_fresh && o.pool_hit) ≡ false)

  setup-dials :
      (cfg : IrohConfig) (sub : Str) (force_fresh : Bool) (s : Links Conn Stream)
      → SetupDials s.dials force_fresh (setup_iroh_proxy net cfg sub force_fresh s)
  unfolding setup_iroh_proxy resolve_ticket take_connection open_stream send dial_node is_pool_stale
  setup-dials cfg sub force_fresh s = ground (arith, parse_z32_subdomain-NotStale sub)

  -- A round that leaves another to come dialled once at most, and was not the last.
  abbrev RoundDials : ℕ → Bool → Option (Ending Stream) × Links Conn Stream → Type 0
  RoundDials dials force_fresh (none, t) = (t.dials ≤ dials + 1) × (force_fresh ≡ false)
  RoundDials dials force_fresh (some x, t) =
      (t.dials ≤ dials + 2) × (x ≢ unanswered) × (x ≢ answered pool_stale)

  after_setup-dials :
      (dials : ℕ) (cfg : IrohConfig) (header_buf : List ℕ) (force_fresh : Bool)
      (r : Step Conn Stream (Opened Stream))
      → SetupDials dials force_fresh r
      → RoundDials dials force_fresh (after_setup net cfg header_buf force_fresh r)
  unfolding after_setup forward_headers_and_probe send after_probe is_pool_stale
  after_setup-dials dials cfg header_buf force_fresh (err e, t) h = ground arith
  after_setup-dials dials cfg header_buf force_fresh (ok o, t) h = ground arith

  attempt-dials :
      (cfg : IrohConfig) (sub : Str) (header_buf : List ℕ) (force_fresh : Bool)
      (s : Links Conn Stream)
      → RoundDials s.dials force_fresh (attempt net cfg sub header_buf force_fresh s)
  unfolding attempt
  attempt-dials cfg sub header_buf force_fresh s =
      after_setup-dials s.dials cfg header_buf force_fresh
        (setup_iroh_proxy net cfg sub force_fresh s) (setup-dials cfg sub force_fresh s)

  -- How a request to a node ends: its client's streams are joined or it has an answer, which is
  -- no stale pool's.
  pub record IsAnswered (before after : Links Conn Stream) (ending : Ending Stream) : Type 0 where
    pub few_dials : after.dials ≤ before.dials + 3
    pub spoken : ending ≢ unanswered
    pub not_stale : ending ≢ answered pool_stale

  -- Whatever the network does, a request to a node is proxied or answered with an error after three
  -- dials at most, and a pool's stale connection is never what the client is told of.
  pub handle_iroh_connection-IsAnswered :
      (cfg : IrohConfig) (sub : Str) (header_buf : List ℕ) (s : Links Conn Stream)
      → let r = handle_iroh_connection net cfg sub header_buf s in IsAnswered s r.1 r.0
  unfolding handle_iroh_connection attempts
  handle_iroh_connection-IsAnswered cfg sub header_buf s =
      let (x, t) = attempt net cfg sub header_buf false s in
      let first : RoundDials s.dials false (x, t) = attempt-dials cfg sub header_buf false s in
      let second = attempt-dials cfg sub header_buf true t in
      record {
        few_dials = ground (arith, first, second);
        spoken = ground (arith, first, second);
        not_stale = ground (arith, first, second);
      }
