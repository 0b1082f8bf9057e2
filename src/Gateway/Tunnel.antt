-- ===== src/Gateway/Tunnel.antt =====
-- main.rs: the way of a request to a node, `setup_iroh_proxy`, `forward_headers_and_probe` and
-- `handle_iroh_connection`. The network library is a record of what it answers at each moment; the
-- state holds the pool of connections and what was written.
pub mod Delivered
pub mod Dials
use mjolnir.Base.{
  ℕ, zero, suc, ◌+◌, Bool, true, false, not, ◌&&◌, Option, none, some, List, [], ◌∷◌, ◌++◌, Str,
  codes, if◌then◌else◌, ◌==◌, length, Result, ok, err,
}
use mjolnir.Base.Bytes.{to_be16}
use mjolnir.Base.Decimal.{decimal}
use mjolnir.Gateway.Classify.{
  ProxyError, invalid_ticket, connect_timeout, connect_error, stream_error, response_timeout,
  pool_stale,
}
use mjolnir.Gateway.Pool
use mjolnir.Gateway.Pool.{ConnectionPool}
use mjolnir.Gateway.Subdomain.{SubdomainInfo, parse_z32_subdomain}

-- What an operation with a timeout comes to.
pub data Timed (A : Type 0) : Type 0 where
  late : Timed A
  broke : Str → Timed A
  came : A → Timed A

-- The libraries `z32` and `iroh`: decoding, keys, and the answers of the network.
pub record Net (Conn Stream : Type 0) : Type 0 where
  pub z32_decode : Str → Result Str (List ℕ)
  pub key_from_bytes : List ℕ → Result Str Str
  pub closed : ℕ → Conn → Bool
  pub connect : ℕ → Str → Timed Conn
  pub open_bi : ℕ → Conn → Result Str Stream
  pub write_all : ℕ → Stream → List ℕ → Option Str
  pub read_byte : ℕ → ℕ → Stream → Timed (Option ℕ)

pub record IrohConfig : Type 0 where
  pub response_timeout_ms : ℕ
  pub pool_probe_timeout_ms : ℕ
  pub default_port : ℕ

-- `now` counts the network's answers, `dials` the calls of `connect`; `sent` has the writes in
-- their order.
pub record Links (Conn Stream : Type 0) : Type 0 where
  pub pool : ConnectionPool Conn
  pub now : ℕ
  pub dials : ℕ
  pub sent : List (Stream × List ℕ)

-- A result with the state that it leaves.
abbrev pub Step : Type 0 → Type 0 → Type 0 → Type 0
Step Conn Stream A = Result ProxyError A × Links Conn Stream

pub record Opened (Stream : Type 0) : Type 0 where
  pub stream : Stream
  pub pool_hit : Bool
  pub key : Str

-- How a connection ends: the streams are joined, an error is answered, or nothing is said.
pub data Ending (Stream : Type 0) : Type 0 where
  proxied : Stream → Option ℕ → Ending Stream
  answered : ProxyError → Ending Stream
  unanswered : Ending Stream

unfoldable pub is_pool_stale : ProxyError → Bool
is_pool_stale pool_stale = true
is_pool_stale e = false

module _ {Conn Stream : Type 0} (net : Net Conn Stream) where
  unfoldable pub resolve_ticket : Str → Result ProxyError Str
  resolve_ticket z32_str = elim (net.z32_decode z32_str) [
    | err e ↦ err (invalid_ticket (codes "z32 decode: " ++ e))
    | ok bytes ↦
        if not (length bytes == 32)
        then err (invalid_ticket (codes "expected 32 bytes, got " ++ decimal (length bytes)))
        else elim (net.key_from_bytes bytes) [ err e ↦ err (invalid_ticket e) | ok key ↦ ok key ]
  ]

  abbrev pub tick : Links Conn Stream → Links Conn Stream
  tick s = record s { now = s.now + 1 }

  -- A connection is made and put into the pool.
  unfoldable pub dial_node : Str → Links Conn Stream → Step Conn Stream Conn
  dial_node key s = elim (net.connect s.now key) [
    | late ↦ (err connect_timeout, record s { now = s.now + 1; dials = s.dials + 1 })
    | broke e ↦ (err (connect_error e), record s { now = s.now + 1; dials = s.dials + 1 })
    | came conn ↦ (
      ok conn,
      record s { pool = Pool.insert s.now key conn s.pool; now = s.now + 1; dials = s.dials + 1 },
    )
  ]

  abbrev fresh : Step Conn Stream Conn → Step Conn Stream (Conn × Bool)
  fresh (err e, s) = (err e, s)
  fresh (ok conn, s) = (ok (conn, false), s)

  abbrev pooled :
      Str → Links Conn Stream → Option Conn × ConnectionPool Conn → Step Conn Stream (Conn × Bool)
  pooled key s (some conn, pool) = (ok (conn, true), record s { pool = pool })
  pooled key s (none, pool) = fresh (dial_node key (record s { pool = pool }))

  -- The connection to use, and whether the pool had it.
  unfoldable pub take_connection : Str → Bool → Links Conn Stream → Step Conn Stream (Conn × Bool)
  take_connection key true s = fresh (dial_node key (record s { pool = Pool.evict key s.pool }))
  take_connection key false s = pooled key s (Pool.get (net.closed s.now) s.now key s.pool)

  abbrev opened : Links Conn Stream → Result Str Stream → Step Conn Stream Stream
  opened s (err e) = (err (stream_error e), s)
  opened s (ok stream) = (ok stream, s)

  abbrev reopen : Step Conn Stream Conn → Step Conn Stream Stream
  reopen (err e, s) = (err e, s)
  reopen (ok conn, s) = opened (tick s) (net.open_bi s.now conn)

  -- `open_bi`, with one new connection where the old one is stale.
  unfoldable pub open_stream : Str → Conn → Links Conn Stream → Step Conn Stream Stream
  open_stream key conn s = elim (net.open_bi s.now conn) [
    | ok stream ↦ (ok stream, tick s)
    | err e ↦ reopen (dial_node key (record s { now = s.now + 1; pool = Pool.evict key s.pool }))
  ]

  -- A write that fails is no write.
  unfoldable pub send : Stream → List ℕ → Links Conn Stream → Step Conn Stream Stream
  send stream bytes s = elim (net.write_all s.now stream bytes) [
    | some e ↦ (err (stream_error e), tick s)
    | none ↦ (ok stream, record s { now = s.now + 1; sent = s.sent ++ (stream, bytes) ∷ [] })
  ]

  abbrev ported : Stream → Bool → Str → Step Conn Stream Stream → Step Conn Stream (Opened Stream)
  ported stream hit key (err e, s) = (err e, s)
  ported stream hit key (ok st, s) = (ok (record { stream = stream; pool_hit = hit; key = key }), s)

  abbrev pub then_port : ℕ → Bool → Str → Step Conn Stream Stream → Step Conn Stream (Opened Stream)
  then_port port hit key (err e, s) = (err e, s)
  then_port port hit key (ok stream, s) = ported stream hit key (send stream (to_be16 port) s)

  abbrev pub then_open : ℕ → Str → Step Conn Stream (Conn × Bool) → Step Conn Stream (Opened Stream)
  then_open port key (err e, s) = (err e, s)
  then_open port key (ok (conn, hit), s) = then_port port hit key (open_stream key conn s)

  abbrev pub port_of : IrohConfig → SubdomainInfo → ℕ
  port_of cfg info = elim info.port [ none ↦ cfg.default_port | some port ↦ port ]

  unfoldable pub setup_iroh_proxy :
      IrohConfig → Str → Bool → Links Conn Stream → Step Conn Stream (Opened Stream)
  setup_iroh_proxy cfg subdomain force_fresh s = elim (parse_z32_subdomain subdomain) [
    | err e ↦ (err e, s)
    | ok info ↦ elim (resolve_ticket info.node_id_z32) [
      | err e ↦ (err e, s)
      | ok key ↦ then_open (port_of cfg info) key (take_connection key force_fresh s)
    ]
  ]

  abbrev timeout_err : Bool → ProxyError
  timeout_err hit = if hit then pool_stale else response_timeout

  abbrev probed : Bool → Links Conn Stream → Timed (Option ℕ) → Step Conn Stream (Option ℕ)
  probed hit s (came (some b)) = (ok (some b), s)
  probed hit s (came none) = (err (timeout_err hit), s)
  probed hit s (broke e) = (err (stream_error e), s)
  probed hit s late = (err (timeout_err hit), s)

  abbrev then_probe : Stream → ℕ → Bool → Step Conn Stream Stream → Step Conn Stream (Option ℕ)
  then_probe stream probe hit (err e, s) = (err e, s)
  then_probe stream probe hit (ok st, s) =
      if probe == 0 then (ok none, s) else probed hit (tick s) (net.read_byte s.now probe stream)

  -- The first byte of the answer, where a probe is asked for.
  unfoldable pub forward_headers_and_probe :
      List ℕ → Stream → ℕ → Bool → Links Conn Stream → Step Conn Stream (Option ℕ)
  forward_headers_and_probe header_buf stream probe hit s =
      then_probe stream probe hit (send stream header_buf s)

  abbrev probe_for : IrohConfig → Bool → ℕ
  probe_for cfg hit =
      if hit && not (cfg.pool_probe_timeout_ms == 0)
      then cfg.pool_probe_timeout_ms
      else cfg.response_timeout_ms

  -- What a round comes to: an ending, or another round.
  abbrev pub Round : Type 0
  Round = Option (Ending Stream) × Links Conn Stream

  unfoldable pub after_probe : Opened Stream → Bool → Step Conn Stream (Option ℕ) → Round
  unfolding is_pool_stale
  after_probe o force_fresh (ok first_byte, s) = (some (proxied o.stream first_byte), s)
  after_probe o force_fresh (err e, s) =
      if is_pool_stale e && not force_fresh
      then (none, record s { pool = Pool.evict o.key s.pool })
      else (some (answered e), s)

  unfoldable pub after_setup : IrohConfig → List ℕ → Bool → Step Conn Stream (Opened Stream) → Round
  unfolding forward_headers_and_probe after_probe
  after_setup cfg header_buf force_fresh (err e, s) = (some (answered e), s)
  after_setup cfg header_buf force_fresh (ok o, s) =
      after_probe o force_fresh
        (forward_headers_and_probe header_buf o.stream (probe_for cfg o.pool_hit) o.pool_hit s)

  unfoldable pub attempt : IrohConfig → Str → List ℕ → Bool → Links Conn Stream → Round
  unfolding after_setup
  attempt cfg subdomain header_buf force_fresh s =
      after_setup cfg header_buf force_fresh (setup_iroh_proxy cfg subdomain force_fresh s)

  -- `for attempt in 0..2`, with the rounds that are left: each after the first is forced to be
  -- fresh, and has the request that the one before it took.
  unfoldable pub attempts :
      ℕ → IrohConfig → Str → List ℕ → Bool → Links Conn Stream → Ending Stream × Links Conn Stream
  attempts zero cfg subdomain header_buf force_fresh s = (unanswered, s)
  attempts (suc n) cfg subdomain header_buf force_fresh s =
      let (ending, t) = attempt cfg subdomain header_buf force_fresh s in
      elim ending [ some e ↦ (e, t) | none ↦ attempts n cfg subdomain header_buf true t ]

  unfoldable pub handle_iroh_connection :
      IrohConfig → Str → List ℕ → Links Conn Stream → Ending Stream × Links Conn Stream
  unfolding attempts attempt
  handle_iroh_connection cfg subdomain header_buf s = attempts 2 cfg subdomain header_buf false s
