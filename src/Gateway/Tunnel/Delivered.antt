-- ===== src/Gateway/Tunnel/Delivered.antt =====
-- main.rs: what a node gets of a request that `handle_iroh_connection` hands on, and the pool.
use mjolnir.Base.{
  ℕ, zero, suc, ◌<◌, length, Bool, true, false, Option, none, some, List, [], ◌∷◌, ◌++◌, Str,
  Result, ok, err, arith, ◌≡◌, append_assoc, Option-cases, inl, inr,
}
use mjolnir.Base.Bytes.{to_be16}
use mjolnir.Gateway.Classify.{ProxyError}
use mjolnir.Gateway.Subdomain.{SubdomainInfo, parse_z32_subdomain}
use mjolnir.Gateway.Tunnel.{
  Net, IrohConfig, Links, Step, Opened, Ending, proxied, answered, unanswered, resolve_ticket,
  dial_node, take_connection, open_stream, send, setup_iroh_proxy, forward_headers_and_probe,
  is_pool_stale, after_probe, after_setup, attempt, attempts, handle_iroh_connection,
}

-- The port that a subdomain asks for.
abbrev pub asked_port : IrohConfig → Result ProxyError SubdomainInfo → ℕ
asked_port cfg (err e) = 0
asked_port cfg (ok info) = elim info.port [ none ↦ cfg.default_port | some port ↦ port ]

module _ {Conn Stream : Type 0} (net : Net Conn Stream) where
  abbrev SetupSent : List (Stream × List ℕ) → ℕ → Step Conn Stream (Opened Stream) → Type 0
  SetupSent sent port (err e, t) = Unit {0}
  SetupSent sent port (ok o, t) = t.sent ≡ sent ++ (o.stream, to_be16 port) ∷ []

  setup-sent :
      (cfg : IrohConfig) (sub : Str) (force_fresh : Bool) (s : Links Conn Stream)
      → SetupSent s.sent
          (asked_port cfg (parse_z32_subdomain sub))
          (setup_iroh_proxy net cfg sub force_fresh s)
  unfolding setup_iroh_proxy resolve_ticket take_connection open_stream send dial_node
  setup-sent cfg sub force_fresh s = ground arith

  -- What a round writes on its stream.
  abbrev pub round_of : Stream → ℕ → List ℕ → List (Stream × List ℕ)
  round_of stream port header_buf = (stream, to_be16 port) ∷ (stream, header_buf) ∷ []

  -- A round that went on to its probe on this stream wrote twice, both times on it.
  abbrev RoundOn :
      Stream
      → List (Stream × List ℕ)
      → ℕ
      → List ℕ
      → Option (Ending Stream) × Links Conn Stream
      → Type 0
  RoundOn st sent port header_buf (some (proxied stream byte), t) =
      t.sent ≡ sent ++ round_of stream port header_buf
  RoundOn st sent port header_buf (some x, t) = Unit {0}
  RoundOn st sent port header_buf (none, t) = t.sent ≡ sent ++ round_of st port header_buf

  abbrev RoundSent :
      List (Stream × List ℕ) → ℕ → List ℕ → Option (Ending Stream) × Links Conn Stream → Type 0
  RoundSent sent port header_buf (some (proxied stream byte), t) =
      t.sent ≡ sent ++ round_of stream port header_buf
  RoundSent sent port header_buf (some x, t) = Unit {0}
  RoundSent sent port header_buf (none, t) =
      (st : Stream) × (t.sent ≡ sent ++ round_of st port header_buf)

  rounded :
      (st : Stream) (sent : List (Stream × List ℕ)) (port : ℕ) (header_buf : List ℕ)
      (r : Option (Ending Stream) × Links Conn Stream)
      → RoundOn st sent port header_buf r
      → RoundSent sent port header_buf r
  rounded st sent port header_buf (some (proxied stream byte), t) h = h
  rounded st sent port header_buf (some (answered e), t) h = tt
  rounded st sent port header_buf (some unanswered, t) h = tt
  rounded st sent port header_buf (none, t) h = (st, h)

  after_setup-on :
      (sent : List (Stream × List ℕ)) (port : ℕ) (cfg : IrohConfig) (header_buf : List ℕ)
      (force_fresh : Bool) (o : Opened Stream) (t : Links Conn Stream)
      → SetupSent sent port (ok o, t)
      → RoundOn o.stream sent port header_buf (after_setup net cfg header_buf force_fresh (ok o, t))
  unfolding after_setup forward_headers_and_probe send after_probe is_pool_stale
  after_setup-on sent port cfg header_buf force_fresh o t h =
      let joined =
        append_assoc sent ((o.stream, to_be16 port) ∷ []) ((o.stream, header_buf) ∷ []) in
      ground (arith, joined)

  after_setup-sent :
      (sent : List (Stream × List ℕ)) (port : ℕ) (cfg : IrohConfig) (header_buf : List ℕ)
      (force_fresh : Bool) (r : Step Conn Stream (Opened Stream))
      → SetupSent sent port r
      → RoundSent sent port header_buf (after_setup net cfg header_buf force_fresh r)
  unfolding after_setup
  after_setup-sent sent port cfg header_buf force_fresh (err e, t) h = tt
  after_setup-sent sent port cfg header_buf force_fresh (ok o, t) h =
      rounded o.stream sent port header_buf (after_setup net cfg header_buf force_fresh (ok o, t))
        (after_setup-on sent port cfg header_buf force_fresh o t h)

  attempt-sent :
      (cfg : IrohConfig) (sub : Str) (header_buf : List ℕ) (force_fresh : Bool)
      (s : Links Conn Stream)
      → RoundSent s.sent
          (asked_port cfg (parse_z32_subdomain sub))
          header_buf
          (attempt net cfg sub header_buf force_fresh s)
  unfolding attempt
  attempt-sent cfg sub header_buf force_fresh s =
      after_setup-sent s.sent (asked_port cfg (parse_z32_subdomain sub)) cfg header_buf force_fresh
        (setup_iroh_proxy net cfg sub force_fresh s) (setup-sent cfg sub force_fresh s)

  abbrev pub rounds_of : List Stream → ℕ → List ℕ → List (Stream × List ℕ)
  rounds_of [] port header_buf = []
  rounds_of (st ∷ sts) port header_buf =
      round_of st port header_buf ++ rounds_of sts port header_buf

  -- All that was written: a round on each stream that was given up, and then the one on `stream`.
  pub record WritesRounds (before after : List (Stream × List ℕ)) (stream : Stream) (port : ℕ)
      (header_buf : List ℕ) (most : ℕ) : Type 0 where
    pub given_up : List Stream
    pub few : length given_up < most
    pub writes :
        after ≡ before ++ (rounds_of given_up port header_buf ++ round_of stream port header_buf)

  attempts-delivers :
      (n : ℕ) (cfg : IrohConfig) (sub : Str) (header_buf : List ℕ) (force_fresh : Bool)
      (s : Links Conn Stream) (stream : Stream) (byte : Option ℕ)
      → (attempts net n cfg sub header_buf force_fresh s).0 ≡ proxied stream byte
      → WritesRounds s.sent
          (attempts net n cfg sub header_buf force_fresh s).1.sent
          stream
          (asked_port cfg (parse_z32_subdomain sub))
          header_buf
          n
  unfolding attempts
  attempts-delivers zero cfg sub header_buf force_fresh s stream byte h = cc
  attempts-delivers (suc n) cfg sub header_buf force_fresh s stream byte h =
      let (x, t) = attempt net cfg sub header_buf force_fresh s in
      let port = asked_port cfg (parse_z32_subdomain sub) in
      let here : RoundSent s.sent port header_buf (x, t) =
        attempt-sent cfg sub header_buf force_fresh s in
      elim (Option-cases (attempt net cfg sub header_buf force_fresh s).0) [
        | inl e ↦
            let k : (attempts net n cfg sub header_buf true t).0 ≡ proxied stream byte =
              ground arith in
            let ih = attempts-delivers n cfg sub header_buf true t stream byte k in
            let (st, wrote) : (st : Stream) × (t.sent ≡ s.sent ++ round_of st port header_buf) =
              rw e at here in
            rw (attempts, e)
              (record {
                given_up = st ∷ ih.given_up;
                few = omega (arith, ih.few);
                writes = cc (
                  ih.writes,
                  wrote,
                  append_assoc s.sent (round_of st port header_buf)
                      (rounds_of ih.given_up port header_buf ++ round_of stream port header_buf),
                );
              })
        | inr (y, e) ↦
            rw (attempts, e)
              (record { given_up = []; few = omega arith; writes = ground (arith, here) })
      ]

  -- Where a client's stream is joined with a node's, all that was written for it is, on that stream,
  -- the port that the subdomain asks for and then the whole request as it was read, each once; and
  -- before it the same on at most one other stream, which was given up.
  pub handle_iroh_connection-delivers :
      (cfg : IrohConfig) (sub : Str) (header_buf : List ℕ) (s : Links Conn Stream) (stream : Stream)
      (byte : Option ℕ)
      → (handle_iroh_connection net cfg sub header_buf s).0 ≡ proxied stream byte
      → WritesRounds s.sent
          (handle_iroh_connection net cfg sub header_buf s).1.sent
          stream
          (asked_port cfg (parse_z32_subdomain sub))
          header_buf
          2
  unfolding handle_iroh_connection
  handle_iroh_connection-delivers cfg sub header_buf s stream byte h =
      attempts-delivers 2 cfg sub header_buf false s stream byte h
