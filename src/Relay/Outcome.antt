-- ===== src/Relay/Outcome.antt =====
-- What comes of a relay session (src/relay.rs): what the peers have got.
use naleystogramm_server.Base.{
  ◌≡◌, refl, sym, ◌∙◌, ap, subst, true, List, [], ◌∷◌, ◌++◌, Option, none, some, map,
}
use naleystogramm_server.Relay.Sockets.{
  WsMsg, relaying, running, Link, opened, Event, recv_b, joiner_ws, joiner_recv, step, run,
}
use naleystogramm_server.Relay.Fifo.{
  data_of, heard_a, heard_b, IsPrefix, Forward, moved, Forward-IsPrefix, Backward-IsPrefix,
}
use naleystogramm_server.Relay.Exchange.{run-Both}
use mathlib.Core.List.{append-nil}

-- After any turns of the two handlers, in any order, the data frames that each peer has got are a
-- prefix of those that the other's handler has read, in the order in which they came: none is
-- changed, repeated or overtaken.
pub run-IsPrefix :
    (es : List Event)
    → let l = run es opened in
      IsPrefix (data_of l.to_b) (heard_a es opened) × IsPrefix (data_of l.to_a) (heard_b es opened)
run-IsPrefix es =
    let l = run es opened in
    let f = run-Both [] [] es opened (refl, refl) in
    (
      Forward-IsPrefix (heard_a es opened) l.creator l.withdrawn l.joiner l.a_to_b l.to_b f.0,
      Backward-IsPrefix (heard_b es opened) l.creator l.b_to_a l.to_a f.1,
    )

-- One turn for each frame that waits for the joiner, whose peer takes it.
abbrev pub drain : Option (List WsMsg) → List Event
drain none = []
drain (some q) = map (λ (m : WsMsg). recv_b true) q

drained :
    (q : List WsMsg) (l : Link)
    → run (map (λ (m : WsMsg). recv_b true) q) (record l { joiner = running; a_to_b = some q })
      ≡ record l { joiner = running; a_to_b = some []; to_b = l.to_b ++ q }
unfolding run step joiner_ws joiner_recv
drained [] l =
    ap (λ ms. record l { joiner = running; a_to_b = some []; to_b = ms }) (sym (append-nil l.to_b))
drained (m ∷ q) l =
    drained q (record l { to_b = l.to_b ++ m ∷ [] })
    ∙ ap (λ ms. record l { joiner = running; a_to_b = some []; to_b = ms }) (moved l.to_b m q)

run-append : (es fs : List Event) (l : Link) → run (es ++ fs) l ≡ run fs (run es l)
unfolding run
run-append [] fs l = refl
run-append (e ∷ es) fs l = run-append es fs (step e l)

delivered :
    (h : List WsMsg) (ch : Option (List WsMsg)) (l : Link)
    → Forward h relaying l.withdrawn running ch l.to_b
    → data_of (run (drain ch) (record l { joiner = running; a_to_b = ch })).to_b ≡ h
delivered h none l f = cc f.0
delivered h (some q) l f = ap (λ (k : Link). data_of k.to_b) (drained q l) ∙ f

-- Nothing is lost either: when both sides relay, as many turns of the joiner as frames wait in its
-- channel bring its peer all data frames that the creator's handler has read.
pub run-drain :
    (es : List Event)
    → let l = run es opened in
      l.creator ≡ relaying
      → l.joiner ≡ running
      → data_of (run (es ++ drain l.a_to_b) opened).to_b ≡ heard_a es opened
run-drain es relays runs =
    let l = run es opened in
    ap (λ (k : Link). data_of k.to_b) (run-append es (drain l.a_to_b) opened)
    ∙ ap (λ j. data_of (run (drain l.a_to_b) (record l { joiner = j })).to_b) runs
    ∙ delivered (heard_a es opened) l.a_to_b l (
        subst (λ j. Forward (heard_a es opened) relaying l.withdrawn j l.a_to_b l.to_b) runs
          (subst (λ c. Forward (heard_a es opened) c l.withdrawn l.joiner l.a_to_b l.to_b) relays
            (run-Both [] [] es opened (refl, refl)).0))
