-- ===== src/Egress/Proxy/Connections.antt =====
-- apps/server/src/egress-proxy.ts: the connections that the proxy keeps for each principal, and their draining.
use tik_tok_tech_jam.Base.{
  ℕ, suc, ◌==◌, String, Bool, not, ◌&&◌, List, [], ◌∷◌, ◌++◌, map, filter, any, length, nat_eq,
  if◌then◌else◌,
}

-- one closable of one principal
pub record Live : Type 0 where
  pub principal_id : String
  pub closable : String

-- `live` stands for the map of sets, `generation` is 0 for a principal that was never drained, and `destroyed`
-- holds what is closed.
pub record ProxyState : Type 0 where
  pub live : List Live
  pub generation : String → ℕ
  pub destroyed : List String

abbrev pub generation_is_current : String → ℕ → ProxyState → Bool
generation_is_current principal_id g s = nat_eq (s.generation principal_id) g

abbrev same_live : Live → Live → Bool
same_live x y = x.principal_id == y.principal_id && x.closable == y.closable

abbrev pub live_of : String → String → Live
live_of principal_id closable = record { principal_id = principal_id; closable = closable }

abbrev pub track_one : String → String → ProxyState → ProxyState
track_one principal_id closable s =
    if any (same_live (live_of principal_id closable)) s.live
    then s
    else record s { live = live_of principal_id closable ∷ s.live }

unfoldable pub track : String → List String → ProxyState → ProxyState
track principal_id [] s = s
track principal_id (c ∷ cs) s = track principal_id cs (track_one principal_id c s)

-- the `close` event of a closable
unfoldable pub forget : String → ProxyState → ProxyState
forget closable s = record s {
  live = filter (λ x. not (x.closable == closable)) s.live;
  destroyed = closable ∷ s.destroyed;
}

abbrev pub owned_by : String → Live → Bool
owned_by principal_id x = x.principal_id == principal_id

-- The number of what was closed; closing is taken to succeed.
unfoldable pub close_principal_connections : String → ProxyState → ℕ × ProxyState
close_principal_connections principal_id s =
    let set = filter (owned_by principal_id) s.live in
    (
      length set,
      record {
        live = filter (λ x. not (owned_by principal_id x)) s.live;
        generation = λ q. if q == principal_id then suc (s.generation q) else s.generation q;
        destroyed = map (λ x. x.closable) set ++ s.destroyed;
      },
    )

-- what other connections do to the state
pub data Event : Type 0 where
  tracks : String → List String → Event
  closes : String → Event
  drains : String → Event

abbrev pub happen : Event → ProxyState → ProxyState
happen (tracks principal_id cs) s = track principal_id cs s
happen (closes closable) s = forget closable s
happen (drains principal_id) s = (close_principal_connections principal_id s).1

unfoldable pub happenings : List Event → ProxyState → ProxyState
happenings [] s = s
happenings (e ∷ es) s = happenings es (happen e s)
