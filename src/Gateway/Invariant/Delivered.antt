-- ===== src/Gateway/Invariant/Delivered.antt =====
-- internal/gateway/hub.go, internal/room/room.go: what the clients of a room receive of a tick.
use lurkspire.Prelude.{
  ℕ, ◌+◌, ◌≡◌, refl, sym, ap, ◌∙◌, inl, inr, List, [], ◌∷◌, ◌++◌, some, true, false, arith,
  if◌then◌else◌, Bool-cases, Option-cases, lookup, insert, modify, nat_key, All-lookup,
  lookup-insert, ==_iff,
}
use lurkspire.Protocol.Battle.{HitEvent, encode_state}
use lurkspire.Room.Float.{FloatOps}
use lurkspire.Room.Player.{Player, Players, snapshot}
use lurkspire.Room.State.{
  Room, Out, broadcast, emptied_notice, joined, states, events, equipped, ticks,
}
use lurkspire.Room.Loop.{step, on_tick}
use lurkspire.Room.Roster.{age_offline, notify_empty, tick_offline_players}
use lurkspire.Room.Upkeep.{tick_combat}
use lurkspire.Room.Broadcast.{
  msg_battle_state, snapshots_of, broadcast_events, broadcast_tick, settle, just_died,
}
use lurkspire.Gateway.State.{Env, Session, World}
use lurkspire.Gateway.Send.{frame}
use lurkspire.Gateway.Send.Queue.{newest}
use lurkspire.Gateway.Registry.{members}
use lurkspire.Gateway.Friends.{contains_id}
use lurkspire.Gateway.Battle.{room_call, route, broadcast_to_room}
use lurkspire.Gateway.Battle.Members.{AreDistinct}
use lurkspire.Gateway.Battle.Delivery.{frames_of, tick_room-delivers}
use lurkspire.Gateway.Server.{tick_room}
use lurkspire.Gateway.Steady.{IsQueued}
use lurkspire.Gateway.Invariant.{IsWorld}

frames_of-append : (xs ys : List Out) → frames_of (xs ++ ys) ≡ frames_of xs ++ frames_of ys
frames_of-append [] ys = refl
frames_of-append (broadcast id body ∷ xs) ys =
    ap (λ fs. frame id body ∷ fs) (frames_of-append xs ys)
frames_of-append (emptied_notice name ∷ xs) ys = frames_of-append xs ys
frames_of-append (joined done ∷ xs) ys = frames_of-append xs ys
frames_of-append (states ps ∷ xs) ys = frames_of-append xs ys
frames_of-append (events evs ∷ xs) ys = frames_of-append xs ys
frames_of-append (equipped ∷ xs) ys = frames_of-append xs ys

-- A write that a snapshot does not show.
snapshots_of-modify :
    (k : ℕ) (f : Player → Player) (ps : Players)
    → ((p : Player) → snapshot (f p) ≡ snapshot p)
    → snapshots_of (modify k f ps) ≡ snapshots_of ps
unfolding modify
snapshots_of-modify k f [] h = refl
snapshots_of-modify k f ((j, p) ∷ ps) h = ground (arith, h p, snapshots_of-modify k f ps h)

snapshots_of-events :
    (evs : List HitEvent) (ps : Players)
    → snapshots_of (broadcast_events evs ps).0 ≡ snapshots_of ps
unfolding broadcast_events
snapshots_of-events [] ps = refl
snapshots_of-events (ev ∷ evs) ps = elim (Bool-cases (just_died (lookup ev.target ps))) [
  | inl e ↦
      rw (e, broadcast_events)
        (snapshots_of-events evs (modify ev.target (λ p. record p { just_died = false }) ps)
          ∙ snapshots_of-modify ev.target (λ p. record p { just_died = false }) ps
              (λ p. unfold snapshot in refl))
  | inr e ↦ rw (e, broadcast_events) (snapshots_of-events evs ps)
]

players-settle : (r : Room) → (settle r).0.players ≡ r.players
unfolding settle
players-settle r = ground arith

frames_of-notify_empty : (r : Room) → frames_of (notify_empty r).1 ≡ []
unfolding notify_empty
frames_of-notify_empty r = ground arith

on_broadcast-notify_empty : (r : Room) → (notify_empty r).0.on_broadcast ≡ r.on_broadcast
unfolding notify_empty
on_broadcast-notify_empty r = ground arith

-- The first frame of a push holds the players as the push leaves them.
broadcast_tick-state :
    (r : Room)
    → (more : List (List ℕ)) × (frames_of (broadcast_tick r).1
        ≡ frame msg_battle_state (encode_state (snapshots_of (broadcast_tick r).0.players)) ∷ more)
unfolding broadcast_tick
broadcast_tick-state r =
    let (ps, hits) = broadcast_events r.pending_events r.players in
    let (r', end) = settle (record r { players = ps; pending_events = [] }) in
    let same : snapshots_of r'.players ≡ snapshots_of r.players =
      ap snapshots_of (players-settle (record r { players = ps; pending_events = [] }))
      ∙ snapshots_of-events r.pending_events r.players in
    (
      frames_of (hits ++ end),
      ap (λ ss. frame msg_battle_state (encode_state ss) ∷ frames_of (hits ++ end)) (sym same),
    )

-- So does that of a tick, whose other messages are no frames.
on_tick-state :
    (ops : FloatOps) (draws : ℕ → ℕ) (r : Room)
    → r.on_broadcast ≡ true
    → (more : List (List ℕ)) × (frames_of (on_tick ops draws r).1
        ≡ frame msg_battle_state (encode_state (snapshots_of (on_tick ops draws r).0.players))
          ∷ more)
unfolding on_tick tick_offline_players
on_tick-state ops draws r e =
    let aged : Room = record r {
      tick = r.tick + 1;
      players = age_offline r.cfg.reconnect_grace_ticks (tick_combat ops draws r.players);
    } in
    let on : (notify_empty aged).0.on_broadcast ≡ true = on_broadcast-notify_empty aged ∙ e in
    let (more, q) = broadcast_tick-state (notify_empty aged).0 in
    let v : Room = (notify_empty aged).0 in
    let made : on_tick ops draws r
        ≡ ((broadcast_tick v).0, (notify_empty aged).1 ++ (broadcast_tick v).1) =
      rw (on, on_tick) refl in
    rw made (
      more,
      frames_of-append (notify_empty aged).1 (broadcast_tick v).1
          ∙ (ap (λ fs. fs ++ frames_of (broadcast_tick v).1) (frames_of-notify_empty aged) ∙ q),
    )

module _ {S : Type 0} where
  rooms-route : (r : ℕ) (outs : List Out) (w : World S) → (route r outs w).rooms ≡ w.rooms
  unfolding route broadcast_to_room
  rooms-route r [] w = refl
  rooms-route r (broadcast id body ∷ outs) w = rooms-route r outs (broadcast_to_room r id body w)
  rooms-route r (emptied_notice name ∷ outs) w =
      rooms-route r outs (record w { cleanups = w.cleanups ++ ((r, name) ∷ []) })
  rooms-route r (joined done ∷ outs) w = rooms-route r outs w
  rooms-route r (states ps ∷ outs) w = rooms-route r outs w
  rooms-route r (events evs ∷ outs) w = rooms-route r outs w
  rooms-route r (equipped ∷ outs) w = rooms-route r outs w

-- What a tick of a room comes to for a session: the room goes on; the first frame that it pushes holds
-- its players as they are then; the frames are behind what a session of the room has waiting, and a
-- session elsewhere waits for what it did.
pub record IsTicked {S : Type 0} (env : Env S) (r u : ℕ) (draws : ℕ → ℕ) (w : World S) (s : Session)
    : Type 0 where
  pub room : Room
  pub session : Session
  pub more : List (List ℕ)
  pub runs : lookup r (tick_room env r draws w).rooms ≡ some room
  pub found : lookup u (tick_room env r draws w).sessions ≡ some session
  pub pushed :
      frames_of (room_call env r (ticks draws) w).1
      ≡ frame msg_battle_state (encode_state (snapshots_of room.players)) ∷ more
  pub queue : session.write_q ≡ (
      if contains_id u (members r w)
      then newest (s.write_q ++ frames_of (room_call env r (ticks draws) w).1)
      else s.write_q)

module _ {S : Type 0} (n : ℕ) (env : Env S) (w : World S) (h : IsWorld n w) where
  members-AreDistinct : (r : ℕ) → AreDistinct (members r w)
  members-AreDistinct r = elim (Option-cases (lookup r w.room_sessions)) [
    | inl e ↦ rw e tt
    | inr (uids, e) ↦ rw e (All-lookup (λ x. AreDistinct x.1) r uids w.room_sessions h.apart e)
  ]

  -- In a process that is in order, a tick of a running room whose callback is set first pushes the
  -- state of all its players, as the tick leaves them. An open session of the room then has the tick's
  -- frames, each once and in order, behind what it had waiting, of which the newest 128 stay; any
  -- other open session has what it had. The room goes on.
  pub tick_reaches :
      (r u : ℕ) (draws : ℕ → ℕ) (room : Room) (s : Session)
      → lookup r w.rooms ≡ some room
      → room.on_broadcast ≡ true
      → lookup u w.sessions ≡ some s
      → s.closed ≡ false
      → IsTicked env r u draws w s
  unfolding tick_room room_call step
  tick_reaches r u draws room s e on found opened =
      let (s', here, q) =
        tick_room-delivers env r u draws w s (members-AreDistinct r) found opened
          (All-lookup IsQueued u s w.sessions h.queued found) in
      let (more, fs) = on_tick-state env.ops draws room on in
      let called : room_call env r (ticks draws) w ≡ (
        record w { rooms = insert r (on_tick env.ops draws room).0 w.rooms },
        (on_tick env.ops draws room).1,
      ) =
        rw (e, room_call) refl in
      let there : lookup r (tick_room env r draws w).rooms ≡ some (on_tick env.ops draws room).0 =
        ap (lookup r)
          (rooms-route r (room_call env r (ticks draws) w).1 (room_call env r (ticks draws) w).0)
        ∙ (ap (λ c. lookup r c.0.rooms) called
            ∙ (lookup-insert r r (on_tick env.ops draws room).0 w.rooms
                ∙ ground (arith, ==_iff r r))) in
      record {
        room = (on_tick env.ops draws room).0;
        session = s';
        more = more;
        runs = there;
        found = here;
        pushed = rw called fs;
        queue = q;
      }
