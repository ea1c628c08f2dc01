-- ===== src/Gateway/Server.antt =====
-- internal/gateway/server.go, session.go and hub.go: connections that come and go, and the events of
-- the whole process in the order in which they happen.
use lurkspire.Prelude.{
  ℕ, zero, suc, nth, ◌+◌, ◌/◌, List, [], ◌∷◌, none, some, true, false, if◌then◌else◌, ltb, drop,
  u32, lookup, insert, erase, modify, nat_key,
}
use lurkspire.Protocol.Frame.{Frame}
use lurkspire.Room.State.{sets_online, ticks}
use lurkspire.Gateway.State.{Env, Session, World, new_session}
use lurkspire.Gateway.Send.{session_of}
use lurkspire.Gateway.Presence.{broadcast_online}
use lurkspire.Gateway.Battle.{room_call, set_room, drop_member, route, clean_up}
use lurkspire.Gateway.Session.{handle}

abbrev pub touch : ℕ → Session → Session
touch now s = record s { last_active = now }

abbrev pub write_one : Session → Session
write_one s = if s.closed then s else record s { write_q = drop 1 s.write_q }

abbrev pub remove_at : {A : Type 0} → ℕ → List A → List A
remove_at i [] = []
remove_at zero (x ∷ xs) = xs
remove_at (suc i) (x ∷ xs) = x ∷ remove_at i xs

-- What happens next. Times are in nanoseconds; `draw` is what random numbers are drawn with.
pub data Event : Type 0 where
  accepts : ℕ → Event
  receives : ℕ → ℕ → ℕ → Frame → Event
  ends : ℕ → Event
  writes : ℕ → Event
  watches : ℕ → ℕ → Event
  room_ticks : ℕ → (ℕ → ℕ) → Event
  cleans_up : ℕ → Event
  shuts_down : Event

abbrev pub served_uids : List (ℕ × ℕ) → List ℕ
served_uids [] = []
served_uids (entry ∷ served) = entry.1 ∷ served_uids served

module _ {S : Type 0} where
  -- The part of `OnDisconnect` about the room.
  unfoldable pub go_offline : Env S → ℕ → World S → World S
  unfolding room_call
  go_offline env uid w = elim (session_of uid w).room [
    | none ↦ w
    | some h ↦
        let login_uid = (session_of uid w).login_uid in
        drop_member h uid (room_call env h (sets_online login_uid false) (set_room uid none w)).0
  ]

  -- `OnDisconnect`
  unfoldable pub on_disconnect : Env S → ℕ → World S → World S
  unfolding go_offline broadcast_online
  on_disconnect env uid w =
      let s = session_of uid w in
      let w = go_offline env uid w in
      if s.logged_in
      then broadcast_online env s.login_uid false (record w { online = erase s.login_uid w.online })
      else w

  -- `Session.Close`
  unfoldable pub close : Env S → ℕ → World S → World S
  unfolding on_disconnect
  close env uid w =
      if (session_of uid w).closed
      then w
      else on_disconnect env uid
          (record w { sessions = modify uid (λ s. record s { closed = true }) w.sessions })

  unfoldable pub close_all : Env S → List ℕ → World S → World S
  unfolding close
  close_all env [] w = w
  close_all env (uid ∷ uids) w = close_all env uids (close env uid w)

  -- One connection of `Server.Serve`: `AllocUID`, `NewSession` and the server's map.
  unfoldable pub accept_conn : ℕ → World S → World S
  accept_conn now w =
      if w.server_closed
      then w
      else (let uid = u32 (w.seq + 1) in
          record w {
            seq = uid;
            sessions = insert uid (new_session uid now) w.sessions;
            served = insert uid uid w.served;
          })

  -- A round of `Session.Serve` with a frame. There is none without a connection that is open.
  unfoldable pub receive : Env S → ℕ → ℕ → ℕ → Frame → World S → World S
  unfolding handle
  receive env now draw uid f w = elim (lookup uid w.sessions) [
    | none ↦ w
    | some s ↦
        if s.closed
        then w
        else handle env (now / 1000000000) draw uid f
            (record w { sessions = modify uid (touch now) w.sessions })
  ]

  -- The end of `Session.Serve`.
  unfoldable pub end_session : Env S → ℕ → World S → World S
  unfolding close
  end_session env uid w = let w = close env uid w in record w { served = erase uid w.served }

  -- The sessions that `watchdog` takes for idle.
  unfoldable pub stale : ℕ → ℕ → List (ℕ × ℕ) → World S → List ℕ
  stale limit now [] w = []
  stale limit now (entry ∷ served) w =
      let rest = stale limit now served w in
      if ltb ((session_of entry.1 w).last_active + limit) now then entry.1 ∷ rest else rest

  -- A round of `watchdog`.
  unfoldable pub watch : Env S → ℕ → ℕ → World S → World S
  unfolding stale close_all
  watch env limit now w = close_all env (stale limit now w.served w) w

  -- `Server.Close`
  unfoldable pub shut_down : Env S → World S → World S
  unfolding close_all
  shut_down env w =
      if w.server_closed
      then w
      else close_all env (served_uids w.served) (record w { server_closed = true })

  -- A tick of a room's loop, and its calls of the callbacks.
  unfoldable pub tick_room : Env S → ℕ → (ℕ → ℕ) → World S → World S
  unfolding room_call route
  tick_room env h draws w = let (w, outs) = room_call env h (ticks draws) w in route h outs w

  -- One of the goroutines that empty rooms have started.
  unfoldable pub next_cleanup : Env S → ℕ → World S → World S
  unfolding clean_up
  next_cleanup env i w = elim (nth i w.cleanups) [
    | none ↦ w
    | some hn ↦ clean_up env hn.0 hn.1 (record w { cleanups = remove_at i w.cleanups })
  ]

  -- A round of `writeLoop`: the oldest frame goes to the connection.
  unfoldable pub write_out : ℕ → World S → World S
  write_out uid w = record w { sessions = modify uid write_one w.sessions }

  -- One event.
  unfoldable pub handle_event : Env S → World S → Event → World S
  handle_event env w (accepts now) = accept_conn now w
  handle_event env w (receives now draw uid f) = receive env now draw uid f w
  handle_event env w (ends uid) = end_session env uid w
  handle_event env w (writes uid) = write_out uid w
  handle_event env w (watches limit now) = watch env limit now w
  handle_event env w (room_ticks h draws) = tick_room env h draws w
  handle_event env w (cleans_up i) = next_cleanup env i w
  handle_event env w shuts_down = shut_down env w

  -- The process over the events, in their order.
  unfoldable pub run_events : Env S → World S → List Event → World S
  run_events env w [] = w
  run_events env w (e ∷ es) = run_events env (handle_event env w e) es
