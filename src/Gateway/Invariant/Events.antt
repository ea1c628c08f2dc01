-- ===== src/Gateway/Invariant/Events.antt =====
-- internal/gateway/server.go: the events of the process, and runs of them.
use lurkspire.Prelude.{
  ℕ, ◌+◌, ◌≤◌, ◌≡◌, refl, subst, inl, inr, List, [], ◌∷◌, some, true, arith, All-map2, All-insert,
  All-lookup, suc, Option-cases, Bool-cases, lookup, insert, modify, nat_key, lookup-insert,
  lookup-modify, ==_iff, length, IsU32, u32, nth, length-drop, ◌/◌,
}
use lurkspire.Protocol.Frame.{Frame}
use lurkspire.Room.State.{ticks}
use lurkspire.Gateway.State.{Env, Session, World, new_world, new_session}
use lurkspire.Gateway.Send.{queue_size}
use lurkspire.Gateway.Battle.{room_call}
use lurkspire.Gateway.Server.{
  Event, accepts, receives, ends, writes, watches, room_ticks, cleans_up, shuts_down, touch,
  write_one, served_uids, accept_conn, receive, end_session, stale, watch, shut_down, tick_room,
  next_cleanup, write_out, handle_event, run_events,
}
use lurkspire.Gateway.Steady.{Steady, Steady-modify, Steady-put_rooms, tag, tags, IsQueued}
use lurkspire.Gateway.Steady.Rooms.{Steady-room_call, Steady-route}
use lurkspire.Gateway.Steady.Battle.{Steady-clean_up}
use lurkspire.Gateway.Invariant.{
  IsWorld, IsOnline, IsBelow, IsWorld-Steady, Steady-start, IsWorld-new_world,
}
use lurkspire.Gateway.Invariant.Login.{IsWorld-choice, handle-IsWorld}
use lurkspire.Gateway.Invariant.Close.{close-IsWorld, close_all-IsWorld}

tags-insert :
    (uid : ℕ) (s : Session) (ss : List (ℕ × Session))
    → tags (insert uid s ss) ≡ insert uid (tag s) (tags ss)
unfolding insert
tags-insert uid s [] = refl
tags-insert uid s ((i, t) ∷ ss) = ground (arith, tags-insert uid s ss)

-- A queue that has given a frame away is not longer.
write_one-bound :
    (s : Session) → length s.write_q ≤ queue_size → length (write_one s).write_q ≤ queue_size
write_one-bound s h = elim (Bool-cases s.closed) [
  | inl e ↦ rw e h
  | inr e ↦ rw e (omega (arith, length-drop 1 s.write_q, h))
]

tag-write_one : (s : Session) → tag (write_one s) ≡ tag s
tag-write_one s = ground arith

module _ {S : Type 0} (n : ℕ) (env : Env S) (w : World S) (h : IsWorld n w) where
  steady : Steady w w
  steady = Steady-start n w h

  -- A higher number of sessions.
  IsWorld-suc : (v : World S) → IsWorld n v → IsWorld (n + 1) v
  IsWorld-suc v k = record {
    some_sessions = omega (arith, k.some_sessions);
    numbered = k.numbered;
    distinct = k.distinct;
    online = k.online;
    orderly = k.orderly;
    queued = k.queued;
    apart = k.apart;
  }

  -- The first session with a number.
  accepted-IsWorld :
      (uid now : ℕ)
      → uid ≡ w.seq + 1
      → IsWorld (n + 1) (record w {
        seq = uid;
        sessions = insert uid (new_session uid now) w.sessions;
        served = insert uid uid w.served;
      })
  accepted-IsWorld uid now next =
      let new = tag (new_session uid now) in
      let same : tags (insert uid (new_session uid now) w.sessions)
          ≡ insert uid new (tags w.sessions) =
        tags-insert uid (new_session uid now) w.sessions in
      record {
        some_sessions = omega (arith, next, h.some_sessions);
        numbered = rw same (
            All-insert (IsBelow uid) uid new (tags w.sessions)
              (All-map2 (IsBelow w.seq) (IsBelow w.seq) (IsBelow uid) (tags w.sessions)
                (λ t a b. omega (arith, next)) h.numbered h.numbered)
              (λ j q. omega (arith, q)));
        distinct = h.distinct;
        online = rw same (
            All-map2 (IsOnline (tags w.sessions)) (IsOnline (tags w.sessions))
              (IsOnline (insert uid new (tags w.sessions))) w.online
              (λ e a b.
                let low : e.1 ≤ w.seq =
                  All-lookup (IsBelow w.seq) e.1 _ (tags w.sessions) h.numbered a in
                ground (arith, lookup-insert uid e.1 new (tags w.sessions), a, low, next))
              h.online h.online);
        orderly = h.orderly;
        queued =
            All-insert IsQueued uid (new_session uid now) w.sessions h.queued (λ j q. omega arith);
        apart = h.apart;
      }

  accept_conn-IsWorld : (now : ℕ) → IsU32 (n + 1) → IsWorld (n + 1) (accept_conn now w)
  unfolding accept_conn
  accept_conn-IsWorld now small =
      let next : u32 (w.seq + 1) ≡ w.seq + 1 = omega (arith, small, h.some_sessions) in
      IsWorld-choice (n + 1) w.server_closed (IsWorld-suc w h)
        (accepted-IsWorld (u32 (w.seq + 1)) now next)

  receive-IsWorld : (now draw uid : ℕ) (f : Frame) → IsWorld n (receive env now draw uid f w)
  unfolding receive
  receive-IsWorld now draw uid f = elim (Option-cases (lookup uid w.sessions)) [
    | inl e ↦ rw (e, receive) h
    | inr (s, e) ↦ elim (Bool-cases s.closed) [
      | inl c ↦ rw (e, receive) (rw c h)
      | inr c ↦
          let v : World S = record w { sessions = modify uid (touch now) w.sessions } in
          let hv : IsWorld n v =
            IsWorld-Steady n w v h
              (Steady-modify w uid (touch now) w (λ s. refl) (λ s k. k) steady) in
          let found : lookup uid v.sessions ≡ some (touch now s) =
            ground (arith, lookup-modify uid uid (touch now) w.sessions, e, ==_iff uid uid) in
          rw (e, receive)
            (rw c (handle-IsWorld n env (now / 1000000000) draw uid (touch now s) v hv found c f))
    ]
  ]

  end_session-IsWorld : (uid : ℕ) → IsWorld n (end_session env uid w)
  unfolding end_session
  end_session-IsWorld uid =
      let k = close-IsWorld n env uid w h in
      IsWorld-Steady n _ _ k
        (Steady-put_rooms _ _ _ refl refl refl refl (λ a. a) (Steady-start n _ k))

  shut_down-IsWorld : IsWorld n (shut_down env w)
  unfolding shut_down
  shut_down-IsWorld =
      let v : World S = record w { server_closed = true } in
      let hv : IsWorld n v =
        IsWorld-Steady n w v h (Steady-put_rooms w w v refl refl refl refl (λ a. a) steady) in
      IsWorld-choice n w.server_closed h (close_all-IsWorld n env (served_uids w.served) v hv)

  tick_room-IsWorld : (r : ℕ) (draws : ℕ → ℕ) → IsWorld n (tick_room env r draws w)
  unfolding tick_room
  tick_room-IsWorld r draws = IsWorld-Steady n w _ h (
      Steady-route w r (room_call env r (ticks draws) w).1 _
        (Steady-room_call w env r (ticks draws) w steady))

  next_cleanup-IsWorld : (i : ℕ) → IsWorld n (next_cleanup env i w)
  unfolding next_cleanup
  next_cleanup-IsWorld i = elim (Option-cases (nth i w.cleanups)) [
    | inl e ↦ rw (e, next_cleanup) h
    | inr (rn, e) ↦
        rw (e, next_cleanup)
          (IsWorld-Steady n w _ h (
            Steady-clean_up w env rn.0 rn.1 _
              (Steady-put_rooms w w _ refl refl refl refl (λ a. a) steady)))
  ]

  -- An event of the process keeps it in order, while the 32 bits of a session's number last.
  pub handle_event-IsWorld : (e : Event) → IsU32 (n + 1) → IsWorld (n + 1) (handle_event env w e)
  unfolding handle_event
  handle_event-IsWorld (accepts now) small = accept_conn-IsWorld now small
  handle_event-IsWorld (receives now draw uid f) small =
      IsWorld-suc _ (receive-IsWorld now draw uid f)
  handle_event-IsWorld (ends uid) small = IsWorld-suc _ (end_session-IsWorld uid)
  handle_event-IsWorld (writes uid) small = IsWorld-suc _ (
      unfold write_out in
      IsWorld-Steady n w _ h (Steady-modify w uid write_one w tag-write_one write_one-bound steady))
  handle_event-IsWorld (watches limit now) small =
      IsWorld-suc _ (unfold watch in close_all-IsWorld n env (stale limit now w.served w) w h)
  handle_event-IsWorld (room_ticks r draws) small = IsWorld-suc _ (tick_room-IsWorld r draws)
  handle_event-IsWorld (cleans_up i) small = IsWorld-suc _ (next_cleanup-IsWorld i)
  handle_event-IsWorld shuts_down small = IsWorld-suc _ shut_down-IsWorld

module _ {S : Type 0} (env : Env S) where
  run_events_lem :
      (n : ℕ) (es : List Event) (w : World S)
      → IsWorld n w
      → IsU32 (n + length es)
      → IsWorld (n + length es) (run_events env w es)
  unfolding run_events
  run_events_lem n [] w h small = let z : n ≡ n + 0 = omega arith in subst (λ k. IsWorld k w) z h
  run_events_lem n (e ∷ es) w h small =
      let next : n + 1 + length es ≡ n + suc (length es) = omega arith in
      let k = handle_event-IsWorld n env w h e (omega (arith, small)) in
      subst (λ k. IsWorld k (run_events env (handle_event env w e) es)) next
        (run_events_lem (n + 1) es (handle_event env w e) k (omega (arith, small)))

  -- The process of a new hub and a new server keeps in order over any events, fewer than 2^32: a
  -- user is online with at most one session, which is open and logged in as this user; every room is
  -- in order, every name of the room manager leads to a running room of this name, and so does every
  -- name of the room list; no
  -- session is in the map of a room twice; no queue holds more than 128 frames.
  pub run_events-IsWorld :
      (s : S) (es : List Event)
      → IsU32 (length es)
      → IsWorld (length es) (run_events env (new_world s) es)
  run_events-IsWorld s es small =
      let z : 0 + length es ≡ length es = omega arith in
      subst (λ k. IsWorld k (run_events env (new_world s) es)) z
        (run_events_lem 0 es (new_world s) (IsWorld-new_world s) (omega (arith, small)))
