-- ===== src/Gateway/Battle/Delivery.antt =====
-- internal/gateway/hub.go, `broadcastToRoom`: which sessions a round of a room reaches.
use lurkspire.Prelude.{
  ℕ, ◌≤◌, ◌≡◌, refl, sym, ap, ◌∙◌, inl, inr, List, [], ◌∷◌, ◌++◌, Option, none, some, false, arith,
  if◌then◌else◌, length, ==_iff, Bool-cases, lookup, nat_key, lookup-modify, modify, subst, ◌==◌,
}
use mathlib.Core.Option
use lurkspire.Room.State.{
  Msg, Out, broadcast, emptied_notice, joined, states, events, equipped, ticks,
}
use lurkspire.Gateway.State.{Env, Session, World}
use lurkspire.Gateway.Send.{enqueue, enqueue_all, frame, queue_size}
use lurkspire.Gateway.Send.Queue.{enqueue_each, newest, enqueue_each-newest}
use lurkspire.Gateway.Registry.{members, members_or_empty}
use lurkspire.Gateway.Friends.{contains_id}
use lurkspire.Gateway.Server.{tick_room}
use lurkspire.Gateway.Battle.Members.{AreDistinct}
use lurkspire.Gateway.Battle.{room_call, route, broadcast_to_room}

-- The frames that the messages of a room become, in order.
abbrev pub frames_of : List Out → List (List ℕ)
frames_of [] = []
frames_of (broadcast id body ∷ outs) = frame id body ∷ frames_of outs
frames_of (emptied_notice name ∷ outs) = frames_of outs
frames_of (joined done ∷ outs) = frames_of outs
frames_of (states ps ∷ outs) = frames_of outs
frames_of (events evs ∷ outs) = frames_of outs
frames_of (equipped ∷ outs) = frames_of outs

enqueue_all-lookup :
    (uids : List ℕ) (b : List ℕ) (u : ℕ) (ss : List (ℕ × Session))
    → AreDistinct uids
    → lookup u (enqueue_all uids b ss)
      ≡ (if contains_id u uids then Option.map (enqueue b) (lookup u ss) else lookup u ss)
enqueue_all-lookup [] b u ss h = refl
enqueue_all-lookup (x ∷ xs) b u ss h =
    enqueue_all-lookup xs b u (modify x (enqueue b) ss) h.1
    ∙ rw (lookup-modify x u (enqueue b) ss) (elim (Bool-cases (x == u)) [
      | inl t ↦
          let others : contains_id u xs ≡ false =
            ap (λ k. contains_id k xs) (sym ((==_iff x u).0 t)) ∙ h.0 in
          rw (t, others) refl
      | inr t ↦ rw t refl
    ])

-- Sent one after the other.
map-enqueue_each :
    (b : List ℕ) (bs : List (List ℕ)) (o : Option Session)
    → Option.map (enqueue_each bs) (Option.map (enqueue b) o) ≡ Option.map (enqueue_each (b ∷ bs)) o
map-enqueue_each b bs none = refl
map-enqueue_each b bs (some s) = refl

map-same : (o : Option Session) → Option.map (enqueue_each []) o ≡ o
map-same none = refl
map-same (some s) = refl

module _ {S : Type 0} where
  broadcast_to_room-lookup :
      (h id u : ℕ) (body : List ℕ) (w : World S)
      → AreDistinct (members h w)
      → lookup u (broadcast_to_room h id body w).sessions ≡ (
          if contains_id u (members h w)
          then Option.map (enqueue (frame id body)) (lookup u w.sessions)
          else lookup u w.sessions)
  unfolding broadcast_to_room
  broadcast_to_room-lookup h id u body w d =
      enqueue_all-lookup (members h w) (frame id body) u w.sessions d

  -- What a room pushes reaches its sessions, each once and in order, and no other session.
  route-lookup :
      (h u : ℕ) (outs : List Out) (w : World S)
      → AreDistinct (members h w)
      → lookup u (route h outs w).sessions ≡ (
          if contains_id u (members h w)
          then Option.map (enqueue_each (frames_of outs)) (lookup u w.sessions)
          else lookup u w.sessions)
  unfolding route broadcast_to_room
  route-lookup h u [] w d = elim (Bool-cases (contains_id u (members h w))) [
    | inl t ↦ rw t (sym (map-same (lookup u w.sessions)))
    | inr t ↦ rw t refl
  ]
  route-lookup h u (broadcast id body ∷ outs) w d =
      let w' : World S = broadcast_to_room h id body w in
      let one = broadcast_to_room-lookup h id u body w d in
      route-lookup h u outs w' d ∙ elim (Bool-cases (contains_id u (members h w))) [
        | inl t ↦
            let sent : lookup u w'.sessions
                ≡ Option.map (enqueue (frame id body)) (lookup u w.sessions) =
              one ∙ rw t refl in
            rw t (rw sent (map-enqueue_each (frame id body) (frames_of outs) (lookup u w.sessions)))
        | inr t ↦
            let kept : lookup u w'.sessions ≡ lookup u w.sessions = one ∙ rw t refl in rw t kept
      ]
  route-lookup h u (emptied_notice name ∷ outs) w d =
      route-lookup h u outs (record w { cleanups = w.cleanups ++ ((h, name) ∷ []) }) d
  route-lookup h u (joined done ∷ outs) w d = route-lookup h u outs w d
  route-lookup h u (states ps ∷ outs) w d = route-lookup h u outs w d
  route-lookup h u (events evs ∷ outs) w d = route-lookup h u outs w d
  route-lookup h u (equipped ∷ outs) w d = route-lookup h u outs w d

  -- A room's call changes neither the sessions nor who is in which room.
  room_call-others :
      (env : Env S) (h : ℕ) (m : Msg) (w : World S)
      → ((room_call env h m w).0.sessions ≡ w.sessions)
        × ((room_call env h m w).0.room_sessions ≡ w.room_sessions)
  unfolding room_call
  room_call-others env h m w = ground arith

  pub tick_room-delivers :
      (env : Env S) (h u : ℕ) (draws : ℕ → ℕ) (w : World S) (s : Session)
      → AreDistinct (members h w)
      → lookup u w.sessions ≡ some s
      → s.closed ≡ false
      → length s.write_q ≤ queue_size
      → (s' : Session) × (lookup u (tick_room env h draws w).sessions ≡ some s')
        × (s'.write_q ≡ (
            if contains_id u (members h w)
            then newest (s.write_q ++ frames_of (room_call env h (ticks draws) w).1)
            else s.write_q))
  unfolding tick_room
  tick_room-delivers env h u draws w s d e o n =
      let outs : List Out = (room_call env h (ticks draws) w).1 in
      let w' : World S = (room_call env h (ticks draws) w).0 in
      let (ss, rs) = room_call-others env h (ticks draws) w in
      let same : members h w' ≡ members h w = ap (λ r. members_or_empty (lookup h r)) rs in
      let here : lookup u w'.sessions ≡ some s = ap (λ ss. lookup u ss) ss ∙ e in
      let reached = route-lookup h u outs w' (subst AreDistinct (sym same) d) in
      elim (Bool-cases (contains_id u (members h w))) [
        | inl t ↦ (
          enqueue_each (frames_of outs) s,
          reached ∙ rw (same, t, here) refl,
          rw t (enqueue_each-newest (frames_of outs) s o n).0,
        )
        | inr t ↦ (s, reached ∙ rw (same, t) here, rw t refl)
      ]
