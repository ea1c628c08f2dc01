-- ===== src/Gateway/Steady/Rooms.antt =====
-- internal/room/room.go, internal/gateway/hub.go: messages to rooms, the manager and the room list.
use lurkspire.Prelude.{
  ℕ, ◌+◌, lookup-insert, text_beq_iff, insert, ◌+◌, ◌≡◌, refl, inl, inr, List, [], ◌∷◌, none, some,
  arith, All-lookup, Option-cases, lookup, insert, nat_key, text_key,
}
use lurkspire.Store.Users.Catalogue.{Text}
use lurkspire.Room.State.{
  Room, Msg, Out, new_room, broadcast, emptied_notice, joined, states, events, equipped,
}
use lurkspire.Room.Loop.{step}
use lurkspire.Room.Loop.Invariant.{step-IsRoom, new_room-IsRoom}
use lurkspire.Gateway.State.{Env, RoomMeta, World}
use lurkspire.Gateway.Send.{frame}
use lurkspire.Gateway.Registry.{members, remove_meta, create_room, destroy_room}
use lurkspire.Gateway.Registry.Running.{
  IsOrderly, insert-IsManager, create-IsManager, destroy-IsManager, list-IsManager,
  unlist-IsManager,
}
use lurkspire.Room.Loop.Identity.{id-step}
use lurkspire.Gateway.Battle.{room_call, broadcast_to_room, route}
use lurkspire.Gateway.Steady.{Steady, Steady-send_all, Steady-of, Steady-put_rooms}

module _ {S : Type 0} (start : World S) where
  pub Steady-room_call :
      (env : Env S) (r : ℕ) (m : Msg) (w : World S)
      → Steady start w
      → Steady start (room_call env r m w).0
  unfolding room_call
  Steady-room_call env r m w h = elim (Option-cases (lookup r w.rooms)) [
    | inl e ↦ rw (e, room_call) h
    | inr (room, e) ↦
        rw (e, room_call)
          (Steady-of start w _ refl refl refl (λ a. a)
            (λ k.
              insert-IsManager w.manager w.rooms w.next_room w.metas k r room
                (step env.ops room m).0 e (id-step env.ops room m)
                (step-IsRoom env.ops room m (All-lookup IsOrderly r room w.rooms k.orderly e)))
            h)
  ]

  pub Steady-create_room :
      (env : Env S) (name : Text) (w : World S)
      → Steady start w
      → Steady start (create_room env name w).0
  unfolding create_room
  Steady-create_room env name w h = elim (Option-cases (lookup name w.manager)) [
    | inl e ↦
        rw (e, create_room)
          (Steady-of start w _ refl refl refl (λ a. a)
            (λ k.
              create-IsManager w.manager w.rooms w.next_room w.metas k name (new_room name env.cfg)
                (unfold new_room in refl) (new_room-IsRoom env.ops name env.cfg))
            h)
    | inr (r, e) ↦ rw (e, create_room) h
  ]

  pub Steady-remove_meta :
      (name : Text) (w : World S) → Steady start w → Steady start (remove_meta name w)
  Steady-remove_meta name w h =
      Steady-of start w _ refl refl refl (λ a. a)
        (λ k. unlist-IsManager w.manager w.rooms w.next_room w.metas k name) h

  -- `add` and `CreateRoom` for one name.
  pub Steady-list_room :
      (env : Env S) (m : RoomMeta) (w : World S)
      → Steady start w
      → Steady start (create_room env m.name (record w { metas = insert m.name m w.metas })).0
  unfolding create_room
  Steady-list_room env m w h = elim (Option-cases (lookup m.name w.manager)) [
    | inl e ↦
        let room : Room = new_room m.name env.cfg in
        let there : lookup m.name (insert m.name w.next_room w.manager) ≡ some w.next_room =
          ground (
            arith,
            lookup-insert m.name m.name w.next_room w.manager,
            text_beq_iff m.name m.name,
          ) in
        rw (e, create_room)
          (Steady-of start w _ refl refl refl (λ a. a)
            (λ k.
              list-IsManager (insert m.name w.next_room w.manager) (insert w.next_room room w.rooms)
                (w.next_room + 1) w.metas
                (create-IsManager w.manager w.rooms w.next_room w.metas k m.name room
                  (unfold new_room in refl) (new_room-IsRoom env.ops m.name env.cfg))
                m.name m w.next_room there)
            h)
    | inr (r, e) ↦
        rw (e, create_room)
          (Steady-of start w _ refl refl refl (λ a. a)
            (λ k. list-IsManager w.manager w.rooms w.next_room w.metas k m.name m r e) h)
  ]

  pub Steady-destroy_room :
      (name : Text) (w : World S)
      → lookup name w.metas ≡ none
      → Steady start w
      → Steady start (destroy_room name w)
  unfolding destroy_room
  Steady-destroy_room name w gone h = elim (Option-cases (lookup name w.manager)) [
    | inl e ↦ rw (e, destroy_room) h
    | inr (r, e) ↦
        rw (e, destroy_room)
          (Steady-of start w _ refl refl refl (λ a. a)
            (λ k. destroy-IsManager w.manager w.rooms w.next_room w.metas k name r e gone) h)
  ]

  pub Steady-broadcast_to_room :
      (r id : ℕ) (body : List ℕ) (w : World S)
      → Steady start w
      → Steady start (broadcast_to_room r id body w)
  unfolding broadcast_to_room
  Steady-broadcast_to_room r id body w h = Steady-send_all start (members r w) (frame id body) w h

  pub Steady-route :
      (r : ℕ) (outs : List Out) (w : World S) → Steady start w → Steady start (route r outs w)
  unfolding route
  Steady-route r [] w h = h
  Steady-route r (broadcast id body ∷ outs) w h =
      Steady-route r outs _ (Steady-broadcast_to_room r id body w h)
  Steady-route r (emptied_notice name ∷ outs) w h =
      Steady-route r outs _ (Steady-put_rooms start w _ refl refl refl refl (λ a. a) h)
  Steady-route r (joined done ∷ outs) w h = Steady-route r outs w h
  Steady-route r (states ps ∷ outs) w h = Steady-route r outs w h
  Steady-route r (events evs ∷ outs) w h = Steady-route r outs w h
  Steady-route r (equipped ∷ outs) w h = Steady-route r outs w h
