-- ===== src/Gateway/Steady/Battle.antt =====
-- internal/gateway/hub.go: what is done with rooms.
use lurkspire.Prelude.{
  ℕ, ◌∙◌, ◌≡◌, arith, insert, lookup-erase, text_beq_iff, List, [], ◌∷◌, Option, none, some, refl,
  lookup, erase, inl, inr, Bool-cases, Option-cases, nat_key, text_key,
}
use lurkspire.Protocol.Lobby.{decode_room_op}
use lurkspire.Protocol.Numbers.{
  lobby_err_bad_input, lobby_err_room_full, lobby_err_room_exists, lobby_err_room_missing,
}
use lurkspire.Store.Users.Catalogue.{Text}
use lurkspire.Lobby.{equip_id}
use lurkspire.Room.State.{leaves, joins, equips, sets_broadcast, sets_on_empty}
use lurkspire.Gateway.State.{Env, RoomMeta, World}
use lurkspire.Gateway.Send.{send_err, session_of}
use lurkspire.Gateway.Registry.{members, nick_of, add_meta, remove_meta, create_room, destroy_room}
use lurkspire.Gateway.Battle.{
  room_call, set_room, drop_member, has_players, remove_member, state_snapshot, is_joined, bonus_of,
  clean_up, leave,
}
use lurkspire.Prelude.{All-insert, All-erase, All-lookup, List, [], ◌∷◌}
use lurkspire.Gateway.Battle.Members.{AreDistinct, add_member-AreDistinct, drop_apart}
use lurkspire.Gateway.Battle.{add_member}
use lurkspire.Gateway.Battle.Enter.{
  send_names, sync_room_names, add_route, equip_player, join, send_join_ok, joined_room,
  create_and_join, handle_room_create, find_and_join, handle_room_join, handle_battle_join,
}
use lurkspire.Gateway.Steady.{
  Steady, Steady-if, Steady-option, Steady-returned, Steady-send, Steady-send_all, Steady-put_rooms,
  Steady-set_room,
}
use lurkspire.Gateway.Steady.Rooms.{
  Steady-room_call, Steady-create_room, Steady-destroy_room, Steady-remove_meta, Steady-list_room,
}
use lurkspire.Gateway.Steady.Lists.{Steady-broadcast_room_list}

module _ {S : Type 0} (start : World S) where
  pub Steady-send_err : (uid e : ℕ) (w : World S) → Steady start w → Steady start (send_err uid e w)
  Steady-send_err uid e w h = Steady-send start uid _ w h

  pub Steady-clean_up :
      (env : Env S) (r : ℕ) (name : Text) (w : World S)
      → Steady start w
      → Steady start (clean_up env r name w)
  unfolding clean_up
  Steady-clean_up env r name w h =
      let v : World S = remove_meta name (record w { room_sessions = erase r w.room_sessions }) in
      let k : Steady start v = Steady-remove_meta start name _ (
        Steady-put_rooms start w (record w { room_sessions = erase r w.room_sessions }) refl refl
          refl refl (λ a. All-erase (λ e. AreDistinct e.1) r w.room_sessions a) h) in
      let gone : lookup name v.metas ≡ none =
        lookup-erase name name w.metas h.orderly.listed ∙ ground (arith, text_beq_iff name name) in
      Steady-option start (lookup r w.rooms) h (λ room.
        Steady-if start (has_players (state_snapshot env r w)) h (
          Steady-broadcast_room_list start env (destroy_room name v)
            (Steady-destroy_room start name v gone k)))

  pub Steady-leave :
      (env : Env S) (uid : ℕ) (w : World S) → Steady start w → Steady start (leave env uid w)
  unfolding leave
  Steady-leave env uid w h = Steady-option start (session_of uid w).room h (λ r.
      let login_uid = (session_of uid w).login_uid in
      let v = (room_call env r (leaves login_uid) (set_room uid none w)).0 in
      let k =
        Steady-room_call start env r (leaves login_uid) _ (Steady-set_room start uid none w h) in
      Steady-broadcast_room_list start env (drop_member r uid v)
        (Steady-put_rooms start v _ refl refl refl refl (drop_apart r uid v.room_sessions) k))

  Steady-send_names :
      (env : Env S) (uid : ℕ) (os : List ℕ) (w : World S)
      → Steady start w
      → Steady start (send_names env uid os w)
  unfolding send_names
  Steady-send_names env uid [] w h = h
  Steady-send_names env uid (o ∷ os) w h =
      Steady-returned start (nick_of env (session_of o w).login_uid w)
        (λ e. Steady-send_names env uid os w h)
        (λ nick. Steady-send_names env uid os _ (Steady-send start uid _ w h))

  Steady-sync_room_names :
      (env : Env S) (r uid : ℕ) (w : World S)
      → Steady start w
      → Steady start (sync_room_names env r uid w)
  unfolding sync_room_names
  Steady-sync_room_names env r uid w h =
      let others = remove_member uid (members r w) in
      let v = send_names env uid others w in
      let k = Steady-send_names env uid others w h in
      Steady-returned start (nick_of env (session_of uid v).login_uid v) (λ e. k)
        (λ nick. Steady-send_all start others _ v k)

  Steady-add_route :
      (env : Env S) (r uid : ℕ) (w : World S)
      → Steady start w
      → Steady start (add_route env r uid w)
  unfolding add_route
  Steady-add_route env r uid w h = elim (Option-cases (lookup r w.room_sessions)) [
    | inr (uids, e) ↦
        rw (e, add_route)
          (Steady-put_rooms start w _ refl refl refl refl
            (λ a.
              All-insert (λ e. AreDistinct e.1) r (add_member uid uids) w.room_sessions a
                (λ j q.
                  add_member-AreDistinct uid uids
                    (All-lookup (λ e. AreDistinct e.1) r uids w.room_sessions a e)))
            h)
    | inl e ↦
        rw (e, add_route)
          (Steady-put_rooms start _ _ refl refl refl refl
            (λ a. All-insert (λ e. AreDistinct e.1) r (uid ∷ []) _ a (λ j q. (ground arith, tt)))
            (Steady-room_call start env r sets_on_empty _
              (Steady-room_call start env r sets_broadcast w h)))
  ]

  Steady-equip_player :
      (env : Env S) (r uid : ℕ) (w : World S)
      → Steady start w
      → Steady start (equip_player env r uid w)
  unfolding equip_player
  Steady-equip_player env r uid w h =
      Steady-returned start (equip_id env.store env.crypto env.secret uid w.store) (λ e. h)
        (λ id.
          Steady-room_call start env r (equips uid (bonus_of (env.store.get_equipment id w.store)))
            w h)

  Steady-join :
      (env : Env S) (draw uid : ℕ) (name : Text) (w : World S)
      → Steady start (create_room env name w).0
      → Steady start (join env draw uid name w).0
  unfolding join
  Steady-join env draw uid name w h =
      let r = (create_room env name w).1 in
      let w1 = (create_room env name w).0 in
      let login_uid = (session_of uid w1).login_uid in
      let called = room_call env r (joins login_uid draw) w1 in
      let k : Steady start called.0 = Steady-room_call start env r (joins login_uid draw) w1 h in
      let k2 = Steady-sync_room_names env r uid _ (
        Steady-equip_player env r login_uid _
          (Steady-set_room start uid (some r) _ (Steady-add_route env r uid called.0 k))) in
      elim (Bool-cases (is_joined called.1)) [ inl e ↦ rw (e, join) k2 | inr e ↦ rw (e, join) k ]

  Steady-send_join_ok :
      (env : Env S) (uid r : ℕ) (w : World S)
      → Steady start w
      → Steady start (send_join_ok env uid r w)
  unfolding send_join_ok
  Steady-send_join_ok env uid r w h = Steady-send start uid _ w h

  Steady-joined_room :
      (env : Env S) (uid : ℕ) (r : Option ℕ) (w refused : World S)
      → Steady start w
      → Steady start refused
      → Steady start (joined_room env uid r w refused)
  Steady-joined_room env uid none w refused h k = Steady-send_err uid lobby_err_room_full refused k
  Steady-joined_room env uid (some r) w refused h k =
      Steady-broadcast_room_list start env _ (Steady-send_join_ok env uid r w h)

  Steady-create_and_join :
      (env : Env S) (draw uid : ℕ) (name note : Text) (w : World S)
      → Steady start w
      → Steady start (create_and_join env draw uid name note w)
  unfolding create_and_join
  Steady-create_and_join env draw uid name note w h =
      let meta : RoomMeta = record {
        name = name;
        creator = (session_of uid w).login_uid;
        note = note;
      } in
      let bad = Steady-send_err uid lobby_err_bad_input w h in
      let taken = Steady-send_err uid lobby_err_room_exists w h in
      elim (Option-cases (lookup name w.metas)) [
        | inr (old, e) ↦ rw (e, add_meta) (Steady-if start _ bad taken)
        | inl e ↦
            let v : World S = record w { metas = insert name meta w.metas } in
            let k : Steady start (join env draw uid name v).0 =
              Steady-join env draw uid name v (Steady-list_room start env meta w h) in
            rw (e, add_meta)
              (Steady-if start _ bad (
                Steady-joined_room env uid (join env draw uid name v).1 _ _ k
                  (Steady-remove_meta start name (join env draw uid name v).0 k)))
      ]

  pub Steady-handle_room_create :
      (env : Env S) (draw uid : ℕ) (body : List ℕ) (w : World S)
      → Steady start w
      → Steady start (handle_room_create env draw uid body w)
  unfolding handle_room_create
  Steady-handle_room_create env draw uid body w h =
      let bad = Steady-send_err uid lobby_err_bad_input w h in
      Steady-if start _ bad (
        Steady-option start (decode_room_op body) bad
          (λ nn. Steady-create_and_join env draw uid nn.0 nn.1 w h))

  Steady-find_and_join :
      (env : Env S) (draw uid : ℕ) (name : Text) (w : World S)
      → Steady start w
      → Steady start (find_and_join env draw uid name w)
  unfolding find_and_join
  Steady-find_and_join env draw uid name w h =
      let k = Steady-join env draw uid name w (Steady-create_room start env name w h) in
      Steady-if start _ (Steady-send_err uid lobby_err_bad_input w h) (
        Steady-if start _ (Steady-send_err uid lobby_err_room_missing w h)
          (Steady-joined_room env uid (join env draw uid name w).1 _ _ k k))

  pub Steady-handle_room_join :
      (env : Env S) (draw uid : ℕ) (body : List ℕ) (w : World S)
      → Steady start w
      → Steady start (handle_room_join env draw uid body w)
  unfolding handle_room_join
  Steady-handle_room_join env draw uid body w h =
      let bad = Steady-send_err uid lobby_err_bad_input w h in
      Steady-if start _ bad (
        Steady-option start (decode_room_op body) bad
          (λ nn. Steady-find_and_join env draw uid nn.0 w h))

  pub Steady-handle_battle_join :
      (env : Env S) (draw uid : ℕ) (name : Text) (w : World S)
      → Steady start w
      → Steady start (handle_battle_join env draw uid name w)
  unfolding handle_battle_join
  Steady-handle_battle_join env draw uid name w h =
      let meta : RoomMeta = record {
        name = name;
        creator = (session_of uid w).login_uid;
        note = [];
      } in
      let bad = Steady-send_err uid lobby_err_bad_input w h in
      elim (Option-cases (lookup name w.metas)) [
        | inr (old, e) ↦
            let k = Steady-join env draw uid name w (Steady-create_room start env name w h) in
            rw (e, add_meta)
              (Steady-if start _ bad
                (Steady-joined_room env uid (join env draw uid name w).1 _ _ k k))
        | inl e ↦
            let v : World S = record w { metas = insert name meta w.metas } in
            let k : Steady start (join env draw uid name v).0 =
              Steady-join env draw uid name v (Steady-list_room start env meta w h) in
            rw (e, add_meta)
              (Steady-if start _ bad
                (Steady-joined_room env uid (join env draw uid name v).1 _ _ k k))
      ]
