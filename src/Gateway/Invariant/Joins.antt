-- ===== src/Gateway/Invariant/Joins.antt =====
-- internal/gateway/hub.go, `Join`: whom it lets in, and where.
use lurkspire.Prelude.{
  ℕ, ◌+◌, ◌≤◌, ◌≡◌, ◌⊎◌, refl, ap, ◌∙◌, inl, inr, List, [], ◌∷◌, none, some, true, false, arith,
  Bool-cases, Option-cases, length, leb, lookup, insert, nat_key, text_key, All-lookup,
  lookup-insert, lookup-modify, ==_iff, text_beq_iff, subst,
}
use mathlib.Core.Option
use lurkspire.Store.Users.Catalogue.{Text}
use lurkspire.Room.State.{Room, joins, joined, new_room, normal_config, new_player}
use lurkspire.Room.Roster.{add_player, put_online}
use lurkspire.Room.Loop.{step}
use lurkspire.Room.Loop.Invariant.{IsRoom}
use lurkspire.Gateway.State.{Env, Session, World}
use lurkspire.Gateway.Registry.{is_some, members, members_or_empty, create_room}
use lurkspire.Gateway.Registry.Running.{IsRunning, IsOrderly}
use lurkspire.Gateway.Friends.{contains_id}
use lurkspire.Gateway.Battle.{room_call, set_room}
use lurkspire.Gateway.Battle.Enter.{sync_room_names, add_route, equip_player, join}
use lurkspire.Gateway.Battle.Joined.{
  places, HasPlayer, sync_room_names-OnlySent, add_route_lem, equip_player_lem,
}
use lurkspire.Gateway.Invariant.{IsWorld}

-- The player is in the room, with what the room has kept of it, or as a new one.
add_player-plays :
    (uid draw : ℕ) (r : Room)
    → (add_player uid draw r).1 ≡ true
    → is_some (lookup uid (add_player uid draw r).0.players) ≡ true
unfolding add_player
add_player-plays uid draw r e = elim (Option-cases (lookup uid r.players)) [
  | inr (p, q) ↦
      rw (q, add_player)
        (ground (arith, lookup-modify uid uid (put_online true) r.players, q, ==_iff uid uid))
  | inl q ↦ elim (Bool-cases (leb r.cfg.max_players (length r.players))) [
    | inl t ↦ absurd (ground arith)
    | inr t ↦
        rw (q, t, add_player)
          (ground
            (arith, lookup-insert uid uid (new_player uid r.tick draw) r.players, ==_iff uid uid))
  ]
]

add_player-refuses :
    (uid draw : ℕ) (r : Room)
    → (add_player uid draw r).1 ≡ false
    → (lookup uid r.players ≡ none) × (r.cfg.max_players ≤ length r.players)
unfolding add_player
add_player-refuses uid draw r e = elim (Option-cases (lookup uid r.players)) [
  | inr (p, q) ↦ absurd (ground arith)
  | inl q ↦ elim (Bool-cases (leb r.cfg.max_players (length r.players))) [
    | inl t ↦ (q, ground arith)
    | inr t ↦ absurd (ground arith)
  ]
]

lookup-places :
    (u : ℕ) (ss : List (ℕ × Session))
    → lookup u (places ss) ≡ Option.map (λ s. s.room) (lookup u ss)
unfolding lookup
lookup-places u [] = refl
lookup-places u ((i, s) ∷ ss) = ground (arith, lookup-places u ss)

-- The session is in the room and among its sessions, and the room runs with the player in it.
pub record IsInRoom {S : Type 0} (uid id k : ℕ) (w : World S) : Type 0 where
  pub place : lookup uid (places w.sessions) ≡ some (some k)
  pub member : contains_id uid (members k w) ≡ true
  pub player : HasPlayer k id w

module _ {S : Type 0} (n : ℕ) (env : Env S) (draw uid : ℕ) (name : Text) (w : World S) (s : Session)
    (h : IsWorld n w) (e : lookup uid w.sessions ≡ some s) where
  -- The room of the name runs, whether it is an old one or new.
  created :
      (w1 : World S) × (k : ℕ) × (room : Room) × (create_room env name w ≡ (w1, k))
      × (lookup k w1.rooms ≡ some room)
      × (lookup name w1.manager ≡ some k)
      × (w1.sessions ≡ w.sessions)
      × (((lookup name w.manager ≡ some k) × (lookup k w.rooms ≡ some room))
          ⊎ (room ≡ new_room name env.cfg))
  unfolding create_room
  created = elim (Option-cases (lookup name w.manager)) [
    | inr (k, q) ↦
        let (room, found, id) =
          All-lookup (IsRunning w.rooms) name k w.manager h.orderly.running q in
        (w, k, room, rw (q, create_room) refl, found, q, refl, inl (q, found))
    | inl q ↦
        let k : ℕ = w.next_room in
        let room : Room = new_room name env.cfg in
        let w1 : World S = record w {
          manager = insert name k w.manager;
          rooms = insert k room w.rooms;
          next_room = k + 1;
        } in
        let found : lookup k w1.rooms ≡ some room =
          ground (arith, lookup-insert k k room w.rooms, ==_iff k k) in
        let named : lookup name w1.manager ≡ some k =
          ground (arith, lookup-insert name name k w.manager, text_beq_iff name name) in
        (w1, k, room, rw (q, create_room) refl, found, named, refl, inr refl)
  ]

  -- What the room answers.
  called :
      (w1 : World S) (k : ℕ) (room : Room)
      → lookup k w1.rooms ≡ some room
      → room_call env k (joins s.login_uid draw) w1 ≡ (
        record w1 { rooms = insert k (add_player s.login_uid draw room).0 w1.rooms },
        joined (add_player s.login_uid draw room).1 ∷ [],
      )
  unfolding room_call step
  called w1 k room found = rw (found, room_call) refl

  -- The steps of `Join` behind the answer of the room.
  let_in :
      (v0 : World S) (j id : ℕ)
      → HasPlayer j id v0
      → lookup uid v0.sessions ≡ some s
      → IsInRoom uid id j (
          sync_room_names env j uid
            (equip_player env j id (set_room uid (some j) (add_route env j uid v0))))
  let_in v0 j id hp here =
      let v1 : World S = add_route env j uid v0 in
      let v2 : World S = set_room uid (some j) v1 in
      let v3 : World S = equip_player env j id v2 in
      let (ss1, m1, p1) = add_route_lem env j uid id v0 hp in
      let p2 : HasPlayer j id v2 = record { room = p1.room; runs = p1.runs; plays = p1.plays } in
      let (ss3, m3, p3) = equip_player_lem env j id id v2 p2 in
      let k4 = sync_room_names-OnlySent env j uid v3 in
      let f : Session → Session = λ s. record s { room = some j } in
      let moved : lookup uid v2.sessions ≡ some (f s) =
        ground
          (arith, lookup-modify uid uid f v1.sessions, ap (lookup uid) ss1, here, ==_iff uid uid) in
      let moved3 : lookup uid v3.sessions ≡ some (f s) = ap (lookup uid) ss3 ∙ moved in
      record {
        place =
            ap (lookup uid) k4.same_places
            ∙ (lookup-places uid v3.sessions ∙ ap (Option.map (λ s. s.room)) moved3);
        member =
            ap (λ r. contains_id uid (members_or_empty (lookup j r))) (k4.same_members ∙ m3) ∙ m1;
        player = record {
          room = p3.room;
          runs = ap (lookup j) k4.same_rooms ∙ p3.runs;
          plays = p3.plays;
        };
      }

  -- In a process that is in order, a session that `Join` lets in is in the room of the name
  -- afterwards and among the room's sessions, and the room runs with the session's user as a player.
  pub join_enters :
      (k : ℕ)
      → (join env draw uid name w).1 ≡ some k
      → IsInRoom uid s.login_uid k (join env draw uid name w).0
        × (lookup name (create_room env name w).0.manager ≡ some k)
  unfolding join
  join_enters k q =
      let (w1, j, room, made, found, named, ss, old) = created in
      let here : lookup uid w1.sessions ≡ some s = ap (lookup uid) ss ∙ e in
      let c = called w1 j room found in
      let v0 : World S = record w1 {
        rooms = insert j (add_player s.login_uid draw room).0 w1.rooms;
      } in
      elim (Bool-cases (add_player s.login_uid draw room).1) [
        | inr d ↦
            let refused : join env draw uid name w ≡ (v0, none) =
              rw (made, join) (rw here (rw c (rw d refl))) in
            absurd (ground (arith, refused))
        | inl d ↦
            let v1 : World S = add_route env j uid v0 in
            let v2 : World S = set_room uid (some j) v1 in
            let v3 : World S = equip_player env j s.login_uid v2 in
            let v4 : World S = sync_room_names env j uid v3 in
            let entered : join env draw uid name w ≡ (v4, some j) =
              rw (made, join) (rw here (rw c (rw d refl))) in
            let same : j ≡ k = ground (arith, entered, q) in
            let plays : HasPlayer j s.login_uid v0 = record {
              room = (add_player s.login_uid draw room).0;
              runs = ground (
                arith,
                lookup-insert j j (add_player s.login_uid draw room).0 w1.rooms,
                ==_iff j j,
              );
              plays = add_player-plays s.login_uid draw room d;
            } in
            rw (entered, made)
              (subst (λ x. IsInRoom uid s.login_uid x v4 × (lookup name w1.manager ≡ some x)) same
                (let_in v0 j s.login_uid plays here, named))
      ]

  -- In a process that is in order, `Join` refuses a session only if the room of the name runs, is
  -- full, and has no player for the session's user.
  pub join_refuses :
      (join env draw uid name w).1 ≡ none
      → (k : ℕ) × (room : Room) × (lookup name w.manager ≡ some k)
        × (lookup k w.rooms ≡ some room)
        × (lookup s.login_uid room.players ≡ none)
        × (length room.players ≡ room.cfg.max_players)
  unfolding join new_room normal_config
  join_refuses q =
      let (w1, j, room, made, found, named, ss, old) = created in
      let here : lookup uid w1.sessions ≡ some s = ap (lookup uid) ss ∙ e in
      let c = called w1 j room found in
      elim (Bool-cases (add_player s.login_uid draw room).1) [
        | inl d ↦
            let entered : (join env draw uid name w).1 ≡ some j =
              rw (made, join) (rw here (rw c (rw d refl))) in
            absurd (ground (arith, entered))
        | inr d ↦
            let (absent, full) = add_player-refuses s.login_uid draw room d in
            elim old [
              | inl (there, runs) ↦
                  let good : IsRoom room =
                    All-lookup IsOrderly j room w.rooms h.orderly.orderly runs in
                  (j, room, there, runs, absent, omega (arith, full, good.capacity))
              | inr new ↦ absurd (
                  let full' : (new_room name env.cfg).cfg.max_players ≤ 0 =
                    subst (λ (r : Room). r.cfg.max_players ≤ length r.players) new full in
                  ground (arith, full'))
            ]
      ]
