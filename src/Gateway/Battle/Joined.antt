-- ===== src/Gateway/Battle/Joined.antt =====
-- internal/gateway/hub.go, `Join`: where its steps put the session and the player.
use lurkspire.Prelude.{
  ℕ, ◌≡◌, refl, ◌∙◌, inl, inr, List, [], ◌∷◌, Option, none, some, Bool, true, false, ◌==◌, arith,
  if◌then◌else◌, Option-cases, lookup, insert, modify, nat_key, text_key, lookup-insert,
  lookup-modify, ==_iff,
}
use mathlib.Core.Option
use lurkspire.Store.Users.{Returned, returned, failed}
use lurkspire.Lobby.{equip_id}
use lurkspire.Lobby.Token.{Returned-cases}
use lurkspire.Room.Float.{FloatOps}
use lurkspire.Room.Player.{Player, base_block_max}
use lurkspire.Room.State.{Room, Msg, equips, sets_broadcast, sets_on_empty}
use lurkspire.Room.Roster.{apply_equip}
use lurkspire.Room.Loop.{step}
use lurkspire.Gateway.State.{Env, Session, World}
use lurkspire.Gateway.Send.{enqueue, enqueue_all, send_all, session_of}
use lurkspire.Gateway.Registry.{is_some, members, members_or_empty, nick_of}
use lurkspire.Gateway.Friends.{contains_id}
use lurkspire.Gateway.Battle.{add_member, remove_member, bonus_of, room_call}
use lurkspire.Gateway.Battle.Enter.{send_names, sync_room_names, add_route, equip_player}

-- The room of every session.
abbrev pub places : List (ℕ × Session) → List (ℕ × Option ℕ)
places [] = []
places (e ∷ ss) = (e.0, e.1.room) ∷ places ss

-- What a sending leaves as it is.
pub record OnlySent {S : Type 0} (w v : World S) : Type 0 where
  pub same_places : places v.sessions ≡ places w.sessions
  pub same_members : v.room_sessions ≡ w.room_sessions
  pub same_rooms : v.rooms ≡ w.rooms

pub places-modify :
    (uid : ℕ) (f : Session → Session) (ss : List (ℕ × Session))
    → ((s : Session) → (f s).room ≡ s.room)
    → places (modify uid f ss) ≡ places ss
unfolding modify
places-modify uid f [] h = refl
places-modify uid f ((i, s) ∷ ss) h = ground (arith, h s, places-modify uid f ss h)

room-enqueue : (b : List ℕ) (s : Session) → (enqueue b s).room ≡ s.room
unfolding enqueue
room-enqueue b s = ground arith

places-enqueue_all :
    (uids : List ℕ) (b : List ℕ) (ss : List (ℕ × Session))
    → places (enqueue_all uids b ss) ≡ places ss
places-enqueue_all [] b ss = refl
places-enqueue_all (uid ∷ uids) b ss =
    places-enqueue_all uids b (modify uid (enqueue b) ss)
    ∙ places-modify uid (enqueue b) ss (room-enqueue b)

contains_id-add_member : (uid : ℕ) (us : List ℕ) → contains_id uid (add_member uid us) ≡ true
contains_id-add_member uid [] = ground (arith, ==_iff uid uid)
contains_id-add_member uid (u ∷ us) = ground (arith, contains_id-add_member uid us)

is_some-map :
    {A : Type 0} (b : Bool) (f : A → A) (o : Option A)
    → is_some o ≡ true
    → is_some (if b then Option.map f o else o) ≡ true
is_some-map true f none h = h
is_some-map true f (some a) h = refl
is_some-map false f o h = h

members-insert :
    (k : ℕ) (uids : List ℕ) (rooms : List (ℕ × List ℕ))
    → members_or_empty (lookup k (insert k uids rooms)) ≡ uids
members-insert k uids rooms = ground (arith, lookup-insert k k uids rooms, ==_iff k k)

-- Equipment leaves the players in.
equips-keeps :
    (ops : FloatOps) (id uid bonus : ℕ) (r : Room)
    → is_some (lookup id r.players) ≡ true
    → is_some (lookup id (step ops r (equips uid bonus)).0.players) ≡ true
unfolding step apply_equip
equips-keeps ops id uid bonus r h =
    let top = ops.add base_block_max bonus in
    rw (lookup-modify uid id (λ p. record p { block_max = top; block = top }) r.players) (
      is_some-map (uid == id) (λ (p : Player). record p { block_max = top; block = top })
        (lookup id r.players) h)

module _ {S : Type 0} where
  OnlySent-returned :
      {E A : Type 0} (start : World S) (x : Returned E A) {g : E → World S} {f : A → World S}
      → ((e : E) → OnlySent start (g e))
      → ((a : A) → OnlySent start (f a))
      → OnlySent start (elim x [ failed e ↦ g e | returned a ↦ f a ])
  OnlySent-returned start (failed e) h k = h e
  OnlySent-returned start (returned a) h k = k a

  OnlySent-send_all :
      (start w : World S) (uids : List ℕ) (b : List ℕ)
      → OnlySent start w
      → OnlySent start (send_all uids b w)
  OnlySent-send_all start w uids b h = record {
    same_places = places-enqueue_all uids b w.sessions ∙ h.same_places;
    same_members = h.same_members;
    same_rooms = h.same_rooms;
  }

  send_names-OnlySent :
      (start : World S) (env : Env S) (uid : ℕ) (os : List ℕ) (w : World S)
      → OnlySent start w
      → OnlySent start (send_names env uid os w)
  unfolding send_names
  send_names-OnlySent start env uid [] w h = h
  send_names-OnlySent start env uid (o ∷ os) w h =
      OnlySent-returned start (nick_of env (session_of o w).login_uid w)
        (λ e. send_names-OnlySent start env uid os w h)
        (λ nick. send_names-OnlySent start env uid os _ (OnlySent-send_all start w (uid ∷ []) _ h))

  pub sync_room_names-OnlySent :
      (env : Env S) (k uid : ℕ) (w : World S) → OnlySent w (sync_room_names env k uid w)
  unfolding sync_room_names
  sync_room_names-OnlySent env k uid w =
      let others = remove_member uid (members k w) in
      let v = send_names env uid others w in
      let h =
        send_names-OnlySent w env uid others w
          (record { same_places = refl; same_members = refl; same_rooms = refl }) in
      OnlySent-returned w (nick_of env (session_of uid v).login_uid v) (λ e. h)
        (λ nick. OnlySent-send_all w v others _ h)

  -- A room that runs, with a player in it.
  pub record HasPlayer (k id : ℕ) (w : World S) : Type 0 where
    pub room : Room
    pub runs : lookup k w.rooms ≡ some room
    pub plays : is_some (lookup id room.players) ≡ true

  pub room_call-HasPlayer :
      (env : Env S) (k id : ℕ) (m : Msg) (w : World S)
      → ((r : Room)
          → is_some (lookup id r.players) ≡ true
          → is_some (lookup id (step env.ops r m).0.players) ≡ true)
      → HasPlayer k id w
      → HasPlayer k id (room_call env k m w).0
  unfolding room_call
  room_call-HasPlayer env k id m w keeps h =
      let room' : Room = (step env.ops h.room m).0 in
      let called : (room_call env k m w).0 ≡ record w { rooms = insert k room' w.rooms } =
        rw (h.runs, room_call) refl in
      rw called (record {
        room = room';
        runs = ground (arith, lookup-insert k k room' w.rooms, ==_iff k k);
        plays = keeps h.room h.plays;
      })

  room_call-same :
      (env : Env S) (k : ℕ) (m : Msg) (w : World S)
      → ((room_call env k m w).0.sessions ≡ w.sessions)
        × ((room_call env k m w).0.room_sessions ≡ w.room_sessions)
  unfolding room_call
  room_call-same env k m w = ground arith

  put_members :
      (k id : ℕ) (rooms : List (ℕ × List ℕ)) (w : World S)
      → HasPlayer k id w
      → HasPlayer k id (record w { room_sessions = rooms })
  put_members k id rooms w h = record { room = h.room; runs = h.runs; plays = h.plays }

  -- The session is among those of the room, where the player stays.
  pub add_route_lem :
      (env : Env S) (k uid id : ℕ) (w : World S)
      → HasPlayer k id w
      → ((add_route env k uid w).sessions ≡ w.sessions)
        × (contains_id uid (members k (add_route env k uid w)) ≡ true)
        × HasPlayer k id (add_route env k uid w)
  unfolding add_route step
  add_route_lem env k uid id w h = elim (Option-cases (lookup k w.room_sessions)) [
    | inr (uids, e) ↦
        rw (e, add_route)
          (
            refl,
            rw (members-insert k (add_member uid uids) w.room_sessions)
                (contains_id-add_member uid uids),
            put_members k id _ w h,
          )
    | inl e ↦
        let w1 : World S = (room_call env k sets_broadcast w).0 in
        let w2 : World S = (room_call env k sets_on_empty w1).0 in
        let h2 : HasPlayer k id w2 =
          room_call-HasPlayer env k id sets_on_empty w1 (λ r p. p)
            (room_call-HasPlayer env k id sets_broadcast w (λ r p. p) h) in
        rw (e, add_route)
          (
            (room_call-same env k sets_on_empty w1).0 ∙ (room_call-same env k sets_broadcast w).0,
            rw (members-insert k (uid ∷ []) w2.room_sessions) (ground (arith, ==_iff uid uid)),
            put_members k id _ w2 h2,
          )
  ]

  pub equip_player_lem :
      (env : Env S) (k uid id : ℕ) (w : World S)
      → HasPlayer k id w
      → ((equip_player env k uid w).sessions ≡ w.sessions)
        × ((equip_player env k uid w).room_sessions ≡ w.room_sessions)
        × HasPlayer k id (equip_player env k uid w)
  unfolding equip_player
  equip_player_lem env k uid id w h =
      elim (Returned-cases (equip_id env.store env.crypto env.secret uid w.store)) [
        | inr (x, e) ↦ rw (e, equip_player) (refl, refl, h)
        | inl (worn, e) ↦
            let m = equips uid (bonus_of (env.store.get_equipment worn w.store)) in
            let (s, r) = room_call-same env k m w in
            rw (e, equip_player)
              (
                s,
                r,
                room_call-HasPlayer env k id m w
                    (equips-keeps env.ops id uid (bonus_of (env.store.get_equipment worn w.store)))
                    h,
              )
      ]
