-- ===== src/Gateway/Tests/Friends.antt =====
-- The theorem on friends, with two users who know nobody.
use lurkspire.Prelude.{◌≡◌, refl, [], ◌∷◌, true, arith, lookup, nat_key}
use lurkspire.Protocol.Lobby.{encode_uid}
use lurkspire.Protocol.Numbers.{msg_friend_invite, msg_friend_accept}
use lurkspire.Store.Users.{MemStore, new_mem_store}
use lurkspire.Store.Friends.{friend_ids}
use lurkspire.Store.Friends.Changes.{is_in}
use lurkspire.Gateway.State.{Session, World, new_world, new_session}
use lurkspire.Gateway.Session.{handle}
use lurkspire.Gateway.Invariant.{IsWorld}
use lurkspire.Gateway.Invariant.Befriends.{IsLoggedIn, invite-accept}
use lurkspire.Gateway.Tests.{env}

abbrev ada : Session
ada = record (new_session 1 0) { login_uid = 7; logged_in = true }

abbrev bob : Session
bob = record (new_session 2 0) { login_uid = 8; logged_in = true }

abbrev strangers : World MemStore
strangers = record (new_world new_mem_store) {
  seq = 2;
  sessions = (1, ada) ∷ (2, bob) ∷ [];
  served = (1, 1) ∷ (2, 2) ∷ [];
  online = (7, 1) ∷ (8, 2) ∷ [];
}

strangers-IsWorld : IsWorld 2 strangers
unfolding lookup
strangers-IsWorld = record {
  some_sessions = omega arith;
  numbered = (omega arith, (omega arith, tt));
  distinct = (refl, (refl, tt));
  online = (refl, (refl, tt));
  orderly = record {
    orderly = tt;
    older = tt;
    distinct = tt;
    names = tt;
    running = tt;
    listed = tt;
    shown = tt;
  };
  queued = (omega arith, (omega arith, tt));
  apart = tt;
}

ada_in : IsLoggedIn 1 7 strangers
unfolding lookup
ada_in = refl

bob_in : IsLoggedIn 2 8 strangers
unfolding lookup
bob_in = refl

abbrev asked : World MemStore
asked =
    handle env 0 0 1 (record { msg_id = msg_friend_invite; seq = 1; body = encode_uid 8 }) strangers

abbrev answered : World MemStore
answered =
    handle env 1 0 2 (record { msg_id = msg_friend_accept; seq = 1; body = encode_uid 7 }) asked

invite-accept_example :
    (is_in 7 (friend_ids 8 answered.store.friends) ≡ true)
    × (is_in 8 (friend_ids 7 answered.store.friends) ≡ true)
invite-accept_example =
    invite-accept env 2 0 0 1 1 0 1 1 2 7 8 strangers strangers-IsWorld tt tt ada_in bob_in
      (omega arith) (omega arith) refl
