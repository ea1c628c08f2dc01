-- ===== src/Gateway/Steady.antt =====
-- internal/gateway: what a handler leaves alone. Between the start of an event and a later moment
-- nobody comes online or goes, no session is made, closed or given another user, every room is in
-- order and no queue is longer than its channel.
pub mod Rooms
pub mod Lists
pub mod Battle
pub mod Handlers
use lurkspire.Prelude.{
  ℕ, ◌+◌, lookup-insert, text_beq_iff, insert, ◌+◌, ◌≤◌, ◌≡◌, refl, ◌∙◌, ap, inl, inr, List, [],
  ◌∷◌, ◌++◌, Option, none, some, Bool, true, false, arith, All, All-insert, All-erase, All-modify,
  All-lookup, Option-cases, Bool-cases, if◌then◌else◌, length, ◌==◌, lookup, insert, erase, modify,
  nat_key, text_key, subst, sym,
}
use lurkspire.Store.Users.{Returned, returned, failed}
use lurkspire.Store.Users.Catalogue.{Text}
use lurkspire.Room.State.{
  Room, Msg, Out, new_room, broadcast, emptied_notice, joined, states, events, equipped,
}
use lurkspire.Room.Loop.{step}
use lurkspire.Room.Loop.Invariant.{IsRoom, step-IsRoom, new_room-IsRoom}
use lurkspire.Gateway.State.{Env, Session, RoomMeta, World}
use lurkspire.Gateway.Send.{enqueue, enqueue_all, queue_size, frame, send, send_all}
use lurkspire.Gateway.Send.Queue.{enqueue-bound}
use lurkspire.Gateway.Registry.{members, remove_meta, create_room, destroy_room}
use lurkspire.Gateway.Registry.Running.{
  IsOrderly, IsManager, insert-IsManager, create-IsManager, destroy-IsManager, list-IsManager,
  unlist-IsManager,
}
use lurkspire.Room.Loop.Identity.{id-step}
use lurkspire.Gateway.Battle.Members.{AreApart}
use lurkspire.Gateway.Battle.{room_call, broadcast_to_room, route, set_room, clean_up}

-- Who a session belongs to, and whether it is closed.
abbrev pub tag : Session → ℕ × (Bool × Bool)
tag s = (s.login_uid, (s.logged_in, s.closed))

abbrev pub tags : List (ℕ × Session) → List (ℕ × (ℕ × (Bool × Bool)))
tags [] = []
tags (e ∷ ss) = (e.0, tag e.1) ∷ tags ss

abbrev pub IsQueued : ℕ × Session → Type 0
IsQueued e = length e.1.write_q ≤ queue_size

pub tags-modify :
    (uid : ℕ) (f : Session → Session) (ss : List (ℕ × Session))
    → ((s : Session) → tag (f s) ≡ tag s)
    → tags (modify uid f ss) ≡ tags ss
unfolding modify
tags-modify uid f [] h = refl
tags-modify uid f ((i, s) ∷ ss) h = ground (arith, h s, tags-modify uid f ss h)

-- What the room manager keeps.
abbrev pub managed :
    {S : Type 0} → World S → List (Text × ℕ) × List (ℕ × Room) × ℕ × List (Text × RoomMeta)
managed w = (w.manager, w.rooms, w.next_room, w.metas)

pub record Steady {S : Type 0} (start w : World S) : Type 0 where
  pub same_online : w.online ≡ start.online
  pub same_seq : w.seq ≡ start.seq
  pub same_tags : tags w.sessions ≡ tags start.sessions
  pub orderly : IsManager w.manager w.rooms w.next_room w.metas
  pub queued : All IsQueued w.sessions
  pub apart : AreApart w.room_sessions

module _ {S : Type 0} (start : World S) where
  pub Steady-if :
      (b : Bool) {v w : World S}
      → Steady start v
      → Steady start w
      → Steady start (if b then v else w)
  Steady-if true h k = h
  Steady-if false h k = k

  pub Steady-option :
      {A : Type 0} (x : Option A) {n : World S} {f : A → World S}
      → Steady start n
      → ((a : A) → Steady start (f a))
      → Steady start (elim x [ none ↦ n | some a ↦ f a ])
  Steady-option none h k = h
  Steady-option (some a) h k = k a

  pub Steady-returned :
      {E A : Type 0} (x : Returned E A) {g : E → World S} {f : A → World S}
      → ((e : E) → Steady start (g e))
      → ((a : A) → Steady start (f a))
      → Steady start (elim x [ failed e ↦ g e | returned a ↦ f a ])
  Steady-returned (failed e) h k = h e
  Steady-returned (returned a) h k = k a

  pub Steady-modify :
      (uid : ℕ) (f : Session → Session) (w : World S)
      → ((s : Session) → tag (f s) ≡ tag s)
      → ((s : Session) → length s.write_q ≤ queue_size → length (f s).write_q ≤ queue_size)
      → Steady start w
      → Steady start (record w { sessions = modify uid f w.sessions })
  Steady-modify uid f w t q h = record {
    same_online = h.same_online;
    same_seq = h.same_seq;
    same_tags = tags-modify uid f w.sessions t ∙ h.same_tags;
    orderly = h.orderly;
    queued = All-modify IsQueued uid f w.sessions h.queued q;
    apart = h.apart;
  }

  pub Steady-of :
      (w v : World S)
      → v.online ≡ w.online
      → v.seq ≡ w.seq
      → v.sessions ≡ w.sessions
      → (AreApart w.room_sessions → AreApart v.room_sessions)
      → (IsManager w.manager w.rooms w.next_room w.metas
          → IsManager v.manager v.rooms v.next_room v.metas)
      → Steady start w
      → Steady start v
  Steady-of w v o n s a r h = record {
    same_online = o ∙ h.same_online;
    same_seq = n ∙ h.same_seq;
    same_tags = ap tags s ∙ h.same_tags;
    orderly = r h.orderly;
    queued = subst (All IsQueued) (sym s) h.queued;
    apart = a h.apart;
  }

  pub Steady-put_rooms :
      (w v : World S)
      → v.online ≡ w.online
      → v.seq ≡ w.seq
      → v.sessions ≡ w.sessions
      → managed v ≡ managed w
      → (AreApart w.room_sessions → AreApart v.room_sessions)
      → Steady start w
      → Steady start v
  Steady-put_rooms w v o n s r a h =
      Steady-of w v o n s a
        (subst
          (λ (m : List (Text × ℕ) × List (ℕ × Room) × ℕ × List (Text × RoomMeta)).
            IsManager m.0 m.1 m.2 m.3)
          (sym r))
        h

  tag-enqueue : (b : List ℕ) (s : Session) → tag (enqueue b s) ≡ tag s
  unfolding enqueue
  tag-enqueue b s = ground arith

  pub Steady-send :
      (uid : ℕ) (b : List ℕ) (w : World S) → Steady start w → Steady start (send uid b w)
  Steady-send uid b w h = Steady-modify uid (enqueue b) w (tag-enqueue b) (enqueue-bound b) h

  pub Steady-send_all :
      (uids : List ℕ) (b : List ℕ) (w : World S) → Steady start w → Steady start (send_all uids b w)
  Steady-send_all [] b w h = h
  Steady-send_all (uid ∷ uids) b w h = Steady-send_all uids b (send uid b w) (Steady-send uid b w h)

  pub Steady-set_room :
      (uid : ℕ) (r : Option ℕ) (w : World S) → Steady start w → Steady start (set_room uid r w)
  Steady-set_room uid r w h =
      Steady-modify uid (λ s. record s { room = r }) w (λ s. refl) (λ s k. k) h
